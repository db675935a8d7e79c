-- ===== src/Operations/Sharing/Begin.antt =====
-- A request that gets its lease keeps the leases of cmd/agent/operations.go consistent.
use virtualis_agent.Common.{
  ℕ, ◌≡◌, sym, subst, ◌∙◌, Bool-cases, ==_iff, ◌⊎◌, inl, inr, true, false, List, [], ◌∷◌, ◌++◌,
  none, some, length, get_elem?, arith, count, get_elem?-concat, lt-length_of_get_elem?,
  if◌then◌else◌, ◌==◌, length-append,
}
use virtualis_agent.Common.Int.{pos}
use virtualis_agent.Common.Map.{insert, eq_ℕ, lookup-insert}
use virtualis_agent.Operations.{OperationLease, Operations, is_busy, try_operation}
use virtualis_agent.Operations.Sharing.{Shared, Holds, IsConsistent}

is_busy-insert :
    (s : Operations) (id j : ℕ) (ls : List OperationLease)
    → is_busy (record { busy = insert id true s.busy; leases = ls }) j
      ≡ (if id == j then true else is_busy s j)
unfolding is_busy
is_busy-insert s id j ls = ground (arith, lookup-insert id j true s.busy)

abbrev begun : Shared → ℕ → Shared
begun s id = record {
  ops = record {
    busy = insert id true s.ops.busy;
    leases = s.ops.leases ++ record { id = id; refs = pos 1 } ∷ [];
  };
  holders = length s.ops.leases ∷ s.holders;
}

module _ (s : Shared) (c : IsConsistent s) (id : ℕ) (fresh : is_busy s.ops id ≡ false) where
  -- A holder after the call is the new one, or was one before.
  Holds-begun :
      (l j : ℕ) → Holds (begun s id) l j → ((l ≡ length s.ops.leases) × (j ≡ id)) ⊎ Holds s l j
  Holds-begun l j h = elim (get_elem?-concat s.ops.leases (record { id = id; refs = pos 1 }) l) [
    | inl (old, e) ↦ inr (record {
      lease = h.lease;
      found = sym e ∙ h.found;
      named = h.named;
      held = ground (arith, h.held);
    })
    | inr (inl (new, e)) ↦ inl (new, ground arith)
    | inr (inr (out, e)) ↦ absurd (ground arith)
  ]

  Holds-kept : (l j : ℕ) → Holds s l j → Holds (begun s id) l j
  Holds-kept l j h = record {
    lease = h.lease;
    found = ground (
      arith,
      h.found,
      get_elem?-concat s.ops.leases (record { id = id; refs = pos 1 }) l,
      lt-length_of_get_elem? s.ops.leases l h.lease,
    );
    named = h.named;
    held = ground (arith, h.held);
  }

  begun-counted :
      (l : ℕ) (lease : OperationLease)
      → get_elem? (begun s id).ops.leases l ≡ some lease
      → lease.refs ≡ pos (count l (begun s id).holders)
  begun-counted l lease e = ground (
    arith,
    get_elem?-concat s.ops.leases (record { id = id; refs = pos 1 }) l,
    c.counted l lease,
    c.known l,
  )

  begun-owned : (j : ℕ) → is_busy (begun s id).ops j ≡ true → (l : ℕ) × Holds (begun s id) l j
  begun-owned j e = elim (Bool-cases (id == j)) [
    | inl same ↦
        let at_end =
          get_elem?-concat s.ops.leases (record { id = id; refs = pos 1 }) (length s.ops.leases) in
        (
          length s.ops.leases,
          record {
            lease = record { id = id; refs = pos 1 };
            found = ground arith;
            named = (==_iff id j).0 same;
            held = ground arith;
          },
        )
    | inr other ↦
        let (l, h) =
          c.owned j (ground (arith, is_busy-insert s.ops id j (begun s id).ops.leases)) in
        (l, Holds-kept l j h)
  ]

  begun-IsConsistent : IsConsistent (begun s id)
  begun-IsConsistent = record {
    counted = begun-counted;
    known = λ l h.
        ground
          (arith, length-append s.ops.leases (record { id = id; refs = pos 1 } ∷ []), c.known l);
    marked = λ l j h.
        ground (
          arith,
          is_busy-insert s.ops id j (begun s id).ops.leases,
          Holds-begun l j h,
          c.marked l j,
        );
    owned = begun-owned;
    alone = λ l m j h k.
        ground
          (arith, Holds-begun l j h, Holds-begun m j k, c.alone l m j, c.marked l j, c.marked m j);
  }

pub begin-IsConsistent :
    (s : Shared) (id l : ℕ) (ops : Operations)
    → IsConsistent s
    → try_operation id s.ops ≡ (some l, ops)
    → IsConsistent (record { ops = ops; holders = l ∷ s.holders })
unfolding try_operation
begin-IsConsistent s id l ops c e = elim (Bool-cases (is_busy s.ops id)) [
  | inl old ↦ absurd (ground arith)
  | inr fresh ↦
      subst (λ (t : Shared). IsConsistent t) (ground arith) (begun-IsConsistent s c id fresh)
]

pub refuse-unchanged : (id : ℕ) (s ops : Operations) → try_operation id s ≡ (none, ops) → ops ≡ s
unfolding try_operation
refuse-unchanged id s ops e = ground arith
