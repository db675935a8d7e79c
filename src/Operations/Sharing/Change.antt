-- ===== src/Operations/Sharing/Change.antt =====
-- So do the retaining of a lease and its release, which change one lease and its holders.
use virtualis_agent.Common.{
  ℕ, zero, suc, ◌<◌, ◌≡◌, refl, sym, ap, subst, ◌∙◌, ◌≢◌, ◌⊎◌, inl, inr, Bool, true, false, List,
  [], ◌∷◌, some, length, get_elem?, set, arith, count, erase, count-erase_self, count-erase_ne,
  get_elem?-set_self, get_elem?-set_ne, if◌then◌else◌, ◌==◌,
}
use virtualis_agent.Common.Int.{ℤ, pos, eqb_ℤ, ◌+ℤ◌, ◌-ℤ◌}
use virtualis_agent.Common.Map.{delete, eq_ℕ, lookup-delete, Map}
use native.Mathlib.Decide.{ℕ_discrete}
use virtualis_agent.Operations.{OperationLease, Operations, is_busy, retain, done}
use virtualis_agent.Operations.Sharing.{Shared, Holds, IsConsistent}

is_busy-delete :
    (s : Operations) (id j : ℕ) (ls : List OperationLease)
    → is_busy (record { busy = delete id s.busy; leases = ls }) j
      ≡ (if id == j then false else is_busy s j)
unfolding is_busy
is_busy-delete s id j ls = ground (arith, lookup-delete id j s.busy)

some_of_lt-length {ℓ} :
    {A : Type ℓ} (xs : List A) (i : ℕ) → i < length xs → (x : A) × (get_elem? xs i ≡ some x)
some_of_lt-length [] i h = elim h [ ]
some_of_lt-length (x ∷ xs) zero h = (x, refl)
some_of_lt-length (x ∷ xs) (suc i) h = some_of_lt-length xs i (omega arith)

lease_of_held :
    (s : Shared)
    → IsConsistent s
    → (l : ℕ) → 0 < count l s.holders
    → (lease : OperationLease) × (get_elem? s.ops.leases l ≡ some lease)
lease_of_held s c l h = some_of_lt-length s.ops.leases l (ground (arith, c.known l))

length-set {ℓ} : {A : Type ℓ} (xs : List A) (i : ℕ) (v : A) → length (set xs i v) ≡ length xs
length-set [] i v = refl
length-set (x ∷ xs) zero v = refl
length-set (x ∷ xs) (suc i) v = ap suc (length-set xs i v)

-- One lease gets other counts, the holders are adjusted, and the busy map stays.
module _ (s : Shared) (c : IsConsistent s) (l : ℕ) (lease : OperationLease)
    (found : get_elem? s.ops.leases l ≡ some lease) (refs : ℤ) (holders : List ℕ)
    (others : (m : ℕ) → l ≢ m → count m holders ≡ count m s.holders)
    (agree : refs ≡ pos (count l holders)) where
  abbrev changed : Map ℕ Bool → Shared
  changed busy = record {
    ops = record { busy = busy; leases = set s.ops.leases l (record lease { refs = refs }) };
    holders = holders;
  }

  at :
      (m : ℕ)
      → ((l ≡ m)
          × (get_elem? (set s.ops.leases l (record lease { refs = refs })) m
              ≡ some (record lease { refs = refs })))
        ⊎ ((l ≢ m)
            × (get_elem? (set s.ops.leases l (record lease { refs = refs })) m
                ≡ get_elem? s.ops.leases m))
  at m = elim (ℕ_discrete l m) [
    | yes same ↦ inl (same, rw (← same) (get_elem?-set_self s.ops.leases l _ lease found))
    | no ne ↦ inr (ne, get_elem?-set_ne s.ops.leases l m _ ne)
  ]

  changed-counted :
      (busy : Map ℕ Bool) (m : ℕ) (other : OperationLease)
      → get_elem? (changed busy).ops.leases m ≡ some other
      → other.refs ≡ pos (count m holders)
  changed-counted busy m other e = elim (at m) [
    | inl (same, new) ↦ rw (← same) (ground arith)
    | inr (ne, old) ↦ rw (others m ne) (c.counted m other (sym old ∙ e))
  ]

  Holds-changed :
      (busy : Map ℕ Bool) (m j : ℕ) → Holds (changed busy) m j → 0 < count m s.holders → Holds s m j
  Holds-changed busy m j h k = elim (at m) [
    | inl (same, new) ↦ record {
      lease = lease;
      found = rw (← same) found;
      named = ground arith;
      held = k;
    }
    | inr (ne, old) ↦ record {
      lease = h.lease;
      found = sym old ∙ h.found;
      named = h.named;
      held = k;
    }
  ]

  changed-Holds :
      (busy : Map ℕ Bool) (m j : ℕ) → Holds s m j → 0 < count m holders → Holds (changed busy) m j
  changed-Holds busy m j h k = elim (at m) [
    | inl (same, new) ↦
        let this : some lease ≡ some h.lease =
          sym found ∙ subst (λ i. get_elem? s.ops.leases i ≡ some h.lease) (sym same) h.found in
        record { lease = record lease { refs = refs }; found = new; named = ground arith; held = k }
    | inr (ne, old) ↦ record { lease = h.lease; found = old ∙ h.found; named = h.named; held = k }
  ]

  -- Where every holder left was one before, and `busy` is right about each instance.
  changed-IsConsistent :
      (busy : Map ℕ Bool)
      → ((m : ℕ) → 0 < count m holders → 0 < count m s.holders)
      → ((m j : ℕ) → Holds s m j → 0 < count m holders → is_busy (changed busy).ops j ≡ true)
      → ((j : ℕ)
          → is_busy (changed busy).ops j ≡ true
          → (m : ℕ) × Holds s m j × (0 < count m holders))
      → IsConsistent (changed busy)
  changed-IsConsistent busy before marks owners = record {
    counted = changed-counted busy;
    known = λ m h.
        ground
          (arith, length-set s.ops.leases l (record lease { refs = refs }), c.known m, before m);
    marked = λ m j h. marks m j (Holds-changed busy m j h (before m h.held)) h.held;
    owned = λ j e. let (m, h, k) = owners j e in (m, changed-Holds busy m j h k);
    alone = λ m n j h k.
        c.alone m n j (Holds-changed busy m j h (before m h.held))
          (Holds-changed busy n j k (before n k.held));
  }

pub fork-IsConsistent :
    (s : Shared) (l : ℕ)
    → IsConsistent s
    → 0 < count l s.holders
    → IsConsistent (record { ops = retain l s.ops; holders = l ∷ s.holders })
unfolding retain is_busy
fork-IsConsistent s l c h =
    let (lease, found) = lease_of_held s c l h in
    rw (found, retain)
      (changed-IsConsistent s c l lease found (lease.refs +ℤ pos 1) (l ∷ s.holders)
        (λ m ne. ground arith) (ground (arith, c.counted l lease found)) s.ops.busy
        (λ m k. ground arith) (λ m j k _. c.marked m j k)
        (λ j e. let (m, k) = c.owned j e in (m, k, ground (arith, k.held))))

module _ (s : Shared) (l : ℕ) (c : IsConsistent s) (h : 0 < count l s.holders)
    (lease : OperationLease) (found : get_elem? s.ops.leases l ≡ some lease) where
  kept : (m : ℕ) → 0 < count m (erase l s.holders) → 0 < count m s.holders
  kept m k = elim (ℕ_discrete l m) [
    | yes same ↦ rw (← same) h
    | no ne ↦ ground (arith, count-erase_ne l m s.holders ne)
  ]

  mine : Holds s l lease.id
  mine = record { lease = lease; found = found; named = refl; held = h }

  finish-last :
      count l (erase l s.holders) ≡ 0
      → (m j : ℕ) → Holds s m j
      → 0 < count m (erase l s.holders)
      → lease.id ≢ j
  finish-last zero_left m j k n e =
      let same = c.alone l m j (rw e at mine) k in ground (arith, same)

  left_of_ne : (m j : ℕ) → Holds s m j → lease.id ≢ j → 0 < count m (erase l s.holders)
  left_of_ne m j k ne = elim (ℕ_discrete l m) [
    | yes same ↦
        let this : get_elem? s.ops.leases l ≡ some k.lease = rw same k.found in
        absurd (ne (ground (arith, k.named)))
    | no other ↦ ground (arith, count-erase_ne l m s.holders other, k.held)
  ]

  left_of_more :
      count l (erase l s.holders) ≢ 0 → (m j : ℕ) → Holds s m j → 0 < count m (erase l s.holders)
  left_of_more more m j k = elim (ℕ_discrete l m) [
    | yes same ↦ rw (← same) (ground arith)
    | no other ↦ ground (arith, count-erase_ne l m s.holders other, k.held)
  ]

  left_count : lease.refs -ℤ pos 1 ≡ pos (count l (erase l s.holders))
  left_count = ground (arith, c.counted l lease found, count-erase_self l s.holders)

  finish-IsConsistent_by :
      (busy : Map ℕ Bool) (last : Bool)
      → eqb_ℤ (lease.refs -ℤ pos 1) (pos 0) ≡ last
      → busy ≡ (if last then delete lease.id s.ops.busy else s.ops.busy)
      → IsConsistent (record {
        ops = record {
          busy = busy;
          leases = set s.ops.leases l (record lease { refs = lease.refs -ℤ pos 1 });
        };
        holders = erase l s.holders;
      })
  unfolding is_busy
  finish-IsConsistent_by busy true e b =
      let gone : count l (erase l s.holders) ≡ 0 = ground (arith, left_count) in
      let leases = set s.ops.leases l (record lease { refs = lease.refs -ℤ pos 1 }) in
      rw b (
        changed-IsConsistent s c l lease found (lease.refs -ℤ pos 1) (erase l s.holders)
          (λ m ne. count-erase_ne l m s.holders ne) left_count (delete lease.id s.ops.busy) kept
          (λ m j k n. ground (
            arith,
            is_busy-delete s.ops lease.id j leases,
            finish-last gone m j k n,
            c.marked m j k,
          ))
          (λ j busy_j.
            let facts = is_busy-delete s.ops lease.id j leases in
            let (m, k) = c.owned j (ground (arith, facts)) in
            (m, k, left_of_ne m j k (ground (arith, facts)))))
  finish-IsConsistent_by busy false e b = rw b (
      changed-IsConsistent s c l lease found (lease.refs -ℤ pos 1) (erase l s.holders)
        (λ m ne. count-erase_ne l m s.holders ne) left_count s.ops.busy kept
        (λ m j k _. c.marked m j k)
        (λ j busy_j.
          let (m, k) = c.owned j busy_j in (m, k, left_of_more (ground (arith, left_count)) m j k)))

pub finish-IsConsistent :
    (s : Shared) (l : ℕ)
    → IsConsistent s
    → 0 < count l s.holders
    → IsConsistent (record { ops = done l s.ops; holders = erase l s.holders })
unfolding done
finish-IsConsistent s l c h =
    let (lease, found) = lease_of_held s c l h in
    rw (found, done) (finish-IsConsistent_by s l c h lease found _ _ refl refl)
