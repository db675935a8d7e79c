-- ===== src/Operations/Sharing.antt =====
-- Any interleaving of requests and of the work that they leave behind, over the leases of
-- cmd/agent/operations.go. A holder is a request or a boot continuation that will call `done` once.
pub mod Begin
pub mod Change
pub mod Exclusion
use virtualis_agent.Common.{
  ℕ, zero, suc, ◌+◌, ◌≤◌, ◌<◌, ◌≡◌, refl, sym, ap, subst, ◌∙◌, ◌≢◌, Bool-cases, ==_iff, ◌⊎◌, inl,
  inr, Bool, true, false, List, [], ◌∷◌, ◌++◌, Option, none, some, length, get_elem?, set, arith,
  count, erase, count-erase_self, count-erase_ne, get_elem?-set_self, get_elem?-set_ne,
  get_elem?-concat, lt-length_of_get_elem?, Option-cases, if◌then◌else◌, ◌==◌, length-append,
}
use virtualis_agent.Common.Int.{ℤ, pos, ◌+ℤ◌, ◌-ℤ◌}
use virtualis_agent.Common.Map.{lookup, insert, delete, eq_ℕ, lookup-insert, lookup-delete, Map}
use native.Mathlib.Decide.{ℕ_discrete}
use virtualis_agent.Operations.{OperationLease, Operations, is_busy, try_operation, retain, done}

pub record Shared : Type 0 where
  pub ops : Operations
  -- One entry, a lease's index, for each holder.
  pub holders : List ℕ

-- What a request or a continuation can do next.
pub data Step (s : Shared) : Shared → Type 0 where
  begin :
      (id l : ℕ) (ops : Operations)
      → try_operation id s.ops ≡ (some l, ops)
      → Step s (record { ops = ops; holders = l ∷ s.holders })
  refuse :
      (id : ℕ) (ops : Operations)
      → try_operation id s.ops ≡ (none, ops)
      → Step s (record s { ops = ops })
  fork :
      (l : ℕ)
      → 0 < count l s.holders
      → Step s (record { ops = retain l s.ops; holders = l ∷ s.holders })
  finish :
      (l : ℕ)
      → 0 < count l s.holders
      → Step s (record { ops = done l s.ops; holders = erase l s.holders })

pub data Reach : Shared → Type 0 where
  start : Reach (record { ops = record { busy = []; leases = [] }; holders = [] })
  next : {s t : Shared} → Reach s → Step s t → Reach t

-- A lease that somebody holds, for the instance `id`.
pub record Holds (s : Shared) (l id : ℕ) : Type 0 where
  pub lease : OperationLease
  pub found : get_elem? s.ops.leases l ≡ some lease
  pub named : lease.id ≡ id
  pub held : 0 < count l s.holders

pub record IsConsistent (s : Shared) : Type 0 where
  pub counted :
      (l : ℕ) (lease : OperationLease)
      → get_elem? s.ops.leases l ≡ some lease
      → lease.refs ≡ pos (count l s.holders)
  pub known : (l : ℕ) → length s.ops.leases ≤ l → count l s.holders ≡ 0
  pub marked : (l id : ℕ) → Holds s l id → is_busy s.ops id ≡ true
  pub owned : (id : ℕ) → is_busy s.ops id ≡ true → (l : ℕ) × Holds s l id
  pub alone : (l m id : ℕ) → Holds s l id → Holds s m id → l ≡ m
