-- ===== src/Operations.antt =====
-- cmd/agent/operations.go: one operation at a time for an instance. The map `busy` and the
-- lease objects are the state; a lease is named by its index in the list of all leases made. The
-- two mutexes make each function below one step.
pub mod Sharing
use virtualis_agent.Common.{
  ℕ, ◌+◌, Bool, true, false, List, [], ◌∷◌, ◌++◌, Option, none, some, length, get_elem?, set,
  or_else, if◌then◌else◌,
}
use virtualis_agent.Common.Int.{ℤ, pos, ◌+ℤ◌, ◌-ℤ◌, eqb_ℤ}
use virtualis_agent.Common.Map.{Map, lookup, insert, delete, eq_ℕ}

-- `release` is the closure that deletes the id.
pub record OperationLease : Type 0 where
  pub id : ℕ
  pub refs : ℤ

pub record Operations : Type 0 where
  pub busy : Map ℕ Bool
  pub leases : List OperationLease

unfoldable pub is_busy : Operations → ℕ → Bool
is_busy s id = or_else (lookup id s.busy) false

unfoldable pub try_operation : ℕ → Operations → Option ℕ × Operations
unfolding is_busy
try_operation id s = if is_busy s id then (none, s) else (
  some (length s.leases),
  record {
    busy = insert id true s.busy;
    leases = s.leases ++ record { id = id; refs = pos 1 } ∷ [];
  },
)

unfoldable pub retain : ℕ → Operations → Operations
retain l s = elim (get_elem? s.leases l) [
  | none ↦ s
  | some lease ↦ record s { leases = set s.leases l (record lease { refs = lease.refs +ℤ pos 1 }) }
]

-- The last holder's call releases the instance.
unfoldable pub done : ℕ → Operations → Operations
done l s = elim (get_elem? s.leases l) [
  | none ↦ s
  | some lease ↦
      let refs = lease.refs -ℤ pos 1 in
      record {
        busy = if eqb_ℤ refs (pos 0) then delete lease.id s.busy else s.busy;
        leases = set s.leases l (record lease { refs = refs });
      }
]

-- The lease is a value of the request's context. With none, both functions do nothing.
unfoldable pub retain_operation : Option ℕ → Operations → Operations × (Operations → Operations)
unfolding retain done
retain_operation none s = (s, λ t. t)
retain_operation (some l) s = (retain l s, done l)
