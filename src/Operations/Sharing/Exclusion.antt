-- ===== src/Operations/Sharing/Exclusion.antt =====
-- What the leases of cmd/agent/operations.go guarantee in every reachable state.
use virtualis_agent.Common.{ℕ, ◌≡◌, refl, ◌↔◌, [], none, arith}
use virtualis_agent.Common.Map.{lookup, eq_ℕ}
use virtualis_agent.Operations.{is_busy, try_operation}
use virtualis_agent.Operations.Sharing.{
  Shared, Holds, IsConsistent, Step, Reach, begin, refuse, fork, finish, start, next,
}
use virtualis_agent.Operations.Sharing.Begin.{begin-IsConsistent, refuse-unchanged}
use virtualis_agent.Operations.Sharing.Change.{fork-IsConsistent, finish-IsConsistent}

start-IsConsistent : IsConsistent (record { ops = record { busy = []; leases = [] }; holders = [] })
unfolding is_busy lookup
start-IsConsistent = record {
  counted = λ l lease e. ground arith;
  known = λ l h. refl;
  marked = λ l id h. absurd (ground (arith, h.held));
  owned = λ id e. absurd (ground arith);
  alone = λ l m id h k. absurd (ground (arith, h.held));
}

-- One step of any request or continuation keeps the leases consistent: the count of each lease is
-- the number of its holders, an instance is busy exactly while some lease on it is held, and no
-- two leases on one instance are held at a time.
pub Step-IsConsistent : {s t : Shared} → Step s t → IsConsistent s → IsConsistent t
Step-IsConsistent {s} (begin id l ops e) c = begin-IsConsistent s id l ops c e
Step-IsConsistent {s} (refuse id ops e) c = rw (refuse-unchanged id s.ops ops e) c
Step-IsConsistent {s} (fork l h) c = fork-IsConsistent s l c h
Step-IsConsistent {s} (finish l h) c = finish-IsConsistent s l c h

pub Reach-IsConsistent : {s : Shared} → Reach s → IsConsistent s
Reach-IsConsistent start = start-IsConsistent
Reach-IsConsistent (next r st) = Step-IsConsistent st (Reach-IsConsistent r)

-- In every reachable state two holders of leases on the same instance share one lease.
pub Reach-exclusive : {s : Shared} (l m id : ℕ) → Reach s → Holds s l id → Holds s m id → l ≡ m
Reach-exclusive l m id r h k = (Reach-IsConsistent r).alone l m id h k

-- In every reachable state a request for an instance is refused exactly if a lease on the instance
-- is still held, so that a lease is never given twice and never left behind.
pub try_operation_refused_iff :
    (s : Shared) (id : ℕ) → Reach s → ((try_operation id s.ops).0 ≡ none) ↔ ((l : ℕ) × Holds s l id)
unfolding try_operation
try_operation_refused_iff s id r = (
  λ e. (Reach-IsConsistent r).owned id (ground arith),
  λ (l, h). rw ((Reach-IsConsistent r).marked l id h) refl,
)
