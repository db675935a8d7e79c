-- ===== src/Server/Enforce/Laws.antt =====
-- What a round of cmd/agent/traffic_enforce.go changes of the agent's state.
use virtualis_agent.Common.{
  ℕ, true, false, ◌&&◌, ◌||◌, not, List, [], ◌∷◌, ◌++◌, length, get_elem?, subst, Option, none,
  some, if◌then◌else◌, ◌==◌, ◌≡◌, ◌≢◌, refl, ap, ◌∙◌, arith, Option-cases, Bool-cases, inl, inr,
}
use virtualis_agent.Common.Int.{pos, leb_ℤ}
use virtualis_agent.Common.Map.{lookup, insert, lookup-insert, lookup-delete, eq_ℕ}
use virtualis_agent.Protocol.{Instance, Metrics, NetworkConfig}
use virtualis_agent.Operations.{Operations, is_busy, try_operation, done}
use virtualis_agent.Driver.{Driver, TrafficStore}
use virtualis_agent.Driver.Registry.{get}
use virtualis_agent.Server.{AgentServer, Environment, ◌>>=◌, pure, get_state, stored_instance}
use virtualis_agent.Server.Leases.{apply_firewall_if_running}
use virtualis_agent.Server.Enforce.{
  Marks, disconnect_on_quota, reconnect_after_quota, allow, enforce_marks, enforce_metrics,
  enforce_unmarked, enforce_marked, enforce_stored, enforce_under_lease, enforce_instance_quota,
  is_none, is_traffic_disconnected, restored_network,
}
use virtualis_agent.Server.Enforce.Frame.{
  Frame, Only, Only-pure, Only-call, Only-on_host, Only-on_host_, Only-get_state, Only-store,
  Only-bind, Only-then, Only-if, Only-by_option, Only-by_result,
}

module _ {W : Type 0} (env : Environment W) (stored : Instance) where
  Only-disconnect :
      (d : Driver W) (ts : Option (TrafficStore W)) (used : ℕ) (quota : _)
      → Only stored.id (disconnect_on_quota d ts stored used quota)
  unfolding disconnect_on_quota
  Only-disconnect d ts used quota = Only-bind _ _ _ (Only-call _ _ _) (λ (configured, i).
      Only-by_result _ configured _ _ (λ e. Only-pure _ tt)
        (λ u. Only-then _ _ _ (Only-on_host_ _ _) (Only-store _ i)))

  Only-firewall : (d : Driver W) (i : Instance) → Only stored.id (apply_firewall_if_running env d i)
  unfolding apply_firewall_if_running
  Only-firewall d i =
      Only-if _ _ _ _ (Only-bind _ _ _ (Only-call _ _ _) (λ a. Only-pure _ _)) (Only-pure _ i)

  Only-reconnect :
      (d : Driver W) (ts : TrafficStore W) (original : NetworkConfig)
      → Only stored.id (reconnect_after_quota env d ts stored original)
  unfolding reconnect_after_quota
  Only-reconnect d ts original = Only-bind _ _ _ (Only-call _ _ _) (λ (configured, i).
      Only-by_result _ configured _ _ (λ e. Only-pure _ tt)
        (λ u.
          Only-bind _ _ _ (Only-firewall d i)
            (λ j. Only-then _ _ _ (Only-on_host_ _ _) (Only-store _ j))))

  Only-enforce_marks :
      (d : Driver W) (ts : TrafficStore W) (metrics : Metrics) (marks : Marks)
      → Only stored.id (enforce_marks env d ts stored metrics marks)
  unfolding enforce_marks allow
  Only-enforce_marks d ts metrics marks =
      Only-if _ (not metrics.traffic_quota_exceeded) _ _
        (Only-if _ marks.disconnected _ _
          (Only-by_option _ (if is_none stored then marks.original else none) _ _
            (Only-on_host_ _ _) (λ n. Only-reconnect d ts (restored_network marks.quota n)))
          (Only-pure _ tt))
        (Only-if _ (is_none stored || marks.disconnected) _ _ (Only-pure _ tt)
          (Only-disconnect d (some ts) metrics.traffic_used_bytes marks.quota))

  Only-enforce_metrics :
      (d : Driver W) (metrics : Metrics) → Only stored.id (enforce_metrics env d stored metrics)
  unfolding enforce_metrics enforce_unmarked enforce_marked
  Only-enforce_metrics d metrics =
      Only-by_option _ d.traffic _ _
        (Only-if _ (metrics.traffic_quota_exceeded && not (is_none stored)) _ _
          (Only-disconnect d none metrics.traffic_used_bytes stored.network.traffic_gb)
          (Only-pure _ tt))
        (λ ts.
          Only-bind _ _ _ (Only-on_host _ _)
            (λ (disconnected, original, used, file_quota). Only-enforce_marks d ts metrics _))

  Only-enforce_stored : (id : ℕ) → Only stored.id (enforce_stored env id stored)
  unfolding enforce_stored
  Only-enforce_stored id = Only-bind _ _ _ (Only-get_state _) (λ s.
      Only-if _ (leb_ℤ stored.network.traffic_gb (pos 0) && not (is_traffic_disconnected s id)) _ _
        (Only-pure _ tt)
        (Only-by_option _ (get stored.driver s.registry) _ _ (Only-pure _ tt) (λ d.
          Only-bind _ _ _ (Only-call _ _ _) (λ (measured, copy).
            Only-by_result _ measured _ _ (λ e. Only-pure _ tt)
              (λ metrics. Only-enforce_metrics d metrics)))))

get_elem?-last {ℓ} :
    {A : Type ℓ} (xs : List A) (x : A) → get_elem? (xs ++ x ∷ []) (length xs) ≡ some x
get_elem?-last [] x = refl
get_elem?-last (y ∷ ys) x = get_elem?-last ys x

-- A lease that is given back leaves nobody busy who was not.
done-try_operation :
    (id other : ℕ) (ops : Operations)
    → is_busy ops id ≡ false
    → is_busy (done (length ops.leases) (try_operation id ops).1) other ≡ is_busy ops other
unfolding done is_busy try_operation
done-try_operation id other ops free =
    rw (free, get_elem?-last ops.leases (record { id = id; refs = pos 1 }), done)
      (ground (
        arith,
        lookup-delete id other (insert id true ops.busy),
        lookup-insert id other true ops.busy,
        free,
      ))

module _ {W : Type 0} (env : Environment W) where
  enforce_under_lease-Frame :
      (id : ℕ) (s : AgentServer W)
      → ((i : Instance) → lookup id s.instances ≡ some i → i.id ≡ id)
      → Frame id s (enforce_under_lease env id s).1
  unfolding enforce_under_lease stored_instance get_state ◌>>=◌
  enforce_under_lease-Frame id s known = elim (Option-cases (lookup id s.instances)) [
    | inl unknown ↦ rw unknown ((Only-pure id tt).at s)
    | inr (stored, found) ↦ rw found (
        subst (λ n. Frame n s (enforce_stored env id stored s).1) (known stored found)
          ((Only-enforce_stored env stored id).at s))
  ]

  -- A round over one instance, whose entry has its own id, changes of the agent's memory at most that
  -- entry: the others, the files of ownership, the marks of readiness and who is busy are as before.
  -- If the instance is busy, nothing changes and no call is made.
  pub enforce_instance_quota-Frame :
      (id : ℕ) (s : AgentServer W)
      → ((i : Instance) → lookup id s.instances ≡ some i → i.id ≡ id)
      → (let t = (enforce_instance_quota env id s).1 in
          ((other : ℕ) → other ≢ id → lookup other t.instances ≡ lookup other s.instances)
          × (t.owned ≡ s.owned)
          × (t.boot_ready ≡ s.boot_ready)
          × ((other : ℕ) → is_busy t.operations other ≡ is_busy s.operations other)
          × (is_busy s.operations id ≡ true → t ≡ s))
  unfolding enforce_instance_quota try_operation pure
  enforce_instance_quota-Frame id s known = elim (Bool-cases (id == 0)) [
    | inl zero_id ↦ rw zero_id (λ other n. refl, refl, refl, λ other. refl, λ busy. refl)
    | inr positive ↦ elim (Bool-cases (is_busy s.operations id)) [
      | inl busy ↦ rw (positive, busy) (λ other n. refl, refl, refl, λ other. refl, λ b. refl)
      | inr free ↦
          let began = record s { operations = (try_operation id s.operations).1 } in
          let frame = enforce_under_lease-Frame id began known in
          rw (positive, free)
            (
              frame.others,
              frame.owned,
              frame.ready,
              λ other.
                  ap (λ ops. is_busy (done (length s.operations.leases) ops) other) frame.operations
                  ∙ done-try_operation id other s.operations free,
              λ busy. absurd (ground arith),
            )
    ]
  ]
