-- ===== src/Server/Atomicity.antt =====
-- The requests to the routes of cmd/agent/main.go that are answered with an error.
use virtualis_agent.Common.{ℕ, ◌≤◌, ◌≡◌, false, List, [], ◌∷◌}
use virtualis_agent.Common.Text.{Text}
use virtualis_agent.Server.{AgentServer, Environment, Handler, Response, reply}
use virtualis_agent.Server.Create.{Method, post, delete_}
use virtualis_agent.Server.Routes.{
  Request, auth, under_lease, post_action, not_found, instance_route, vpc_route, handle,
}
use virtualis_agent.Server.Quiet.{view, Quiet, Atomic, Atomic-of_Quiet}
use virtualis_agent.Server.Quiet.Steps.{Atomic-with_lease}
use virtualis_agent.Server.Quiet.Handlers.{
  steps, create_instance-Atomic, delete_instance-Atomic, status_instance-Atomic,
  metrics_instance-Atomic, network_instance-Atomic, vnc_instance-Atomic, set_password-Atomic,
  configure_network_instance-Atomic, update_firewall_rules-Atomic, update_nat_mappings-Atomic,
  resize_instance-Atomic,
}
use virtualis_agent.Server.Quiet.Power.{fills_stored, power_instance-Atomic}
use virtualis_agent.Server.Quiet.Recovery.{
  snapshot_instance-Atomic, export_instance-Atomic, import_instance-Atomic,
}

ruleset handlers = (
  steps, create_instance-Atomic, delete_instance-Atomic, power_instance-Atomic,
  status_instance-Atomic, metrics_instance-Atomic, network_instance-Atomic, vnc_instance-Atomic,
  set_password-Atomic, configure_network_instance-Atomic, update_firewall_rules-Atomic,
  update_nat_mappings-Atomic, resize_instance-Atomic, snapshot_instance-Atomic,
  export_instance-Atomic, import_instance-Atomic,
)

module _ {W : Type 0} (env : Environment W) where
  not_found-Atomic : Atomic (not_found env)
  unfolding not_found
  not_found-Atomic = search steps

  module _ (r : Request) (plain : r.replace ≡ false) (whole : fills_stored r.as_power ≡ false) where
    post_action-Atomic : (l id : ℕ) (action : Text) → Atomic (post_action env l id action r)
    unfolding post_action
    post_action-Atomic l id action = rw plain (search (handlers, not_found-Atomic, whole) depth 20)

    under_lease-Atomic :
        (l id : ℕ) (method : Method) (parts : List Text)
        → Atomic (under_lease env l id method parts r)
    unfolding under_lease
    under_lease-Atomic l id delete_ (p ∷ []) = delete_instance-Atomic env id r.as_instance
    under_lease-Atomic l id post (p ∷ action ∷ []) = post_action-Atomic l id action
    under_lease-Atomic l id post (p ∷ a ∷ b ∷ []) = search (handlers, not_found-Atomic)
    under_lease-Atomic l id _ _ = not_found-Atomic

    module _ (console : ℕ → Request → Handler W (Unit {0}))
        (quiet_console : (id : ℕ) → Quiet (console id r)) where
      instance_route-Atomic : Atomic (instance_route env console r)
      unfolding instance_route
      instance_route-Atomic =
          search (steps, Atomic-with_lease, under_lease-Atomic, quiet_console, Atomic-of_Quiet)
            depth 10

      vpc_route-Atomic : Atomic (vpc_route env r)
      unfolding vpc_route
      vpc_route-Atomic = search (steps, not_found-Atomic) depth 14

      handle-Atomic_at : (token : Text) → Atomic (handle env console token r)
      unfolding handle auth
      handle-Atomic_at token =
          search (steps, create_instance-Atomic, instance_route-Atomic, vpc_route-Atomic) depth 14

-- A request that is answered with an error code, and is neither an import that is to replace an
-- instance nor an action with an uploaded file for an instance that the body leaves out, leaves the instances in memory, the ownership files and the readiness marks as they
-- were. The console's handler is assumed to leave them alone.
pub handle-error_unchanged :
    {W : Type 0} (env : Environment W) (console : ℕ → Request → Handler W (Unit {0})) (token : Text)
    (r : Request) (s : AgentServer W) (answer : Response)
    → r.replace ≡ false
    → fills_stored r.as_power ≡ false
    → ((id : ℕ) → Quiet (console id r))
    → (handle env console token r s).0 ≡ reply answer
    → 400 ≤ answer.code
    → view (handle env console token r s).1 ≡ view s
handle-error_unchanged env console token r s answer plain whole q e h =
    (handle-Atomic_at env r plain whole console q token).at s answer e h
