-- ===== src/Server/Quiet/Handlers.antt =====
-- Each handler of cmd/agent leaves the store alone where it answers with an error.
use virtualis_agent.Common.{ℕ, refl, Bool, List, Option, Result, arith}
use virtualis_agent.Common.Map.{insert, eq_ℕ}
use virtualis_agent.Common.Text.{Text}
use virtualis_agent.Protocol.{Instance, FirewallRule, NatMapping, Metrics, NetworkStatus}
use virtualis_agent.Driver.{Driver}
use virtualis_agent.Server.{Environment, Body, modify, write}
use virtualis_agent.Server.Create.{
  Parsed, Method, create_instance, create_under_lease, create_absent, register_created,
  delete_instance, delete_owned,
}
use virtualis_agent.Server.Queries.{
  status_instance, metrics_instance, network_instance, vnc_instance, set_password,
  add_bandwidth_sample,
}
use virtualis_agent.Server.Configure.{
  ConfigureRequest, configure_network_instance, configure_nat, configure_password, configure_rules,
}
use virtualis_agent.Server.Updates.{
  update_firewall_rules, update_nat_mappings, apply_mappings, reconcile_updated,
}
use virtualis_agent.Server.Resize.{ResizeRequest, resize_instance}
use virtualis_agent.Server.Quiet.{
  Quiet, Atomic, quiet, atomic, Quiet-pure, Quiet-modify, Atomic-modify,
}
use virtualis_agent.Server.Quiet.Succeeds.{
  Succeeds, succeeds, Succeeds-write, Atomic-commit, Atomic-of_Succeeds,
  save_owned_instance-Commits,
}
use virtualis_agent.Server.Quiet.Steps.{quiet_steps, Atomic-with_lease, Atomic-modify_200}

module _ {W : Type 0} where
  pub Succeeds-write_200 : (body : Body) → Succeeds {W = W} {A = Unit {0}} (write 200 body)
  Succeeds-write_200 body = Succeeds-write 200 body (omega arith)

  pub Succeeds-write_204 : (body : Body) → Succeeds {W = W} {A = Unit {0}} (write 204 body)
  Succeeds-write_204 body = Succeeds-write 204 body (omega arith)

pub ruleset steps = (atomic, quiet_steps, Atomic-modify_200)

pub ruleset successes = (succeeds, Succeeds-write_200, Succeeds-write_204)

module _ {W : Type 0} (env : Environment W) where
  register_created-Succeeds :
      (d : Driver W) (l : ℕ) (i : Instance) → Succeeds (register_created env d l i)
  unfolding register_created
  register_created-Succeeds d l i = search successes depth 12

  create_under_lease-Atomic : (p : Parsed) (l : ℕ) → Atomic (create_under_lease env p l)
  unfolding create_under_lease create_absent
  create_under_lease-Atomic p l =
      search (steps, Atomic-commit, save_owned_instance-Commits, register_created-Succeeds) depth 14

  pub create_instance-Atomic :
      (method : Method) (parsed : Result Parsed) → Atomic (create_instance env method parsed)
  unfolding create_instance
  create_instance-Atomic method parsed =
      search (steps, Atomic-with_lease, create_under_lease-Atomic) depth 12

  pub delete_instance-Atomic :
      (id : ℕ) (payload : Result Instance) → Atomic (delete_instance env id payload)
  unfolding delete_instance delete_owned
  delete_instance-Atomic id payload = search (steps, Atomic-of_Succeeds, successes) depth 14

  pub status_instance-Atomic :
      (id : ℕ) (payload : Result Instance) → Atomic (status_instance env id payload)
  unfolding status_instance
  status_instance-Atomic id payload = search steps depth 14

  sampled :
      (id : ℕ) (m : Metrics)
      → Quiet {W = W} (modify λ t. record t { metrics = insert id m t.metrics })
  sampled id m = Quiet-modify _ (λ s. refl)

  Quiet-add_bandwidth_sample : (id : ℕ) (m : Metrics) → Quiet (add_bandwidth_sample env id m)
  unfolding add_bandwidth_sample
  Quiet-add_bandwidth_sample id m = search (quiet, sampled) depth 9

  pub network_instance-Atomic :
      (id : ℕ) (payload : Result Instance) → Atomic (network_instance env id payload)
  unfolding network_instance
  network_instance-Atomic id payload = search steps depth 20

  pub vnc_instance-Atomic :
      (id : ℕ) (host : Text) (payload : Result Instance) → Atomic (vnc_instance env id host payload)
  unfolding vnc_instance
  vnc_instance-Atomic id host payload = search steps depth 12

  pub metrics_instance-Atomic :
      (id : ℕ) (payload : Result Instance) → Atomic (metrics_instance env id payload)
  unfolding metrics_instance
  metrics_instance-Atomic id payload = search (steps, Quiet-add_bandwidth_sample) depth 14

  pub set_password-Atomic :
      (id : ℕ) (payload : Result (Instance × Text)) → Atomic (set_password env id payload)
  unfolding set_password
  set_password-Atomic id payload = search steps depth 14

  Quiet-configure_nat :
      (d : Driver W) (id : ℕ) (status ip : Text) (network : NetworkStatus) (i : Instance)
      → Quiet (configure_nat env d id status ip network i)
  unfolding configure_nat
  Quiet-configure_nat d id status ip network i = search (quiet_steps) depth 12

  Quiet-configure_password :
      (d : Driver W) (password status : Text) (i : Instance)
      → Quiet (configure_password env d password status i)
  unfolding configure_password
  Quiet-configure_password d password status i = search (quiet_steps) depth 12

  configure_rules-Atomic :
      (d : Driver W) (id : ℕ) (password : Text) (done : Bool) (status : Text) (i : Instance)
      → Atomic (configure_rules env d id password done status i)
  unfolding configure_rules
  configure_rules-Atomic d id password done status i = search (steps, Quiet-configure_nat) depth 16

  pub configure_network_instance-Atomic :
      (id : ℕ) (payload : Result ConfigureRequest)
      → Atomic (configure_network_instance env id payload)
  unfolding configure_network_instance
  configure_network_instance-Atomic id payload =
      search (steps, Quiet-configure_password, configure_rules-Atomic) depth 20

  Quiet-reconcile_updated : (d : Driver W) (i : Instance) → Quiet (reconcile_updated env d i)
  unfolding reconcile_updated
  Quiet-reconcile_updated d i = search quiet_steps depth 9

  pub update_firewall_rules-Atomic :
      (id : ℕ) (payload : Result (Instance × List FirewallRule))
      → Atomic (update_firewall_rules env id payload)
  unfolding update_firewall_rules
  update_firewall_rules-Atomic id payload = search (steps, Quiet-reconcile_updated) depth 16

  Quiet-apply_mappings :
      (d : Driver W) (id : ℕ) (stated : Result Text) (i : Instance)
      → Quiet (apply_mappings env d id stated i)
  unfolding apply_mappings
  Quiet-apply_mappings d id stated i = search quiet_steps depth 9

  pub update_nat_mappings-Atomic :
      (id : ℕ) (payload : Result (Instance × Option (List NatMapping)))
      → Atomic (update_nat_mappings env id payload)
  unfolding update_nat_mappings
  update_nat_mappings-Atomic id payload = search (steps, Quiet-apply_mappings) depth 16

module _ {W : Type 0} where
  pub resize_instance-Atomic :
      (id : ℕ) (payload : Result ResizeRequest) → Atomic {W = W} (resize_instance id payload)
  unfolding resize_instance
  resize_instance-Atomic id payload = search steps depth 18
