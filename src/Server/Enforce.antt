-- ===== src/Server/Enforce.antt =====
-- cmd/agent/traffic_enforce.go: an instance that has used up its quota of traffic is cut off from
-- the network, and connected again when it has quota. A `return` is the end with `go tt`.
pub mod Frame
pub mod Laws
use virtualis_agent.Common.{
  ℕ, Bool, true, false, ◌&&◌, ◌||◌, not, List, [], ◌∷◌, Option, none, some, Result, ok, err,
  if◌then◌else◌, ◌==◌, by_option, by_result, is_some, map,
}
use virtualis_agent.Common.Int.{ℤ, pos, leb_ℤ, ltb_ℤ}
use virtualis_agent.Common.Text.{text, is, fold}
use virtualis_agent.Common.Map.{lookup, eq_ℕ}
use virtualis_agent.Protocol.{Instance, NetworkConfig, Metrics}
use virtualis_agent.Operations.{try_operation, done}
use virtualis_agent.Driver.{Driver, Host, TrafficStore}
use virtualis_agent.Driver.Registry.{get}
use virtualis_agent.Server.{
  AgentServer, Environment, Handler, ◌>>=◌, ◌>>◌, pure, when, get_state, modify, on_host, on_host_,
  call, store, stored_instance,
}
use virtualis_agent.Server.Leases.{apply_firewall_if_running}

-- What the traffic file says, with the quota that counts.
pub record Marks : Type 0 where
  pub disconnected : Bool
  pub original : Option NetworkConfig
  pub quota : ℤ

abbrev pub is_none : Instance → Bool
is_none i = is (fold i.network.mode) "none"

unfoldable pub effective_quota : (quota file_quota : ℤ) → Option NetworkConfig → ℤ
effective_quota quota file_quota original =
    let q = if ltb_ℤ quota file_quota then file_quota else quota in
    by_option original q
      (λ n. if leb_ℤ q (pos 0) && ltb_ℤ (pos 0) n.traffic_gb then n.traffic_gb else q)

-- The network to go back to, with the larger quota.
unfoldable pub restored_network : ℤ → NetworkConfig → NetworkConfig
restored_network quota n = record n {
  traffic_gb = if ltb_ℤ n.traffic_gb quota then quota else n.traffic_gb;
}

unfoldable pub cut_off : Instance → Instance
cut_off i = record i { network = record i.network { mode = text "none" }; observed_ip = [] }

module _ {W : Type 0} where
  unfoldable pub is_traffic_disconnected : AgentServer W → ℕ → Bool
  is_traffic_disconnected s id = by_option (lookup id s.instances) false is_none

  abbrev note_disconnected : Option (TrafficStore W) → Instance → ℕ → ℤ → W → W
  note_disconnected none i used quota w = w
  note_disconnected (some ts) i used quota w =
      ts.mark_traffic_disconnected i.id i.network used quota w

  -- A failure is tried again in the next round.
  unfoldable pub disconnect_on_quota :
      Driver W → Option (TrafficStore W) → Instance → ℕ → ℤ → Handler W (Unit {0})
  unfolding cut_off
  disconnect_on_quota d ts stored used quota = do
    (configured, i) ← call d.configure_network (cut_off stored)
    by_result configured (λ _. pure tt)
        (λ _. do on_host_ (note_disconnected ts stored used quota); modify (store stored.id i))

  module _ (env : Environment W) where
    unfoldable pub reconnect_after_quota :
        Driver W → TrafficStore W → Instance → NetworkConfig → Handler W (Unit {0})
    unfolding apply_firewall_if_running
    reconnect_after_quota d ts stored original = do
      (configured, i) ← call d.configure_network (record stored { network = original })
      by_result configured (λ _. pure tt)
          (λ _. do
            j ← apply_firewall_if_running env d i
            on_host_ (ts.mark_traffic_reconnected stored.id)
            modify (store stored.id j))

    -- With quota left.
    unfoldable pub allow : Driver W → TrafficStore W → Instance → Marks → Handler W (Unit {0})
    unfolding reconnect_after_quota restored_network
    allow d ts stored marks =
        if marks.disconnected
        then (by_option (if is_none stored then marks.original else none)
            (on_host_ (ts.mark_traffic_reconnected stored.id))
            (λ original. reconnect_after_quota d ts stored (restored_network marks.quota original)))
        else pure tt

    unfoldable pub enforce_marks :
        Driver W → TrafficStore W → Instance → Metrics → Marks → Handler W (Unit {0})
    unfolding allow disconnect_on_quota
    enforce_marks d ts stored metrics marks =
        if not metrics.traffic_quota_exceeded
        then allow d ts stored marks
        else if is_none stored || marks.disconnected
        then pure tt
        else disconnect_on_quota d (some ts) stored metrics.traffic_used_bytes marks.quota

    -- A driver without traffic files neither remembers nor reconnects.
    unfoldable pub enforce_unmarked : Driver W → Instance → Metrics → Handler W (Unit {0})
    unfolding disconnect_on_quota
    enforce_unmarked d stored metrics =
        if metrics.traffic_quota_exceeded && not (is_none stored)
        then disconnect_on_quota d none stored metrics.traffic_used_bytes stored.network.traffic_gb
        else pure tt

    unfoldable pub enforce_marked :
        Driver W → Instance → Metrics → TrafficStore W → Handler W (Unit {0})
    unfolding enforce_marks effective_quota
    enforce_marked d stored metrics ts = do
      (disconnected, original, _, file_quota) ← on_host (ts.traffic_state_of stored.id)
      enforce_marks d ts stored metrics (record {
        disconnected = disconnected;
        original = original;
        quota = effective_quota stored.network.traffic_gb file_quota original;
      })

    unfoldable pub enforce_metrics : Driver W → Instance → Metrics → Handler W (Unit {0})
    unfolding enforce_unmarked enforce_marked
    enforce_metrics d stored metrics =
        by_option d.traffic (enforce_unmarked d stored metrics)
          (λ ts. enforce_marked d stored metrics ts)

    -- The metrics are read with a copy of the instance.
    unfoldable pub enforce_stored : ℕ → Instance → Handler W (Unit {0})
    unfolding enforce_metrics is_traffic_disconnected
    enforce_stored id stored = do
      s ← get_state
      if leb_ℤ stored.network.traffic_gb (pos 0) && not (is_traffic_disconnected s id)
          then pure tt
          else by_option (get stored.driver s.registry) (pure tt) (λ d. do
            (measured, _) ← call d.metrics stored
            by_result measured (λ _. pure tt) (λ metrics. enforce_metrics d stored metrics))

    unfoldable pub enforce_under_lease : ℕ → Handler W (Unit {0})
    unfolding enforce_stored stored_instance
    enforce_under_lease id = do
      s ← get_state
      by_option (stored_instance id s) (pure tt) (λ stored. enforce_stored id stored)

    -- An instance that is busy is left for the next round.
    unfoldable pub enforce_instance_quota : ℕ → Handler W (Unit {0})
    unfolding enforce_under_lease pure
    enforce_instance_quota id s =
        let (lease, operations) = try_operation id s.operations in
        if id == 0 then pure tt s else elim lease [
          | none ↦ pure tt s
          | some l ↦
              let (flow, t) = enforce_under_lease id (record s { operations = operations }) in
              (flow, record t { operations = done l t.operations })
        ]

    -- `cancelled` tells whether the context has ended.
    unfoldable pub enforce_each : Host W Bool → List ℕ → Handler W (Unit {0})
    unfolding enforce_instance_quota
    enforce_each cancelled [] = pure tt
    enforce_each cancelled (id ∷ ids) = do
      over ← on_host cancelled
      if over then pure tt else (do enforce_instance_quota id; enforce_each cancelled ids)

    -- The ids are those of the instances as the round begins. Only one round runs at a time:
    -- `enforcing` is set by the round that runs.
    unfoldable pub enforce_traffic_quotas : Host W Bool → Bool → Handler W (Unit {0})
    unfolding enforce_each
    enforce_traffic_quotas cancelled enforcing =
        if enforcing
        then pure tt
        else (do s ← get_state; enforce_each cancelled (map (λ e. e.1.id) s.instances))
