-- ===== src/Server/Updates.antt =====
-- updateFirewallRules and updateNATMappings of cmd/agent/main.go: the master sends the whole list.
use virtualis_agent.Common.{
  ℕ, Bool, false, List, Option, none, some, Result, ok, err, if◌then◌else◌, ◌==◌, by_result,
}
use virtualis_agent.Common.Text.{Text, text, is}
use virtualis_agent.Protocol.{Instance, NatMapping, FirewallRule}
use virtualis_agent.Driver.{Driver}
use virtualis_agent.Server.{
  Environment, Handler, instance_of, ◌>>=◌, ◌>>◌, pure, modify, get_state, on_host_, call, or_error,
  write, write_error, resolve_driver, store, stored_instance,
}
use virtualis_agent.Server.Leases.{apply_or_clear_nat}
use virtualis_agent.Server.Create.{require}
use virtualis_agent.Server.Configure.{or_text}

-- The identity sent wins over the stored one where it says something; so do three of the fields
-- of the network.
unfoldable pub merged_identity : Option Instance → Instance → Instance
merged_identity none sent = sent
merged_identity (some stored) sent = record stored {
  name = or_text sent.name stored.name;
  driver = or_text sent.driver stored.driver;
  type = or_text sent.type stored.type;
  network = record network {
    mode = or_text sent.network.mode network.mode;
    ipv4 = or_text sent.network.ipv4 network.ipv4;
    mac = or_text sent.network.mac network.mac;
  };
}
  where
    open stored use {network}

abbrev says_running : Result Text → Bool
says_running (ok status) = is status "running"
says_running (err _) = false

module _ {W : Type 0} (env : Environment W) where
  unfoldable pub reconcile_updated : Driver W → Instance → Handler W Instance
  reconcile_updated d i =
      if is i.status "running"
      then (do
        (applied, j) ← call (env.reconcile_firewall d none) i
        _ ← or_error 502 applied
        pure j)
      else pure i

  unfoldable pub update_firewall_rules :
      ℕ → Result (Instance × List FirewallRule) → Handler W (Unit {0})
  unfolding merged_identity reconcile_updated
  update_firewall_rules id payload =
      by_result payload (λ _. write_error 400 (text "invalid payload"))
        (λ (sent, rules). do
          require (sent.id == id) 400 (text "invalid payload")
          s ← get_state
          let i = merged_identity (stored_instance id s) sent
          d ← resolve_driver i.driver
          (stated, j) ←
              call d.status (record i { firewall = rules; firewall_policy = sent.firewall_policy })
          status ← or_error 502 stated
          k ← reconcile_updated d (record j { status = status })
          modify (store id k)
          write 200 (instance_of k))

  -- A guest that is not running, or whose state is not known, has its rules cleared.
  unfoldable pub apply_mappings : Driver W → ℕ → Result Text → Instance → Handler W Instance
  apply_mappings d id stated i =
      if says_running stated
      then apply_or_clear_nat env d false (record i { status = text "running" })
      else (do on_host_ (env.clear_nat_rules id); pure i)

  unfoldable pub update_nat_mappings :
      ℕ → Result (Instance × Option (List NatMapping)) → Handler W (Unit {0})
  unfolding merged_identity apply_mappings
  update_nat_mappings id payload =
      by_result payload (λ _. write_error 400 (text "invalid payload"))
        (λ (sent, mappings). do
          require (sent.id == id) 400 (text "invalid payload")
          s ← get_state
          let i = merged_identity (stored_instance id s) sent
          d ← resolve_driver i.driver
          (stated, j) ← call d.status (record i { nat_mappings = mappings })
          k ← apply_mappings d id stated j
          modify (store id k)
          write 200 (instance_of k))
