-- ===== src/Dedicated/Cleanup.antt =====
-- cleanupDedicated of internal/driver/dedicated_state.go and the reconciliation of
-- dedicated_reconcile.go. `ensure` of the reconciliation is ensureNetwork of qemu.go, or
-- ensureDedicatedProtection.
use virtualis_agent.Common.{ℕ, ◌&&◌, ◌||◌, not, List, [], ◌∷◌, ◌++◌, if◌then◌else◌, by_option}
use virtualis_agent.Common.Text.{Text, text, is, is_empty, fold}
use virtualis_agent.Protocol.{Instance}
use virtualis_agent.Shell.{Shell}
use virtualis_agent.Backend.{Attempt, ◌>>=◌, ◌>>◌, succeed, unless}
use virtualis_agent.Firewall.{Addresses}
use virtualis_agent.Firewall.Script.{restore_owned_table}
use virtualis_agent.Dedicated.{
  DedicatedRecord, DedicatedAttachment, Formats, owned_route_protocol, owned_bridge,
  anti_spoof_chain,
}
use virtualis_agent.Dedicated.Records.{Records, load_dedicated_record, record_name}
use virtualis_agent.Dedicated.Attach.{with_tables}
use virtualis_agent.Dedicated.Ensure.{ip_cmd, or_absent, links_named, first_owned, run_all}

-- hostnet.go
unfoldable pub normalize_network_mode : Text → Text
normalize_network_mode mode =
    let m = fold mode in
    if is_empty m || is m "nat"
    then text "nat"
    else if is m "bridge" || is m "dedicated"
    then text "dedicated"
    else if is m "none"
    then text "none"
    else if is m "vpc"
    then text "vpc"
    else text "nat"

unfoldable pub cleanup_commands : ℕ → DedicatedAttachment → List (List Text)
unfolding owned_bridge
cleanup_commands id a =
    ip_cmd (
      text "route"
      ∷ text "del"
      ∷ (a.ip ++ text "/32")
      ∷ text "dev"
      ∷ owned_bridge id
      ∷ text "proto"
      ∷ owned_route_protocol
      ∷ [])
    ∷ ip_cmd (text "neigh" ∷ text "del" ∷ text "proxy" ∷ a.ip ∷ text "dev" ∷ a.uplink ∷ [])
    ∷ ip_cmd (text "link" ∷ text "delete" ∷ text "dev" ∷ owned_bridge id ∷ [])
    ∷ []

module _ (net : Addresses) (formats : Formats) {W : Type 0} (shell : Shell W) where
  unfoldable pub clear_dedicated_protection : ℕ → Attempt W (Unit {0})
  unfolding with_tables anti_spoof_chain
  clear_dedicated_protection id =
      let chain = anti_spoof_chain id in
      with_tables net formats shell (text "无法验证防伪造规则清理：iptables 不可用") (
        restore_owned_table net shell (text "raw") (text "PREROUTING") (chain ∷ [])
          ((text "-X " ++ chain) ∷ []))

  -- The bridge and what leads to it, if the bridge is the instance's own.
  unfoldable pub remove_routed : ℕ → DedicatedAttachment → Attempt W (Unit {0})
  unfolding links_named first_owned run_all or_absent cleanup_commands
  remove_routed id a = do
    links ← links_named net formats shell (owned_bridge id)
    unless (first_owned id links) (text "清理被拒绝：接口不属于实例")
    run_all (λ args. or_absent tt (shell.run args)) (cleanup_commands id a)

  module _ (records : Records W) where
    unfoldable pub cleanup_recorded : ℕ → DedicatedRecord → Attempt W (Unit {0})
    unfolding remove_routed clear_dedicated_protection record_name
    cleanup_recorded id r = do
      (if is r.driver "qemu" && is r.attachment.mode "routed"
          then remove_routed id r.attachment
          else succeed tt)
      clear_dedicated_protection id
      records.remove (record_name id)

    unfoldable pub cleanup_dedicated : ℕ → Attempt W (Unit {0})
    unfolding load_dedicated_record cleanup_recorded
    cleanup_dedicated id = do
      found ← load_dedicated_record formats records id
      by_option found (succeed tt) (cleanup_recorded id)

    unfoldable pub reconcile_network_resources :
        (Instance → Attempt W (Unit {0})) → Instance → Attempt W (Unit {0})
    unfolding cleanup_dedicated normalize_network_mode
    reconcile_network_resources ensure i =
        if not (is i.status "running")
        then cleanup_dedicated i.id
        else if is (normalize_network_mode i.network.mode) "dedicated"
        then ensure i
        else succeed tt
