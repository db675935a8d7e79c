-- ===== src/Server/Configure.antt =====
-- configureNetworkInstance of cmd/agent/main.go: the network, the password, the rules, each stage
-- with its own error.
use virtualis_agent.Common.{
  ℕ, Bool, true, false, ◌&&◌, ◌||◌, not, List, [], ◌∷◌, Option, none, some, Result, ok, err,
  is_some, if◌then◌else◌, ◌==◌, by_result,
}
use virtualis_agent.Common.Text.{Text, text, is, is_empty, before}
use virtualis_agent.Protocol.{Instance, NetworkConfig, NetworkStatus, NetworkInterface}
use virtualis_agent.Driver.{Driver}
use virtualis_agent.Server.{
  Environment, Handler, configured, not_configured, ◌>>=◌, ◌>>◌, pure, modify, get_state, on_host,
  on_host_, call, write, write_error, store, stored_instance,
}
use virtualis_agent.Driver.Registry.{resolve}
use virtualis_agent.Server.Ownership.{without_password}
use virtualis_agent.Server.Create.{require}

pub record ConfigureRequest : Type 0 where
  pub instance_ : Instance
  pub network : NetworkConfig
  pub password : Text

first_ip : (Text → Bool) → List Text → Text
first_ip is_ip [] = []
first_ip is_ip (address ∷ rest) =
    if is_ip (before b'/' address) then before b'/' address else first_ip is_ip rest

-- The first address of an interface but `lo`, as net.ParseIP accepts it.
unfoldable pub first_network_ipv4 : (Text → Bool) → List NetworkInterface → Text
unfolding first_ip
first_network_ipv4 is_ip [] = []
first_network_ipv4 is_ip (i ∷ rest) =
    let found = first_ip is_ip i.ipv4 in
    if is i.name "lo" || is_empty found then first_network_ipv4 is_ip rest else found

abbrev pub or_text : Text → Text → Text
or_text [] other = other
or_text (c ∷ s) other = c ∷ s

-- A network given beside the instance replaces the instance's own.
unfoldable pub with_network : NetworkConfig → Instance → Instance
with_network network i = if is_empty network.mode then i else record i { network = network }

-- The stored copy fills what the request leaves open.
unfoldable pub filled_from : Option Instance → Instance → Instance
filled_from none i = i
filled_from (some stored) i = record i {
  name = or_text i.name stored.name;
  driver = or_text i.driver stored.driver;
  type = or_text i.type stored.type;
  nat_mappings = if is_some i.nat_mappings then i.nat_mappings else stored.nat_mappings;
  network = if is_empty i.network.mode then stored.network else i.network;
}

abbrev pub no_status : NetworkStatus
no_status = record { reachable = false; interfaces = []; error = [] }

module _ {W : Type 0} where
  -- writeConfigureError for the error of a stage.
  abbrev pub stage :
      {A : Type 0} → Text → (status ip : Text) → NetworkStatus → Result A → Handler W A
  stage step status ip network (ok a) = pure a
  stage step status ip network (err e) = write 502 (not_configured step e status ip network)

  module _ (env : Environment W) where
    -- The number of mappings applied; a guest that is not running has its rules cleared.
    unfoldable pub configure_nat :
        Driver W → ℕ → Text → Text → NetworkStatus → Instance → Handler W (ℕ × Instance)
    configure_nat d id status ip network i =
        if is status "running"
        then (do
          (applied, j) ← call (env.apply_nat_rules d 5 3) i
          count ← stage (text "nat") status ip network applied
          pure (count, j))
        else (do on_host_ (env.clear_nat_rules id); pure (0, i))

    unfoldable pub configure_password :
        Driver W → Text → Text → Instance → Handler W (Bool × Instance)
    configure_password d password status i =
        if not (is_empty password) && not (is d.name "qemu")
        then (do
          (set, j) ← call (d.set_root_password password) i
          _ ← stage (text "ssh") status [] no_status set
          pure (true, j))
        else pure (false, i)

    -- From the runtime network to the answer.
    unfoldable pub configure_rules :
        Driver W → ℕ → Text → Bool → Text → Instance → Handler W (Unit {0})
    unfolding first_network_ipv4 configure_nat
    configure_rules d id password done status i = do
      (seen, j) ← call d.network i
      network ← stage (text "network") status [] no_status seen
      let ip = first_network_ipv4 env.is_ip network.interfaces
      _ ←
          stage (text "network") status [] network
            (if is status "running" && is_empty ip then err (text "实例运行中但未获取到全局 IPv4") else ok tt)
      (count, k) ← configure_nat d id status ip network j
      (applied, m) ← call (env.reconcile_firewall d (some network)) (record k { observed_ip = [] })
      _ ← stage (text "firewall") status ip network applied
      modify (store id (without_password m))
      write 200 (
          configured (without_password m) status ip network done
            (is_empty password || is d.name "qemu" || done) count)

    unfoldable pub configure_network_instance : ℕ → Result ConfigureRequest → Handler W (Unit {0})
    unfolding with_network filled_from configure_password configure_rules
    configure_network_instance id payload =
        by_result payload (λ _. write_error 400 (text "invalid payload"))
          (λ p. do
            require (p.instance_.id == id) 400 (text "instance id mismatch")
            s ← get_state
            let i = filled_from (stored_instance id s) (with_network p.network p.instance_)
            require (not (is_empty i.name || is_empty i.driver)) 400
                (text "instance identity incomplete")
            found ← on_host (resolve i.driver s.registry)
            d ← stage (text "driver") i.status [] no_status found
            (set, j) ← call d.configure_network i
            _ ← stage (text "configure") j.status [] no_status set
            (stated, k) ← call d.status j
            status ← stage (text "status") k.status [] no_status stated
            (done, m) ←
                configure_password d p.password status
                  (record k { driver = d.name; status = status })
            configure_rules d id p.password done status m)
