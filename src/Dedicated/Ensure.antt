-- ===== src/Dedicated/Ensure.antt =====
-- What internal/driver/dedicated.go and dedicated_reconcile.go set up on the host for an instance with
-- an address of its own. A call holds the mutex of these resources throughout.
use virtualis_agent.Common.{
  ℕ, Bool, true, false, List, [], ◌∷◌, ◌++◌, Result, ok, err, if◌then◌else◌, by_result,
}
use virtualis_agent.Common.Text.{Text, text, is, is_empty, trim_space}
use virtualis_agent.Protocol.{Instance}
use virtualis_agent.Shell.{Shell}
use virtualis_agent.Backend.{Attempt, ◌>>=◌, ◌>>◌, succeed, from_result, unless}
use virtualis_agent.Firewall.{Addresses, validate_firewall}
use virtualis_agent.Dedicated.{
  DedicatedAttachment, HostAddress, Formats, routed_gateway, owned_route_protocol, owned_bridge,
  dedicated_owner, absent_network_error, is_owned_link,
}
use virtualis_agent.Dedicated.Records.{Records, save_dedicated_record}
use virtualis_agent.Dedicated.Attach.{resolve_dedicated, apply_dedicated_protection, all_owned}

abbrev pub ip_cmd : List Text → List Text
ip_cmd args = text "ip" ∷ args

-- The absence of a network object counts as no error.
unfoldable pub or_absent : {W : Type 0} → {A : Type 0} → A → Attempt W A → Attempt W A
unfolding absent_network_error
or_absent a m w =
    let (r, w1) = m w in
    by_result r (λ e. (if absent_network_error e then ok a else err e, w1)) (λ x. (ok x, w1))

-- The first interface that is listed is the instance's own.
unfoldable pub first_owned : ℕ → List HostAddress → Bool
unfolding is_owned_link
first_owned id [] = true
first_owned id (l ∷ ls) = is_owned_link id l

module _ {W : Type 0} where
  unfoldable pub run_all :
      (List Text → Attempt W (Unit {0})) → List (List Text) → Attempt W (Unit {0})
  run_all run [] = succeed tt
  run_all run (args ∷ rest) = run args >> run_all run rest

-- The commands that make the bridge and those that lead the address to it.
unfoldable pub bridge_commands : ℕ → List (List Text)
unfolding owned_bridge dedicated_owner
bridge_commands id =
    ip_cmd
      (text "link" ∷ text "add" ∷ text "name" ∷ owned_bridge id ∷ text "type" ∷ text "bridge" ∷ [])
    ∷ ip_cmd (
        text "link"
        ∷ text "set"
        ∷ text "dev"
        ∷ owned_bridge id
        ∷ text "alias"
        ∷ dedicated_owner id
        ∷ [])
    ∷ []

unfoldable pub route_commands : ℕ → DedicatedAttachment → List (List Text)
unfolding owned_bridge
route_commands id a =
    ip_cmd (
      text "address"
      ∷ text "replace"
      ∷ (routed_gateway ++ text "/32")
      ∷ text "dev"
      ∷ owned_bridge id
      ∷ [])
    ∷ ip_cmd (text "link" ∷ text "set" ∷ text "dev" ∷ owned_bridge id ∷ text "up" ∷ [])
    ∷ ip_cmd (
        text "route"
        ∷ text "replace"
        ∷ (a.ip ++ text "/32")
        ∷ text "dev"
        ∷ owned_bridge id
        ∷ text "proto"
        ∷ owned_route_protocol
        ∷ [])
    ∷ ip_cmd (text "neigh" ∷ text "replace" ∷ text "proxy" ∷ a.ip ∷ text "dev" ∷ a.uplink ∷ [])
    ∷ []

unfoldable pub link_query : Text → List Text
link_query bridge = ip_cmd (text "-j" ∷ text "link" ∷ text "show" ∷ text "dev" ∷ bridge ∷ [])

unfoldable pub route_query : Text → List Text
route_query ip =
    ip_cmd (text "-j" ∷ text "route" ∷ text "show" ∷ text "exact" ∷ (ip ++ text "/32") ∷ [])

unfoldable pub links_in : Formats → Result Text → Result (List HostAddress)
links_in formats (ok out) = formats.decode_links out
links_in formats (err e) = if absent_network_error e then ok [] else err e

module _ (net : Addresses) (formats : Formats) {W : Type 0} (shell : Shell W) where
  unfoldable pub require_sysctl : Text → Attempt W (Unit {0})
  require_sysctl key w =
      let (r, w1) = shell.output (text "sysctl" ∷ text "-n" ∷ key ∷ []) w in
      let unmet = text "网络前置条件未满足: " ++ key in
      by_result r (λ e. (err unmet, w1))
        (λ out. (if is (trim_space out) "1" then ok tt else err unmet, w1))

  unfoldable pub ensure_bridge_filtering : Attempt W (Unit {0})
  unfolding require_sysctl
  ensure_bridge_filtering =
      let key = text "net.bridge.bridge-nf-call-iptables" in
      shell.run (text "modprobe" ∷ text "br_netfilter" ∷ [])
      >> (shell.run (text "sysctl" ∷ text "-w" ∷ (key ++ text "=1") ∷ []) >> require_sysctl key)

  unfoldable pub check_owned_route : (ip bridge : Text) → Attempt W (Unit {0})
  unfolding all_owned route_query
  check_owned_route ip bridge = do
    out ← shell.output (route_query ip)
    routes ← from_result (formats.decode_routes out)
    unless (all_owned bridge routes) (text "IPv4 已存在非本实例的路由，拒绝覆盖")

  -- The interface of that name, none if the host has none.
  unfoldable pub links_named : Text → Attempt W (List HostAddress)
  unfolding links_in link_query
  links_named bridge w =
      let (answer, w1) = shell.output (link_query bridge) w in (links_in formats answer, w1)

  module _ (records : Records W) where
    unfoldable pub record_and_protect :
        Text → Instance → DedicatedAttachment → (qemu : Bool) → Attempt W (Unit {0})
    unfolding save_dedicated_record apply_dedicated_protection
    record_and_protect driver i a qemu =
        save_dedicated_record formats records
          (record { id = i.id; driver = driver; attachment = a; network = i.network })
        >> apply_dedicated_protection net formats shell i a qemu

    unfoldable pub ensure_routed : Instance → DedicatedAttachment → Attempt W (Unit {0})
    unfolding require_sysctl check_owned_route links_named first_owned record_and_protect run_all
        bridge_commands route_commands
    ensure_routed i a = do
      require_sysctl (text "net.ipv4.ip_forward")
      require_sysctl (text "net.ipv4.conf." ++ a.uplink ++ text ".proxy_arp")
      check_owned_route a.ip (owned_bridge i.id)
      links ← links_named (owned_bridge i.id)
      unless (first_owned i.id links) (text "拒绝修改非本实例拥有的接口")
      from_result (validate_firewall net i)
      record_and_protect (text "qemu") i a true
      run_all shell.run (if is_empty links then bridge_commands i.id else [])
      run_all shell.run (route_commands i.id a)

    unfoldable pub ensure_qemu_dedicated : Instance → Attempt W (Unit {0})
    unfolding resolve_dedicated ensure_bridge_filtering record_and_protect ensure_routed
    ensure_qemu_dedicated i = do
      a ← resolve_dedicated net formats shell i.network
      (if is a.mode "bridge"
          then ensure_bridge_filtering >> record_and_protect (text "qemu") i a true
          else ensure_routed i a)

    -- The method of Incus, whose network devices are the daemon's.
    unfoldable pub ensure_dedicated_protection : Instance → Attempt W (Unit {0})
    unfolding resolve_dedicated ensure_bridge_filtering record_and_protect
    ensure_dedicated_protection i = do
      a ← resolve_dedicated net formats shell i.network
      from_result (validate_firewall net i)
      (if is a.mode "bridge" then ensure_bridge_filtering else succeed tt)
      record_and_protect (text "incus") i a false
