-- ===== src/Dedicated/Attach.antt =====
-- internal/driver/dedicated.go, dedicated_firewall.go and checkOwnedRoute of dedicated_state.go: the
-- choice of the uplink, the rules against forged addresses, and what is set up for an instance.
use virtualis_agent.Common.{
  ℕ, ◌%◌, Bool, true, false, ◌&&◌, ◌||◌, not, List, [], ◌∷◌, ◌++◌, Option, none, some, Result, ok,
  err, if◌then◌else◌, ◌==◌, by_option, by_result, length, or_else, is_some,
}
use mathlib.Core.List.{reverse}
use virtualis_agent.Common.Text.{Text, text, is, is_empty, ◌=ₜ◌, trim_space, before, contains}
use virtualis_agent.Protocol.{Instance, NetworkConfig}
use virtualis_agent.Driver.{Host}
use virtualis_agent.Shell.{Shell}
use virtualis_agent.Backend.{Attempt, ◌>>=◌, ◌>>◌, from_result}
use virtualis_agent.Firewall.{Address, Addresses, usable}
use virtualis_agent.Firewall.Script.{mem_text, replace_firewall, restore_owned_table}
use virtualis_agent.Dedicated.{
  DedicatedAttachment, HostAddress, Route, Formats, owned_route_protocol, owned_bridge, owned_nic,
  anti_spoof_chain, host_interface_name,
}

abbrev pub known_mode : Text → Bool
known_mode mode = is_empty mode || is mode "auto" || is mode "routed" || is mode "bridge"

-- m[0]&1 is the last bit of the first byte.
unfoldable pub mac_accepted : Option (List ℕ) → Bool
mac_accepted none = false
mac_accepted (some []) = false
mac_accepted (some (b ∷ bs)) = length (b ∷ bs) == 6 && b % 2 == 0

-- The routed or bridged mode; the others mean the one that fits the uplink.
unfoldable pub chosen_mode : Text → Bool → Text
chosen_mode mode bridge =
    if is_empty mode || is mode "auto" then text (if bridge then "bridge" else "routed") else mode

abbrev skip_quotes : Text → Text
skip_quotes [] = []
skip_quotes (c ∷ s) = if c == b'"' then skip_quotes s else c ∷ s

-- strings.Trim(s, "\"")
unfoldable pub trim_quotes : Text → Text
trim_quotes s = reverse (skip_quotes (reverse (skip_quotes s)))

unfoldable pub is_owned_route : Text → Route → Bool
unfolding trim_quotes
is_owned_route bridge r = r.dev =ₜ bridge && trim_quotes r.protocol =ₜ owned_route_protocol

unfoldable pub all_owned : Text → List Route → Bool
unfolding is_owned_route
all_owned bridge [] = true
all_owned bridge (r ∷ rs) = is_owned_route bridge r && all_owned bridge rs

-- The uplink of that name, or without a name the first physical one that has an address.
unfoldable pub is_uplink : Text → HostAddress → Bool
is_uplink name h =
    mem_text (text "UP") h.flags
    && not (is h.name "lo")
    && (if is_empty name then is_empty h.kind && not (is_empty h.locals) else h.name =ₜ name)

unfoldable pub select_uplink : Text → List HostAddress → Option HostAddress
unfolding is_uplink
select_uplink name [] = none
select_uplink name (h ∷ hs) =
    let rest = select_uplink name hs in if is_uplink name h then some h else rest

module _ (net : Addresses) (formats : Formats) where
  unfoldable pub dedicated_ip : Text → Result (Option Address)
  dedicated_ip ipv4 =
      if contains ipv4 (text "/")
      then by_option (net.parse_cidr ipv4) (err (text "独立 IPv4 CIDR 无效")) (λ a. ok (some a))
      else ok (net.parse_ip (before b'/' ipv4))

  unfoldable pub gateway_accepted : Address → Text → Bool
  gateway_accepted ip gateway =
      is_empty gateway
      || by_option (net.parse_ip gateway) false (λ g. usable g && not (formats.same_ip g ip))

  unfoldable pub all_dns : List Text → Bool
  all_dns [] = true
  all_dns (dns ∷ rest) = is_some (net.parse_ip dns) && all_dns rest

  -- The checks of the request, before the host is asked.
  unfoldable pub requested_ip : NetworkConfig → Result Address
  unfolding dedicated_ip gateway_accepted all_dns mac_accepted
  requested_ip n =
      if not (known_mode (trim_space n.dedicated_mode))
      then err (text "dedicated_mode 仅支持 auto/routed/bridge")
      else by_result (dedicated_ip n.ipv4) (λ e. err e)
          (λ parsed. by_option parsed (err (text "独立模式必须提供有效单播 IPv4")) (λ ip.
            if not (usable ip)
            then err (text "独立模式必须提供有效单播 IPv4")
            else if not (gateway_accepted ip n.gateway)
            then err (text "独立模式网关无效")
            else if not (all_dns (or_else n.dns []))
            then err (text "DNS 地址无效")
            else if not (is_empty n.mac || mac_accepted (formats.parse_mac n.mac))
            then err (text "MAC 地址无效")
            else ok ip))

  unfoldable pub is_local : Address → List Text → Bool
  is_local ip [] = false
  is_local ip (l ∷ ls) =
      by_option (net.parse_ip l) false (λ a. formats.same_ip a ip) || is_local ip ls

  -- An interface of the host has the address itself.
  unfoldable pub is_taken : Address → List HostAddress → Bool
  unfolding is_local
  is_taken ip [] = false
  is_taken ip (h ∷ hs) = is_local ip h.locals || is_taken ip hs

  unfoldable pub attach : NetworkConfig → Address → List HostAddress → Result DedicatedAttachment
  unfolding is_taken select_uplink chosen_mode
  attach n ip hosts =
      if is_taken ip hosts
      then err (text "IPv4 已分配给宿主机，拒绝地址冲突")
      else by_option (select_uplink (trim_space n.bridge) hosts) (err (text "独立模式上联网卡不存在或未启用"))
          (λ h.
            let bridge = is h.kind "bridge" in
            let mode = chosen_mode (trim_space n.dedicated_mode) bridge in
            if not (host_interface_name h.name)
            then err (text "独立模式上联网卡不存在或未启用")
            else if is (trim_space n.dedicated_mode) "bridge" && not bridge
            then err (text "bridge 模式必须挂载已存在的 Linux 网桥")
            else if is mode "bridge" && is_empty n.gateway
            then err (text "bridge 模式必须提供网关")
            else ok (record { uplink = h.name; mode = mode; ip = ip.spelling; bridge = h.name }))

  module _ {W : Type 0} (shell : Shell W) where
    unfoldable pub resolve_dedicated : NetworkConfig → Attempt W DedicatedAttachment
    unfolding requested_ip attach
    resolve_dedicated n = do
      ip ← from_result (requested_ip n)
      out ← shell.output (text "ip" ∷ text "-j" ∷ text "-d" ∷ text "address" ∷ text "show" ∷ [])
      hosts ← from_result (formats.decode_links out)
      from_result (attach n ip hosts)

    -- Both commands are there; the second is looked for only if the first is.
    unfoldable pub tables_available : Host W Bool
    tables_available w =
        let (tables, w1) = shell.available (text "iptables") w in
        if tables then shell.available (text "iptables-restore") w1 else (false, w1)

    unfoldable pub with_tables : {A : Type 0} → Text → Attempt W A → Attempt W A
    unfolding tables_available
    with_tables e m w = let (there, w1) = tables_available w in if there then m w1 else (err e, w1)

    unfoldable pub spoof_match : ℕ → DedicatedAttachment → (qemu : Bool) → Text
    unfolding owned_nic owned_bridge
    spoof_match id a qemu =
        if is a.mode "bridge"
        then text "-m physdev --physdev-in " ++ owned_nic id
        else text "-i " ++ (if qemu && is a.mode "routed" then owned_bridge id else owned_nic id)

    -- Only packets from the instance's own address return from the chain.
    unfoldable pub spoof_body : ℕ → DedicatedAttachment → (qemu : Bool) → List Text
    unfolding spoof_match anti_spoof_chain
    spoof_body id a qemu =
        let chain = anti_spoof_chain id in
        (text "-A " ++ chain ++ text " -s " ++ a.ip ++ text " -j RETURN")
        ∷ (text "-A " ++ chain ++ text " -j DROP")
        ∷ (text "-I PREROUTING 1 " ++ spoof_match id a qemu ++ text " -j " ++ chain)
        ∷ []

    unfoldable pub apply_dedicated_protection :
        Instance → DedicatedAttachment → (qemu : Bool) → Attempt W (Unit {0})
    unfolding with_tables spoof_body
    apply_dedicated_protection i a qemu = with_tables (text "独立网络防伪造需要 iptables/iptables-restore") (
        restore_owned_table net shell (text "raw") (text "PREROUTING") (anti_spoof_chain i.id ∷ [])
          (spoof_body i.id a qemu)
        >> replace_firewall net shell i)
