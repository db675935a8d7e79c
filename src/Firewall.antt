-- ===== src/Firewall.antt =====
-- internal/driver/firewall.go and firewall_atomic.go: the rules of an instance as lines for
-- iptables, and their replacement in one transaction. `Addresses` stands for the package net.
pub mod Script
pub mod Promise
pub mod Lines
pub mod Verdict
pub mod Transaction
pub mod Clear
pub mod Observed
pub mod Precedence
pub mod Observation
use virtualis_agent.Common.{
  ℕ, ◌+◌, Bool, true, false, ◌&&◌, ◌||◌, not, List, [], ◌∷◌, ◌++◌, map, Option, none, some, Result,
  ok, err, is_some, if◌then◌else◌, ◌==◌, ltb, leb, length, take, drop, by_option,
}
use virtualis_agent.Common.Int.{ℤ, pos, ltb_ℤ, leb_ℤ, eqb_ℤ}
use virtualis_agent.Common.Sorting.{sort_by, filter}
use virtualis_agent.Common.Text.{
  Text, text, fold, is, is_empty, trim_space, before, decimal, itoa, contains,
}
use virtualis_agent.Protocol.{Instance, FirewallRule, FirewallPolicy}

-- What the code asks of an address that was read.
pub record Address : Type 0 where
  pub v4 : Bool
  pub global_unicast : Bool
  pub loopback : Bool
  pub link_local : Bool
  pub spelling : Text

pub record Addresses : Type 0 where
  pub parse_ip : Text → Option Address
  pub parse_cidr : Text → Option Address

abbrev pub usable : Address → Bool
usable a = a.v4 && a.global_unicast && not a.loopback && not a.link_local

unfoldable pub firewall_chain_name : ℕ → Text
firewall_chain_name id = text "VIRTIS-FW-" ++ decimal id

abbrev pub is_out : FirewallRule → Bool
is_out r = is (fold r.direction) "out"

-- The port or the range of ports.
unfoldable pub port_conditions : FirewallRule → List Text
port_conditions r =
    let end =
      if ltb_ℤ r.port_end r.port_start || ltb_ℤ (pos 65535) r.port_end
      then r.port_start
      else r.port_end in
    if ltb_ℤ (pos 0) r.port_start && leb_ℤ r.port_start (pos 65535)
    then text "--dport"
      ∷ (if ltb_ℤ r.port_start end then itoa r.port_start ++ b':' ∷ itoa end else itoa r.port_start)
      ∷ []
    else []

unfoldable pub protocol_conditions : FirewallRule → Option (List Text)
unfolding port_conditions
protocol_conditions r =
    let p = fold r.protocol in
    if is p "tcp" || is p "udp"
    then some (text "-p" ∷ p ∷ port_conditions r)
    else if is p "icmp"
    then some (text "-p" ∷ text "icmp" ∷ [])
    else if is_empty p || is p "any" || is p "all"
    then some []
    else none

-- One line of a chain: its conditions and its target.
abbrev pub render : Text → List Text × Text → List Text
render chain (conditions, target) = text "-A" ∷ chain ∷ conditions ++ text "-j" ∷ target ∷ []

module _ (net : Addresses) where
  unfoldable pub guest_firewall_ip : Instance → Text
  guest_firewall_ip i =
      let declared = trim_space i.network.ipv4 in
      if not (is_empty declared)
      then before b'/' declared
      else by_option (net.parse_ip i.observed_ip) [] (λ a. if usable a then a.spelling else [])

  unfoldable pub cidr_conditions : FirewallRule → Option (List Text)
  cidr_conditions r =
      let cidr = trim_space r.cidr in
      if is_empty cidr
      then some []
      else if is_some (net.parse_cidr cidr) || is_some (net.parse_ip cidr)
      then some (text (if is_out r then "-d" else "-s") ∷ cidr ∷ [])
      else none

  -- The conditions and the target of a rule; `none` for one that is not valid.
  unfoldable pub rule_parts : FirewallRule → Option (List Text × Text)
  unfolding cidr_conditions protocol_conditions
  rule_parts r =
      if not (is (fold r.direction) "in" || is_out r)
      then none
      else if not (is (fold r.action) "accept" || is (fold r.action) "drop")
      then none
      else by_option (cidr_conditions r) none (λ cidr.
        by_option (protocol_conditions r) none (λ protocol.
          some (cidr ++ protocol, text (if is (fold r.action) "drop" then "DROP" else "ACCEPT"))))

  unfoldable pub firewall_rule_args : Text → FirewallRule → Option (List Text)
  unfolding rule_parts
  firewall_rule_args chain r = by_option (rule_parts r) none (λ p. some (render chain p))

  -- The ranges of the ports, and where ports and addresses may stand.
  unfoldable pub in_ranges : FirewallRule → Bool
  in_ranges r =
      let p = fold r.protocol in
      let no_port = eqb_ℤ r.port_start (pos 0) in
      let no_end = eqb_ℤ r.port_end (pos 0) in
      not (
        ltb_ℤ r.port_start (pos 0)
        || ltb_ℤ (pos 65535) r.port_start
        || ltb_ℤ r.port_end (pos 0)
        || ltb_ℤ (pos 65535) r.port_end
        || (not no_end && (no_port || ltb_ℤ r.port_end r.port_start)))
      && not ((not no_port || not no_end) && not (is p "tcp") && not (is p "udp"))
      && (is_empty r.cidr
          || by_option
              (if contains r.cidr (text "/") then net.parse_cidr r.cidr else net.parse_ip r.cidr)
              false (λ a. a.v4))

  unfoldable pub rule_accepted : FirewallRule → Bool
  unfolding firewall_rule_args in_ranges
  rule_accepted r = is_some (firewall_rule_args (text "validate") r) && in_ranges r

  unfoldable pub all_accepted : List FirewallRule → Bool
  unfolding rule_accepted
  all_accepted [] = true
  all_accepted (r ∷ rs) = (not r.enabled || rule_accepted r) && all_accepted rs

  abbrev known_policy : Text → Bool
  known_policy p = is p "accept" || is p "drop"

  abbrev policy_accepted : Option FirewallPolicy → Bool
  policy_accepted none = true
  policy_accepted (some p) = known_policy p.ingress && known_policy p.egress

  unfoldable pub validate_firewall : Instance → Result (Unit {0})
  unfolding all_accepted
  validate_firewall i =
      if i.id == 0
      then err (text "实例无效")
      else if not (policy_accepted i.firewall_policy)
      then err (text "防火墙默认策略只允许 accept/drop")
      else if ltb 4352 (length i.firewall)
      then err (text "防火墙规则过多")
      else if not (all_accepted i.firewall)
      then err (text "防火墙规则无效")
      else ok tt

-- By priority, and by id among equals.
unfoldable pub rule_before : FirewallRule → FirewallRule → Bool
rule_before a b =
    if not (eqb_ℤ a.priority b.priority) then ltb_ℤ a.priority b.priority else ltb a.id b.id

unfoldable pub rule_le : FirewallRule → FirewallRule → Bool
unfolding rule_before
rule_le a b = not (rule_before b a)

abbrev pub endpoint : FirewallRule → Text
endpoint r = text (if is_out r then "-s" else "-d")

-- append(args[:2], append([]string{endpoint, ip}, args[2:]...)...)
unfoldable pub bind_endpoint : Text → FirewallRule → List Text → List Text
bind_endpoint ip r args = take 2 args ++ endpoint r ∷ ip ∷ drop 2 args

-- A final ACCEPT becomes RETURN.
unfoldable pub return_accepted : List Text → List Text
return_accepted [] = []
return_accepted (t ∷ []) = (if is t "ACCEPT" then text "RETURN" else t) ∷ []
return_accepted (t ∷ u ∷ args) = t ∷ return_accepted (u ∷ args)
