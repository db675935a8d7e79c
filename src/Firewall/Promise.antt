-- ===== src/Firewall/Promise.antt =====
-- What the rules and the policy of an instance ask for, as internal/protocol/protocol.go describes
-- their fields: the packets that a rule is about, in the words of iptables, and what becomes of
-- them. It is written down apart from the code of internal/driver/firewall.go that is checked
-- against it.
use virtualis_agent.Common.{
  ◌<◌, ◌⊎◌, ◌≡◌, true, ◌||◌, List, [], ◌∷◌, ◌++◌, Option, none, some, if◌then◌else◌,
}
use virtualis_agent.Common.Int.{pos, ltb_ℤ, eqb_ℤ}
use virtualis_agent.Common.Text.{Text, text, is, is_empty, fold, trim_space, itoa}
use virtualis_agent.Protocol.{FirewallRule, FirewallPolicy}

-- A condition list and a target.
abbrev pub Parts : Type 0
Parts = List Text × Text

-- A rule without a first port is about all of them, and one without a larger last port about one.
unfoldable pub promised_ports : FirewallRule → List Text
promised_ports r =
    if eqb_ℤ r.port_start (pos 0)
    then []
    else text "--dport"
      ∷ (if ltb_ℤ r.port_start r.port_end
          then itoa r.port_start ++ b':' ∷ itoa r.port_end
          else itoa r.port_start)
      ∷ []

unfoldable pub promised_protocol : FirewallRule → List Text
unfolding promised_ports
promised_protocol r =
    let p = fold r.protocol in
    if is p "tcp" || is p "udp"
    then text "-p" ∷ p ∷ promised_ports r
    else if is p "icmp"
    then text "-p" ∷ text "icmp" ∷ []
    else []

-- The other side: the destination of what goes out, and the source of what comes in.
unfoldable pub promised_peer : FirewallRule → List Text
promised_peer r =
    if is_empty (trim_space r.cidr)
    then []
    else text (if is (fold r.direction) "out" then "-d" else "-s") ∷ trim_space r.cidr ∷ []

-- The target in the script: an accepted packet goes on to the other chains of the hook.
abbrev pub script_target : FirewallRule → Text
script_target r = text (if is (fold r.action) "drop" then "DROP" else "RETURN")

-- The instance is the source of what goes out, and the destination of what comes in.
unfoldable pub promise : Text → FirewallRule → Parts
unfolding promised_peer promised_protocol
promise ip r = (
  text (if is (fold r.direction) "out" then "-s" else "-d") ∷ ip ∷ promised_peer r
      ++ promised_protocol r,
  script_target r,
)

abbrev pub policy_parts : Text → Option FirewallPolicy → List Parts
policy_parts ip none = []
policy_parts ip (some p) =
    (text "-d" ∷ ip ∷ [], text (if is p.ingress "drop" then "DROP" else "RETURN"))
    ∷ (text "-s" ∷ ip ∷ [], text (if is p.egress "drop" then "DROP" else "RETURN"))
    ∷ []

-- The lower priority, and among equals the lower id.
abbrev pub Precedes : FirewallRule → FirewallRule → Type 0
Precedes a b = (ltb_ℤ a.priority b.priority ≡ true) ⊎ ((a.priority ≡ b.priority) × (a.id < b.id))
