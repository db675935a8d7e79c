-- ===== src/Tests/Firewall.antt =====
-- The firewall of an instance at concrete inputs.
use virtualis_agent.Common.{
  true, false, List, [], ◌∷◌, map, none, some, ok, ◌≡◌, ◌⊎◌, refl, if◌then◌else◌,
}
use virtualis_agent.Common.Int.{pos}
use virtualis_agent.Common.Sorting.{sort_by, place}
use virtualis_agent.Common.Text.{
  Text, text, ◌=ₜ◌, is, fold, trim_space, trim_left, is_space, to_lower, lower, contains,
  has_prefix, before, decimal, itoa, digits_below,
}
use virtualis_agent.Protocol.{Instance, FirewallRule, NetworkInterface, NetworkStatus}
use virtualis_agent.Shell.{Shell}
use virtualis_agent.Firewall.{
  Address, Addresses, validate_firewall, all_accepted, rule_accepted, firewall_rule_args,
  rule_parts, cidr_conditions, protocol_conditions, port_conditions, in_ranges, firewall_chain_name,
  guest_firewall_ip,
}
use virtualis_agent.Firewall.Script.{firewall_lines, words, replace_lines, restore_owned_table}
use virtualis_agent.Firewall.Transaction.{replace_lines-total}
use virtualis_agent.Firewall.Observed.{
  observed_ipv4, observed_in, first_usable, usable_spelling, is_observable, interface_le,
  interface_before, name_before,
}
use virtualis_agent.Firewall.Observation.{Chosen, Nothing, observed_ipv4-Chosen}
use virtualis_agent.Tests.Host.{U, web, done_host}

abbrev pub guest : Text
guest = text "10.0.0.5"

abbrev pub guest_address : Address
guest_address = record {
  v4 = true;
  global_unicast = true;
  loopback = false;
  link_local = false;
  spelling = guest;
}

abbrev pub one_address : Addresses
one_address = record {
  parse_ip = λ t. if is t "10.0.0.5" then some guest_address else none;
  parse_cidr = λ t. none;
}

abbrev ssh_closed : FirewallRule
ssh_closed = record {
  id = 1;
  direction = text "in";
  protocol = text "tcp";
  port_start = pos 22;
  port_end = pos 0;
  cidr = [];
  action = text "drop";
  priority = pos 1;
  enabled = true;
  remark = [];
}

abbrev tcp_open : FirewallRule
tcp_open = record ssh_closed {
  id = 2;
  port_start = pos 0;
  action = text "accept";
  priority = pos 2;
}

abbrev pub guarded : Instance
guarded = record web { firewall = tcp_open ∷ ssh_closed ∷ []; observed_ip = guest }

guarded-valid : validate_firewall one_address guarded ≡ ok tt
unfolding validate_firewall all_accepted rule_accepted firewall_rule_args rule_parts cidr_conditions
    protocol_conditions port_conditions in_ranges is text ◌=ₜ◌ fold trim_space trim_left is_space
    to_lower lower contains has_prefix itoa decimal digits_below
guarded-valid = refl

abbrev silent : Shell U
silent = record {
  available = λ name w. (true, w);
  run = λ args. done_host;
  output = λ args w. (ok [], w);
  restore = λ script. done_host;
}

replace_lines-total_example :
    (lines : List (List Text)) × (firewall_lines one_address
        (firewall_chain_name 7)
        (guest_firewall_ip one_address guarded)
        guarded
      ≡ some lines)
    × (replace_lines one_address silent guarded tt
        ≡ restore_owned_table one_address silent
            (text "filter")
            (text "FORWARD")
            (firewall_chain_name 7 ∷ [])
            (map words lines)
            tt)
replace_lines-total_example = replace_lines-total one_address silent guarded tt guarded-valid

abbrev seen_interface : NetworkInterface
seen_interface = record {
  name = text "ens3";
  mac = text "52:54:00:01:00:00";
  state = text "up";
  ipv4 = text "127.0.0.1/8" ∷ text "10.0.0.5/24" ∷ [];
  ipv6 = [];
  rx_bytes = 0;
  tx_bytes = 0;
}

abbrev seen_network : NetworkStatus
seen_network = record {
  reachable = true;
  interfaces =
      record seen_interface { name = text "lo" }
      ∷ record seen_interface { name = text "veth1"; mac = [] }
      ∷ seen_interface
      ∷ [];
  error = [];
}

observed_ipv4-Chosen_example :
    ((observed_ipv4 one_address seen_network (text "52:54:00:01:00:00") ≡ [])
      × Nothing one_address (text "52:54:00:01:00:00") seen_network.interfaces)
    ⊎ Chosen one_address
        (text "52:54:00:01:00:00")
        seen_network.interfaces
        (observed_ipv4 one_address seen_network (text "52:54:00:01:00:00"))
observed_ipv4-Chosen_example =
    observed_ipv4-Chosen one_address seen_network (text "52:54:00:01:00:00")

guest_seen : observed_ipv4 one_address seen_network (text "52:54:00:01:00:00") ≡ guest
unfolding observed_ipv4 observed_in first_usable usable_spelling is_observable interface_le
    interface_before name_before sort_by place is text ◌=ₜ◌ to_lower lower before
guest_seen = refl
