-- ===== src/Firewall/Observed.antt =====
-- ObservedIPv4 and ReconcileFirewall of internal/driver/firewall_observed.go: the address that the rules
-- are written for is one that the instance was seen to have.
use virtualis_agent.Common.{
  Bool, true, false, ◌&&◌, ◌||◌, not, List, [], ◌∷◌, Option, none, some, Result, ok, err,
  if◌then◌else◌, ltb, ◌==◌, by_option, by_result,
}
use virtualis_agent.Common.Sorting.{sort_by}
use virtualis_agent.Common.Text.{Text, text, is, is_empty, to_lower, before, ◌=ₜ◌}
use virtualis_agent.Protocol.{Instance, NetworkStatus, NetworkInterface}
use virtualis_agent.Driver.{Driver}
use virtualis_agent.Shell.{Shell}
use virtualis_agent.Firewall.{Addresses, usable}
use virtualis_agent.Firewall.Script.{replace_firewall}

-- strings.EqualFold
abbrev equal_fold : Text → Text → Bool
equal_fold a b = to_lower a =ₜ to_lower b

-- a < b
unfoldable pub name_before : Text → Text → Bool
name_before [] [] = false
name_before [] (c ∷ b) = true
name_before (c ∷ a) [] = false
name_before (c ∷ a) (d ∷ b) = ltb c d || (c == d && name_before a b)

abbrev pub has_mac : Text → NetworkInterface → Bool
has_mac mac f = not (is_empty mac) && equal_fold f.mac mac

-- The hardware address decides first, then the name eth0, then the order of the names.
abbrev pub prior : (mac_a mac_b eth0_a eth0_b named_before : Bool) → Bool
prior true false eth0_a eth0_b named_before = true
prior false true eth0_a eth0_b named_before = false
prior true true true false named_before = true
prior true true false true named_before = false
prior true true true true named_before = named_before
prior true true false false named_before = named_before
prior false false true false named_before = true
prior false false false true named_before = false
prior false false true true named_before = named_before
prior false false false false named_before = named_before

unfoldable pub interface_before : Text → NetworkInterface → NetworkInterface → Bool
unfolding name_before
interface_before mac a b =
    prior (has_mac mac a) (has_mac mac b) (is a.name "eth0") (is b.name "eth0")
      (name_before a.name b.name)

unfoldable pub interface_le : Text → NetworkInterface → NetworkInterface → Bool
unfolding interface_before
interface_le mac a b = not (interface_before mac b a)

-- Neither the loopback nor down, and of the configured hardware address if there is one.
unfoldable pub is_observable : Text → NetworkInterface → Bool
is_observable mac f =
    not (is f.name "lo" || equal_fold f.state (text "down"))
    && (is_empty mac || equal_fold f.mac mac)

module _ (net : Addresses) where
  unfoldable pub usable_spelling : Text → Option Text
  usable_spelling address =
      by_option (net.parse_ip (before b'/' address)) none
        (λ a. if usable a then some a.spelling else none)

  unfoldable pub first_usable : List Text → Option Text
  unfolding usable_spelling
  first_usable [] = none
  first_usable (address ∷ rest) =
      let further = first_usable rest in by_option (usable_spelling address) further (λ t. some t)

  unfoldable pub observed_in : Text → List NetworkInterface → Option Text
  unfolding first_usable is_observable
  observed_in mac [] = none
  observed_in mac (f ∷ rest) =
      let further = observed_in mac rest in
      if is_observable mac f then by_option (first_usable f.ipv4) further (λ t. some t) else further

  -- The empty text is none.
  unfoldable pub observed_ipv4 : NetworkStatus → Text → Text
  unfolding observed_in interface_le
  observed_ipv4 status mac =
      by_option (observed_in mac (sort_by (interface_le mac) status.interfaces)) [] (λ t. t)

  module _ {W : Type 0} (shell : Shell W) (d : Driver W) where
    unfoldable pub apply_observed : Instance → NetworkStatus → W → Result (Unit {0}) × Instance × W
    unfolding observed_ipv4
    apply_observed i status w =
        let j = record i { observed_ip = observed_ipv4 status i.network.mac } in
        let (r, w1) = replace_firewall net shell j w in (r, j, w1)

    unfoldable pub reconcile_firewall :
        Instance → Option NetworkStatus → W → Result (Unit {0}) × Instance × W
    unfolding apply_observed
    reconcile_firewall i observed w =
        if not (is i.status "running")
        then (ok tt, i, w)
        else by_option observed
            (let (r, j, w1) = d.network i w in
              by_result r (λ e. (err e, record j { observed_ip = [] }, w1))
                (λ status. apply_observed j status w1))
            (λ status. apply_observed i status w)
