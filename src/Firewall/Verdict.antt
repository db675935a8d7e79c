-- ===== src/Firewall/Verdict.antt =====
-- What iptables makes of the lines of an instance's chain: it takes the target of the first line
-- whose conditions hold. `holds` says which conditions hold for the packet at hand.
use virtualis_agent.Common.{
  Bool, true, false, ◌&&◌, List, [], ◌∷◌, Option, none, some, ◌≡◌, ◌⊎◌, if◌then◌else◌,
}
use virtualis_agent.Common.Sorting.{Among}
use virtualis_agent.Common.Text.{Text}
use virtualis_agent.Protocol.{Instance, FirewallRule}
use virtualis_agent.Firewall.Promise.{Parts, script_target, promise, policy_parts, Precedes}

unfoldable pub verdict : (List Text → Bool) → List Parts → Option Text
verdict holds [] = none
verdict holds ((conditions, target) ∷ ps) =
    let rest = verdict holds ps in if holds conditions then some target else rest

module _ (holds : List Text → Bool) where
  -- The rule is enabled, and its line's conditions hold.
  unfoldable pub applies : Text → FirewallRule → Bool
  applies ip r = r.enabled && holds (promise ip r).0

  -- Among the enabled rules that hold, the one of the lowest priority decides, and of those the one
  -- of the lowest id; without one it is left to the policy.
  pub data Decided (ip : Text) (i : Instance) : Option Text → Type 0 where
    by_rule :
        (r : FirewallRule)
        → Among r i.firewall
        → applies ip r ≡ true
        → ((q : FirewallRule) → Among q i.firewall → applies ip q ≡ true → (q ≡ r) ⊎ Precedes r q)
        → Decided ip i (some (script_target r))
    by_policy :
        ((q : FirewallRule) → Among q i.firewall → applies ip q ≡ false)
        → Decided ip i (verdict holds (policy_parts ip i.firewall_policy))
