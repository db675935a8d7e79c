-- ===== src/Tests/Quota.antt =====
-- The enforcement of quotas and the rules of forwarded ports at concrete inputs.
use virtualis_agent.Common.{ℕ, ◌*◌, ◌+◌, true, [], ◌∷◌, some, ◌≡◌, ◌≢◌, sym, ap, by_option, arith}
use virtualis_agent.Common.Sorting.{Among, here}
use virtualis_agent.Common.Map.{lookup, eq_ℕ}
use virtualis_agent.Common.Text.{
  Text, text, trim_space, trim_left, is_space, decimal, digits_below, contains, has_prefix, fields,
}
use virtualis_agent.Protocol.{Instance}
use virtualis_agent.Operations.{is_busy}
use virtualis_agent.Server.Enforce.{enforce_instance_quota}
use virtualis_agent.Server.Enforce.Laws.{enforce_instance_quota-Frame}
use virtualis_agent.NatRules.{NatRule, nat_tag, rule_of_line, rules_of_lines}
use virtualis_agent.NatRules.Tags.{rules_of_lines-nat_tag}
use virtualis_agent.Tests.Host.{host, owning}

owning-known : (i : Instance) → lookup 7 owning.instances ≡ some i → i.id ≡ 7
unfolding lookup
owning-known i e = ap (λ o. by_option o 7 (λ x. x.id)) (sym e)

enforce_instance_quota-Frame_example :
    (let t = (enforce_instance_quota host 7 owning).1 in
      ((other : ℕ) → other ≢ 7 → lookup other t.instances ≡ lookup other owning.instances)
      × (t.owned ≡ owning.owned)
      × (t.boot_ready ≡ owning.boot_ready)
      × ((other : ℕ) → is_busy t.operations other ≡ is_busy owning.operations other)
      × (is_busy owning.operations 7 ≡ true → t ≡ owning))
enforce_instance_quota-Frame_example = enforce_instance_quota-Frame host 7 owning owning-known

abbrev listed_rule : Text
listed_rule = text "-A PREROUTING -p tcp --comment virtualis:12 -j DNAT"

abbrev rule_of_12 : NatRule
rule_of_12 = record {
  table = text "nat";
  chain = text "PREROUTING";
  spec =
      text "-p"
      ∷ text "tcp"
      ∷ text "--comment"
      ∷ text "virtualis:12"
      ∷ text "-j"
      ∷ text "DNAT"
      ∷ [];
}

listed_for_12 :
    Among rule_of_12 (rules_of_lines (text "nat") (nat_tag (1 * 10 + 2)) (listed_rule ∷ []))
unfolding rules_of_lines rule_of_line nat_tag decimal digits_below text contains has_prefix
    trim_space trim_left is_space fields
listed_for_12 = here

rules_of_lines-nat_tag_example :
    Among rule_of_12 (rules_of_lines (text "nat") (nat_tag 1) (listed_rule ∷ []))
rules_of_lines-nat_tag_example =
    rules_of_lines-nat_tag 1 2 (text "nat") (listed_rule ∷ []) rule_of_12 (omega arith)
      (omega arith) listed_for_12
