-- ===== src/NatRules/Tags.antt =====
-- How internal/driver/nat.go finds an instance's rules by its tag.
use virtualis_agent.Common.{
  ℕ, ◌+◌, ◌*◌, ◌<◌, true, List, [], ◌∷◌, ◌++◌, ◌≡◌, sym, subst, Bool-cases, inl, inr,
}
use mathlib.Core.List.{append_assoc}
use virtualis_agent.Common.Decimal.{decimal-digit, contains-append}
use virtualis_agent.Common.Sorting.{Among, Among-append, append-Among, after-Among}
use virtualis_agent.Common.Text.{Text, text, contains, decimal, trim_space, has_prefix}
use virtualis_agent.NatRules.{NatRule, nat_tag, rule_of_line, rules_of_lines}

nat_tag-digit : (n d : ℕ) → 0 < n → d < 10 → nat_tag (n * 10 + d) ≡ nat_tag n ++ (b'0' + d) ∷ []
unfolding nat_tag
nat_tag-digit n d positive digit =
    rw (decimal-digit n d positive digit)
      (sym (append_assoc (text "virtualis:") (decimal n) ((b'0' + d) ∷ [])))

pub contains-nat_tag :
    (n d : ℕ) (line : Text)
    → 0 < n
    → d < 10
    → contains line (nat_tag (n * 10 + d)) ≡ true
    → contains line (nat_tag n) ≡ true
contains-nat_tag n d line positive digit h =
    contains-append line (nat_tag n) ((b'0' + d) ∷ [])
      (subst (λ t. contains line t ≡ true) (nat_tag-digit n d positive digit) h)

module _ (table tag longer : Text)
    (covers : (line : Text) → contains line longer ≡ true → contains line tag ≡ true)
    (rule : NatRule) where
  rule_of_line-covered :
      (line : Text)
      → Among rule (rule_of_line table longer line)
      → Among rule (rule_of_line table tag line)
  unfolding rule_of_line
  rule_of_line-covered line m = elim (Bool-cases (has_prefix (trim_space line) (text "-A "))) [
    | inl added ↦ elim (Bool-cases (contains (trim_space line) longer)) [
      | inl tagged ↦ rw (added, covers (trim_space line) tagged) (rw (added, tagged) at m)
      | inr other ↦ elim (rw (added, other) at m) [ ]
    ]
    | inr other ↦ elim (rw other at m) [ ]
  ]

  rules_of_lines-covered :
      (lines : List Text)
      → Among rule (rules_of_lines table longer lines)
      → Among rule (rules_of_lines table tag lines)
  unfolding rules_of_lines
  rules_of_lines-covered [] m = m
  rules_of_lines-covered (line ∷ lines) m =
      elim (Among-append rule (rule_of_line table longer line) (rules_of_lines table longer lines)
        m) [
          | inl first ↦
              append-Among rule (rule_of_line table tag line) (rules_of_lines table tag lines)
                (rule_of_line-covered line first)
          | inr rest ↦
              after-Among rule (rule_of_line table tag line) (rules_of_lines table tag lines)
                (rules_of_lines-covered lines rest)
        ]

-- Every rule that is found for the instance whose id is that of another with a digit behind it is
-- also found for the other: in any listing, the rules of instance 10·n + d are among those of
-- instance n.
pub rules_of_lines-nat_tag :
    (n d : ℕ) (table : Text) (lines : List Text) (rule : NatRule)
    → 0 < n
    → d < 10
    → Among rule (rules_of_lines table (nat_tag (n * 10 + d)) lines)
    → Among rule (rules_of_lines table (nat_tag n) lines)
rules_of_lines-nat_tag n d table lines rule positive digit =
    rules_of_lines-covered table (nat_tag n) (nat_tag (n * 10 + d))
      (λ line. contains-nat_tag n d line positive digit) rule lines
