-- ===== src/Firewall/Lines.antt =====
-- The lines that internal/driver/firewall_atomic.go writes for the rules of an instance, taken apart
-- into conditions and targets.
use mathlib.Core.List.{map-append, append_assoc}
use virtualis_agent.Common.{
  Bool, true, false, ◌||◌, not, List, [], ◌∷◌, ◌++◌, map, Option, none, some, ok, ◌≡◌, ◌≢◌, refl,
  sym, ap, ◌∙◌, inl, inr, is_some, and_true, if◌then◌else◌, by_option, arith, Bool-cases,
  Option-cases,
}
use virtualis_agent.Common.Sorting.{Among, here, there, sort_by, sort_by-Among}
use virtualis_agent.Common.Text.{Text, text, is, fold, ◌=ₜ◌, is_empty, trim_space}
use virtualis_agent.Protocol.{Instance, FirewallRule, FirewallPolicy}
use virtualis_agent.Firewall.{
  Addresses, firewall_rule_args, rule_parts, rule_accepted, all_accepted, validate_firewall,
  rule_le, endpoint, bind_endpoint, return_accepted, render, in_ranges, cidr_conditions,
  protocol_conditions, port_conditions, is_out,
}
use virtualis_agent.Firewall.Promise.{
  Parts, promise, promised_peer, promised_protocol, promised_ports, policy_parts,
}
use virtualis_agent.Firewall.Script.{
  rule_line, rule_lines, firewall_lines, policy_lines, policy_target, jump_lines,
}

return_target : Text → Text
return_target t = if is t "ACCEPT" then text "RETURN" else t

return_accepted-last :
    (xs : List Text) (u t : Text)
    → return_accepted (xs ++ u ∷ t ∷ []) ≡ xs ++ u ∷ return_target t ∷ []
unfolding return_accepted return_target
return_accepted-last [] u t = refl
return_accepted-last (x ∷ []) u t = refl
return_accepted-last (x ∷ y ∷ ys) u t = ap (◌∷◌ x) (return_accepted-last (y ∷ ys) u t)

return_target_name :
    (drops : Bool)
    → return_target (text (if drops then "DROP" else "ACCEPT"))
      ≡ text (if drops then "DROP" else "RETURN")
unfolding return_target is text ◌=ₜ◌
return_target_name true = refl
return_target_name false = refl

pub true-ne-false : true ≢ false
true-ne-false h = cc

none-ne-some {ℓ} : {A : Type ℓ} {a : A} → none ≢ some a
none-ne-some h = cc

some-injective {ℓ} : {A : Type ℓ} {a b : A} → some a ≡ some b → a ≡ b
some-injective {a = a} e = ap (λ o. by_option o a (λ x. x)) e

port_conditions-promise :
    (net : Addresses) (r : FirewallRule)
    → in_ranges net r ≡ true
    → port_conditions r ≡ promised_ports r
unfolding port_conditions promised_ports in_ranges
port_conditions-promise net r h = ground arith

protocol_conditions-promise :
    (net : Addresses) (r : FirewallRule) (ps : List Text)
    → in_ranges net r ≡ true
    → protocol_conditions r ≡ some ps
    → promised_protocol r ≡ ps
unfolding protocol_conditions promised_protocol
protocol_conditions-promise net r ps ranges e =
    let p = fold r.protocol in
    let ports = port_conditions-promise net r ranges in
    elim (Bool-cases (is p "tcp" || is p "udp")) [
      | inl numbered ↦ rw (numbered, sym ports) (some-injective (rw numbered at e))
      | inr unnumbered ↦ elim (Bool-cases (is p "icmp")) [
        | inl icmp ↦ rw (unnumbered, icmp) (some-injective (rw (unnumbered, icmp) at e))
        | inr other ↦ elim (Bool-cases (is_empty p || is p "any" || is p "all")) [
          | inl all ↦ rw (unnumbered, other) (some-injective (rw (unnumbered, other, all) at e))
          | inr bad ↦ absurd (none-ne-some (rw (unnumbered, other, bad) at e))
        ]
      ]
    ]

cidr_conditions-promise :
    (net : Addresses) (r : FirewallRule) (cs : List Text)
    → cidr_conditions net r ≡ some cs
    → promised_peer r ≡ cs
unfolding cidr_conditions promised_peer
cidr_conditions-promise net r cs e =
    let cidr = trim_space r.cidr in
    elim (Bool-cases (is_empty cidr)) [
      | inl all ↦ rw all (some-injective (rw all at e))
      | inr given ↦
          elim (Bool-cases (is_some (net.parse_cidr cidr) || is_some (net.parse_ip cidr))) [
            | inl good ↦ rw given (some-injective (rw (given, good) at e))
            | inr bad ↦ absurd (none-ne-some (rw (given, bad) at e))
          ]
    ]

-- The parts of the enabled rules, in order.
unfoldable pub enabled_parts : Text → List FirewallRule → List Parts
unfolding promise
enabled_parts ip [] = []
enabled_parts ip (r ∷ rs) =
    let rest = enabled_parts ip rs in if r.enabled then promise ip r ∷ rest else rest

-- All that the instance's chain holds, in order.
abbrev pub chain_parts : Text → Instance → List Parts
chain_parts ip i =
    enabled_parts ip (sort_by rule_le i.firewall) ++ policy_parts ip i.firewall_policy

module _ (net : Addresses) where
  -- The parts that the code finds in a rule that it accepts are those asked for.
  rule_parts-promise :
      (ip : Text) (r : FirewallRule) (q : Parts)
      → in_ranges net r ≡ true
      → rule_parts net r ≡ some q
      → (endpoint r ∷ ip ∷ q.0, return_target q.1) ≡ promise ip r
  unfolding rule_parts promise
  rule_parts-promise ip r q ranges e =
      elim (Bool-cases (not (is (fold r.direction) "in" || is_out r))) [
        | inl bad ↦ absurd (none-ne-some (rw bad at e))
        | inr d ↦
            elim (Bool-cases (not (is (fold r.action) "accept" || is (fold r.action) "drop"))) [
              | inl bad ↦ absurd (none-ne-some (rw (d, bad) at e))
              | inr a ↦ elim (Option-cases (cidr_conditions net r)) [
                | inl bad ↦ absurd (none-ne-some (rw (d, a, bad) at e))
                | inr (c, good) ↦ elim (Option-cases (protocol_conditions r)) [
                  | inl bad ↦ absurd (none-ne-some (rw (d, a, good, bad) at e))
                  | inr (ps, fine) ↦
                      ap (λ (x : Parts). (endpoint r ∷ ip ∷ x.0, return_target x.1))
                        (sym (some-injective (rw (d, a, good, fine) at e)))
                      ∙ rw
                          (
                            cidr_conditions-promise net r c good,
                            protocol_conditions-promise net r ps ranges fine,
                            return_target_name (is (fold r.action) "drop"),
                          )
                          refl
                ]
              ]
            ]
      ]

  rule_line-promise :
      (chain ip : Text) (r : FirewallRule)
      → rule_accepted net r ≡ true
      → rule_line net chain ip r ≡ some (render chain (promise ip r))
  unfolding rule_line firewall_rule_args bind_endpoint rule_accepted
  rule_line-promise chain ip r h =
      let (args, ranges) =
        and_true (is_some (firewall_rule_args net (text "validate") r)) (in_ranges net r) h in
      elim (Option-cases (rule_parts net r)) [
        | inl bad ↦ absurd (true-ne-false (sym args ∙ rw bad refl))
        | inr (q, good) ↦ rw good (
            ap some (
              return_accepted-last (text "-A" ∷ chain ∷ endpoint r ∷ ip ∷ q.0) (text "-j") q.1
              ∙ ap (render chain) (rule_parts-promise ip r q ranges good)))
      ]

  -- Every enabled rule of a list is accepted.
  abbrev pub Translated : List FirewallRule → Type 0
  Translated rs = (r : FirewallRule) → Among r rs → r.enabled ≡ true → rule_accepted net r ≡ true

  rule_lines-enabled_parts :
      (chain ip : Text) (rs : List FirewallRule)
      → Translated rs
      → rule_lines net chain ip rs ≡ some (map (render chain) (enabled_parts ip rs))
  unfolding rule_lines enabled_parts firewall_rule_args text trim_space
  rule_lines-enabled_parts chain ip [] t = refl
  rule_lines-enabled_parts chain ip (r ∷ rs) t = elim (Bool-cases r.enabled) [
    | inr off ↦ rw off (rule_lines-enabled_parts chain ip rs (λ q m. t q (there m)))
    | inl on ↦
        rw
          (
            on,
            rule_line-promise chain ip r (t r here on),
            rule_lines-enabled_parts chain ip rs (λ q m. t q (there m)),
          )
          refl
  ]

  all_accepted-cons :
      (r : FirewallRule) (rs : List FirewallRule)
      → all_accepted net (r ∷ rs) ≡ true
      → (r.enabled ≡ true → rule_accepted net r ≡ true) × (all_accepted net rs ≡ true)
  unfolding all_accepted
  all_accepted-cons r rs h =
      let (a, b) = and_true (not r.enabled || rule_accepted net r) (all_accepted net rs) h in
      (λ on. ground arith, b)

  all_accepted-Translated : (rs : List FirewallRule) → all_accepted net rs ≡ true → Translated rs
  all_accepted-Translated [] h r m on = elim m [ ]
  all_accepted-Translated (r' ∷ rs) h r here on = (all_accepted-cons r' rs h).0 on
  all_accepted-Translated (r' ∷ rs) h r (there m) on =
      all_accepted-Translated rs (all_accepted-cons r' rs h).1 r m on

  validate_firewall-accepted :
      (i : Instance) → validate_firewall net i ≡ ok tt → all_accepted net i.firewall ≡ true
  unfolding validate_firewall
  validate_firewall-accepted i h = ground arith

  policy_lines-parts :
      (chain ip : Text) (p : Option FirewallPolicy)
      → policy_lines chain ip p ≡ map (render chain) (policy_parts ip p)
  unfolding policy_lines policy_target
  policy_lines-parts chain ip none = refl
  policy_lines-parts chain ip (some p) = refl

  pub firewall_lines-chain_parts :
      (chain ip : Text) (i : Instance)
      → validate_firewall net i ≡ ok tt
      → firewall_lines net chain ip i
        ≡ some (map (render chain) (chain_parts ip i) ++ jump_lines chain ip i)
  unfolding firewall_lines
  firewall_lines-chain_parts chain ip i h =
      let all = all_accepted-Translated i.firewall (validate_firewall-accepted i h) in
      rw
        (
          rule_lines-enabled_parts chain ip (sort_by rule_le i.firewall)
              (λ r m. all r (sort_by-Among rule_le r i.firewall m)),
          policy_lines-parts chain ip i.firewall_policy,
          map-append,
          append_assoc,
        )
        refl
