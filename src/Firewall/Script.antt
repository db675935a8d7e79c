-- ===== src/Firewall/Script.antt =====
-- replaceFirewall and restoreOwnedTable of internal/driver/firewall_atomic.go: the script that is
-- given to iptables-restore, and the guards before it. ApplyFirewall is replaceFirewall.
use virtualis_agent.Common.{
  ℕ, Bool, false, ◌&&◌, ◌||◌, not, List, [], ◌∷◌, ◌++◌, map, Option, none, some, Result, ok, err,
  is_some, if◌then◌else◌, leb, ◌-◌, length, drop, get_elem?, by_option, by_result,
}
use virtualis_agent.Common.Sorting.{sort_by}
use virtualis_agent.Common.Text.{Text, text, is, ◌=ₜ◌, join, fields, split}
use virtualis_agent.Protocol.{Instance, FirewallRule, FirewallPolicy}
use virtualis_agent.Driver.{Host}
use virtualis_agent.Shell.{Shell}
use virtualis_agent.Firewall.{
  Addresses, usable, firewall_chain_name, guest_firewall_ip, firewall_rule_args, validate_firewall,
  rule_le, is_out, bind_endpoint, return_accepted,
}

abbrev pub words : List Text → Text
words ws = join (text " ") ws

-- A word of a line, empty past its end.
abbrev pub word_at : List Text → ℕ → Text
word_at ws i = by_option (get_elem? ws i) [] (λ w. w)

unfoldable pub mem_text : Text → List Text → Bool
mem_text t [] = false
mem_text t (u ∷ us) = u =ₜ t || mem_text t us

-- A listed line that jumps from the hook to one of the chains.
unfoldable pub is_owned_jump : Text → List Text → Text → Bool
unfolding mem_text fields
is_owned_jump hook chains line =
    let f = fields line in
    leb 4 (length f)
    && word_at f 0 =ₜ text "-A"
    && word_at f 1 =ₜ hook
    && word_at f (length f - 2) =ₜ text "-j"
    && mem_text (word_at f (length f - 1)) chains

unfoldable pub owned_jumps : Text → List Text → List Text → List Text
unfolding is_owned_jump
owned_jumps hook chains [] = []
owned_jumps hook chains (line ∷ lines) =
    let rest = owned_jumps hook chains lines in
    if is_owned_jump hook chains line then (text "-D" ++ drop 2 line) ∷ rest else rest

-- The chain is made, which keeps it if it stands, and emptied.
unfoldable pub open_chains : List Text → List Text
open_chains [] = []
open_chains (c ∷ cs) = (b':' ∷ c ++ text " - [0:0]") ∷ (text "-F " ++ c) ∷ open_chains cs

-- The script, line by line.
unfoldable pub restore_lines : Text → Text → List Text → List Text → List Text → List Text
unfolding open_chains owned_jumps
restore_lines table hook chains listed body =
    (b'*' ∷ table) ∷ open_chains chains
    ++ owned_jumps hook chains listed
    ++ body
    ++ text "COMMIT" ∷ []

-- Every line ends in a line feed.
unfoldable pub unlines : List Text → Text
unlines [] = []
unlines (l ∷ ls) = l ++ 10 ∷ unlines ls

unfoldable pub policy_target : Text → Text
policy_target policy = text (if is policy "drop" then "DROP" else "RETURN")

unfoldable pub policy_lines : Text → Text → Option FirewallPolicy → List (List Text)
unfolding policy_target
policy_lines chain ip none = []
policy_lines chain ip (some p) =
    (text "-A" ∷ chain ∷ text "-d" ∷ ip ∷ text "-j" ∷ policy_target p.ingress ∷ [])
    ∷ (text "-A" ∷ chain ∷ text "-s" ∷ ip ∷ text "-j" ∷ policy_target p.egress ∷ [])
    ∷ []

abbrev enabled_in : FirewallRule → Bool
enabled_in r = r.enabled && not (is_out r)

abbrev enabled_out : FirewallRule → Bool
enabled_out r = r.enabled && is_out r

unfoldable pub any_rule : (FirewallRule → Bool) → List FirewallRule → Bool
any_rule p [] = false
any_rule p (r ∷ rs) = p r || any_rule p rs

abbrev jump : Text → Text → Text → List Text
jump chain flag ip = text "-I" ∷ text "FORWARD" ∷ text "1" ∷ flag ∷ ip ∷ text "-j" ∷ chain ∷ []

-- The jumps for the directions that the rules or a policy speak of.
unfoldable pub jump_lines : Text → Text → Instance → List (List Text)
unfolding any_rule
jump_lines chain ip i =
    (if any_rule enabled_in i.firewall || is_some i.firewall_policy
      then jump chain (text "-d") ip ∷ []
      else [])
    ++ (if any_rule enabled_out i.firewall || is_some i.firewall_policy
        then jump chain (text "-s") ip ∷ []
        else [])

module _ (net : Addresses) where
  -- `none` is a slice of nil out of its bounds, where a rule has no arguments.
  unfoldable pub rule_line : Text → Text → FirewallRule → Option (List Text)
  unfolding bind_endpoint return_accepted
  rule_line chain ip r =
      by_option (firewall_rule_args net chain r) none
        (λ args. some (return_accepted (bind_endpoint ip r args)))

  -- The lines of the enabled rules, in the order given.
  unfoldable pub rule_lines : Text → Text → List FirewallRule → Option (List (List Text))
  unfolding rule_line
  rule_lines chain ip [] = some []
  rule_lines chain ip (r ∷ rs) =
      let rest = rule_lines chain ip rs in
      if r.enabled
      then by_option (rule_line chain ip r) none (λ l. by_option rest none (λ ls. some (l ∷ ls)))
      else rest

  unfoldable pub firewall_lines : Text → Text → Instance → Option (List (List Text))
  unfolding rule_lines policy_lines jump_lines
  firewall_lines chain ip i =
      by_option (rule_lines chain ip (sort_by rule_le i.firewall)) none
        (λ lines. some (lines ++ policy_lines chain ip i.firewall_policy ++ jump_lines chain ip i))

  unfoldable pub is_active : Instance → Bool
  unfolding any_rule
  is_active i = is_some i.firewall_policy || any_rule (λ r. r.enabled) i.firewall

  unfoldable pub has_address : Instance → Bool
  unfolding guest_firewall_ip
  has_address i = by_option (net.parse_ip (guest_firewall_ip net i)) false usable

  module _ {W : Type 0} (shell : Shell W) where
    unfoldable pub restore_owned_table :
        Text → Text → List Text → List Text → Host W (Result (Unit {0}))
    unfolding restore_lines unlines
    restore_owned_table table hook chains body w =
        let listing = text "-S" ∷ hook ∷ [] in
        let (listed, w1) =
          shell.output
            (text "iptables" ∷ (if is table "filter" then listing else text "-t" ∷ table ∷ listing))
            w in
        by_result listed (λ e. (err e, w1))
          (λ out. shell.restore (unlines (restore_lines table hook chains (split 10 out) body)) w1)

    unfoldable pub replace_lines : Instance → Host W (Result (Unit {0}))
    unfolding firewall_lines restore_owned_table
    replace_lines i w =
        let chain = firewall_chain_name i.id in
        by_option (firewall_lines chain (guest_firewall_ip net i) i)
          (err (text "slice bounds out of range"), w)
          (λ lines.
            restore_owned_table (text "filter") (text "FORWARD") (chain ∷ []) (map words lines) w)

    -- The second command is looked for only if the first is there.
    unfoldable pub replace_firewall : Instance → Host W (Result (Unit {0}))
    unfolding is_active has_address replace_lines
    replace_firewall i w =
        by_result (validate_firewall net i) (λ e. (err e, w))
          (λ _.
            if is_active i && not (has_address i)
            then (err (text "实例缺少有效 IPv4，规则未应用"), w)
            else let (tables, w1) = shell.available (text "iptables") w in
              let (restores, w2) =
                (if tables then shell.available (text "iptables-restore") w1 else (false, w1)) in
              if not restores
              then (if is_active i
                  then (err (text "宿主机缺少 iptables/iptables-restore"), w2)
                  else (ok tt, w2))
              else replace_lines i w2)
