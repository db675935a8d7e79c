-- ===== src/NatRules.antt =====
-- internal/driver/nat.go: the rules of iptables that forward ports of the host to an instance. Each
-- carries a comment with the instance's id, by which its rules are found again.
pub mod Tags
use virtualis_agent.Common.{
  ℕ, zero, suc, ◌%◌, ◌+◌, ◌-◌, Bool, true, false, ◌&&◌, ◌||◌, not, List, [], ◌∷◌, ◌++◌, Option,
  none, some, Result, ok, err, if◌then◌else◌, ltb, leb, ◌==◌, by_option, by_result, length, map,
  take, drop,
}
use virtualis_agent.Common.Int.{ℤ, pos, eqb_ℤ}
use virtualis_agent.Common.Text.{
  Text, text, is, is_empty, fold, trim_space, split, fields, contains, has_prefix, decimal, itoa,
  before, ◌=ₜ◌,
}
use virtualis_agent.Protocol.{Instance, NatMapping, NetworkStatus, NetworkInterface}
use virtualis_agent.Driver.{Driver, Host, Call}
use virtualis_agent.Shell.{Shell}

unfoldable pub nat_tag : ℕ → Text
nat_tag id = text "virtualis:" ++ decimal id

pub record NatRule : Type 0 where
  pub table : Text
  pub chain : Text
  pub spec : List Text

abbrev or_tcp : Text → Text
or_tcp p = if is p "udp" then text "udp" else text "tcp"

unfoldable pub normalize_nat_protocol : Text → Text
normalize_nat_protocol p = or_tcp (fold p)

-- The word behind the first --dport that `atoi` reads.
unfoldable pub rule_host_port : (Text → Option ℤ) → List Text → Option ℤ
rule_host_port atoi [] = none
rule_host_port atoi (field ∷ []) = none
rule_host_port atoi (field ∷ next ∷ fs) =
    let rest = rule_host_port atoi (next ∷ fs) in
    if is field "--dport" then by_option (atoi next) rest (λ v. some v) else rest

abbrev last_of : Text → Text
last_of item = drop (length item - 1) item

-- The quotes that iptables-save puts around a comment.
unfoldable pub unquote : Text → Text
unquote item =
    if leb 2 (length item) && has_prefix item (text "\"") && last_of item =ₜ text "\""
    then take (length item - 2) (drop 1 item)
    else item

unfoldable pub unquote_spec : List Text → List Text
unfolding unquote
unquote_spec spec = map unquote spec

-- The rule in a listed line that carries the tag.
unfoldable pub rule_of_line : (table tag line : Text) → List NatRule
rule_of_line table tag line =
    let l = trim_space line in
    if not (has_prefix l (text "-A ")) || not (contains l tag) then [] else elim (fields l) [
      | _ ∷ chain ∷ word ∷ words ↦ record { table = table; chain = chain; spec = word ∷ words } ∷ []
      | _ ↦ []
    ]

unfoldable pub rules_of_lines : (table tag : Text) → List Text → List NatRule
unfolding rule_of_line
rules_of_lines table tag [] = []
rules_of_lines table tag (line ∷ lines) =
    rule_of_line table tag line ++ rules_of_lines table tag lines

unfoldable pub desired : ℤ → List NatMapping → Bool
desired port [] = false
desired port (n ∷ ns) = eqb_ℤ n.host_port port || desired port ns

module _ (atoi : Text → Option ℤ) where
  -- The listed rules of a port that is mapped no more.
  unfoldable pub stale_rules : List NatMapping → List NatRule → List NatRule
  unfolding rule_host_port desired
  stale_rules wanted [] = []
  stale_rules wanted (rule ∷ rules) =
      let rest = stale_rules wanted rules in
      if by_option (rule_host_port atoi rule.spec) false (λ port. not (desired port wanted))
      then rule ∷ rest
      else rest

module _ {W : Type 0} (shell : Shell W) where
  unfoldable pub list_table : (tag table : Text) → Host W (List NatRule)
  unfolding rules_of_lines
  list_table tag table w =
      let (listed, w') = shell.output (text "iptables-save" ∷ text "-t" ∷ table ∷ []) w in
      by_result listed (λ e. ([], w')) (λ out. (rules_of_lines table tag (split 10 out), w'))

  -- A table that cannot be listed is passed over.
  unfoldable pub list_nat_rules : Text → Host W (List NatRule)
  unfolding list_table
  list_nat_rules tag w =
      let (nat, w1) = list_table tag (text "nat") w in
      let (filter, w2) = list_table tag (text "filter") w1 in (nat ++ filter, w2)

  abbrev ignoring : List Text → W → W
  ignoring args w = let (_, w') = shell.run args w in w'

  unfoldable pub delete_nat_rule : NatRule → W → W
  unfolding unquote_spec
  delete_nat_rule rule w =
      ignoring
        (text "iptables" ∷ text "-t" ∷ rule.table ∷ text "-D" ∷ rule.chain ∷ unquote_spec rule.spec)
        w

  unfoldable pub delete_nat_rules : List NatRule → W → W
  unfolding delete_nat_rule
  delete_nat_rules [] w = w
  delete_nat_rules (rule ∷ rules) w = delete_nat_rules rules (delete_nat_rule rule w)

  -- A rule that stands is not added again.
  unfoldable pub ensure : (check add : List Text) → W → W
  ensure check add w =
      let (stands, w') = shell.run (text "iptables" ∷ check) w in
      by_result stands (λ e. ignoring (text "iptables" ∷ add) w') (λ _. w')

  unfoldable pub ensure_rule : (table chain : Text) → List Text → W → W
  unfolding ensure
  ensure_rule table chain spec =
      ensure (text "-t" ∷ table ∷ text "-C" ∷ chain ∷ spec)
        (text "-t" ∷ table ∷ text "-A" ∷ chain ∷ spec)

  -- At the head of the chain, before the rules of libvirt that refuse.
  unfoldable pub ensure_forward_rule : List Text → W → W
  unfolding ensure
  ensure_forward_rule spec =
      ensure (text "-C" ∷ text "FORWARD" ∷ spec) (text "-I" ∷ text "FORWARD" ∷ text "1" ∷ spec)

  unfoldable pub clear_nat_rules : ℕ → W → W
  unfolding list_nat_rules delete_nat_rules nat_tag
  clear_nat_rules id w =
      let (tables, w1) = shell.available (text "iptables") w in
      if tables
      then (let (rules, w2) = list_nat_rules (nat_tag id) w1 in delete_nat_rules rules w2)
      else w1

  -- The three rules of a mapping.
  unfoldable pub apply_mapping : (tag guest_ip : Text) → NatMapping → W → W
  unfolding ensure_rule ensure_forward_rule normalize_nat_protocol
  apply_mapping tag guest_ip n w =
      let proto = normalize_nat_protocol n.protocol in
      let comment = text "-m" ∷ text "comment" ∷ text "--comment" ∷ tag ∷ [] in
      let dnat =
        text "-p" ∷ proto ∷ text "-m" ∷ proto ∷ text "--dport" ∷ itoa n.host_port ∷ comment
        ++ text "-j"
          ∷ text "DNAT"
          ∷ text "--to-destination"
          ∷ (guest_ip ++ b':' ∷ itoa n.guest_port)
          ∷ [] in
      let allow =
        text "-d"
          ∷ guest_ip
          ∷ text "-p"
          ∷ proto
          ∷ text "-m"
          ∷ proto
          ∷ text "--dport"
          ∷ itoa n.guest_port
          ∷ comment
        ++ text "-j" ∷ text "ACCEPT" ∷ [] in
      ensure_forward_rule allow (
        ensure_rule (text "nat") (text "OUTPUT") dnat
          (ensure_rule (text "nat") (text "PREROUTING") dnat w))

  unfoldable pub apply_mappings : (tag guest_ip : Text) → List NatMapping → ℕ → W → ℕ × W
  unfolding apply_mapping
  apply_mappings tag guest_ip [] applied w = (applied, w)
  apply_mappings tag guest_ip (n ∷ ns) applied w =
      apply_mappings tag guest_ip ns (suc applied) (apply_mapping tag guest_ip n w)

abbrev first_address : List NetworkInterface → Text
first_address [] = []
first_address (i ∷ is) = elim i.ipv4 [ [] ↦ first_address is | ip ∷ _ ↦ ip ]

module _ {W : Type 0} (d : Driver W) (wait : Host W Bool) where
  -- `wait` waits for the interval, and tells whether the context has ended instead.
  unfoldable pub query_guest_ip : ℕ → Instance → W → Text × Instance × W
  query_guest_ip zero i w = ([], i, w)
  query_guest_ip (suc retries) i w =
      let (over, w1) = wait w in
      let (found, j, w2) = d.network i w1 in
      let again = query_guest_ip retries j w2 in
      if over
      then ([], i, w1)
      else by_result found (λ e. again)
          (λ status.
            let ip = first_address status.interfaces in if is_empty ip then again else (ip, j, w2))

  -- The declared address, or the first of the running instance's.
  unfoldable pub resolve_guest_ip : (Text → Bool) → ℕ → Instance → W → Text × Instance × W
  unfolding query_guest_ip
  resolve_guest_ip is_ip retries i w =
      let declared = before b'/' i.network.ipv4 in
      if is_ip declared then (declared, i, w) else query_guest_ip retries i w

-- What ApplyNATRules calls of the driver and of the packages net, strconv and time.
pub record Calls (W : Type 0) : Type 0 where
  pub driver : Driver W
  pub ensure_identity : Option (Call W (Unit {0}))
  pub wait : Host W Bool
  pub is_ip : Text → Bool
  pub atoi : Text → Option ℤ

module _ {W : Type 0} (shell : Shell W) (calls : Calls W) where
  -- Rules of other ports go, and those of the mappings are made sure of.
  unfoldable pub forward : (guest_ip : Text) → ℕ → List NatMapping → Host W ℕ
  unfolding nat_tag list_nat_rules stale_rules delete_nat_rules apply_mappings
  forward guest_ip id mappings w =
      let (existing, w1) = list_nat_rules shell (nat_tag id) w in
      apply_mappings shell (nat_tag id) guest_ip mappings 0
        (delete_nat_rules shell (stale_rules calls.atoi mappings existing) w1)

  unfoldable pub forward_resolved : ℕ → List NatMapping → Call W ℕ
  unfolding forward resolve_guest_ip
  forward_resolved retries mappings i w =
      let (guest_ip, j, w1) = resolve_guest_ip calls.driver calls.wait calls.is_ip retries i w in
      if is_empty guest_ip
      then (err (text "无法解析实例 IP，跳过 NAT 映射配置"), j, w1)
      else (let (applied, w2) = forward guest_ip j.id mappings w1 in (ok applied, j, w2))

  unfoldable pub apply_nat_rules : ℕ → Call W ℕ
  unfolding clear_nat_rules forward_resolved
  apply_nat_rules retries i w =
      let mappings = by_option i.nat_mappings [] (λ ns. ns) in
      if is_empty mappings
      then (ok 0, i, clear_nat_rules shell i.id w)
      else let (tables, w1) = shell.available (text "iptables") w in
        if not tables
        then (err (text "iptables 未安装，无法配置 NAT 端口映射"), i, w1)
        else by_option calls.ensure_identity (forward_resolved retries mappings i w1) (λ ensure_.
          let (made, j, w2) = ensure_ i w1 in
          by_result made (λ e. (err e, j, w2)) (λ _. forward_resolved retries mappings j w2))
