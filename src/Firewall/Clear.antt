-- ===== src/Firewall/Clear.antt =====
-- removeChainJumps and ClearFirewall of internal/driver/firewall.go, which take the chain of a deleted
-- instance away, and buildFirewallPlan, the plan of single commands that firewall_atomic.go replaced.
use virtualis_agent.Common.{
  ℕ, Bool, true, false, ◌&&◌, not, List, [], ◌∷◌, ◌++◌, Option, none, some, if◌then◌else◌, ◌==◌,
  leb, ◌-◌, length, drop, by_option, by_result,
}
use virtualis_agent.Common.Sorting.{filter, sort_by}
use virtualis_agent.Common.Text.{Text, text, ◌=ₜ◌, fields, split, trim_space}
use virtualis_agent.Protocol.{FirewallRule}
use virtualis_agent.Shell.{Shell}
use virtualis_agent.Firewall.{
  Addresses, firewall_chain_name, firewall_rule_args, rule_le, is_out, bind_endpoint,
}
use virtualis_agent.Firewall.Script.{word_at}

-- The command that deletes the jump of a listed line, if it is one to the chain.
unfoldable pub jump_deletion : Text → Text → Option (List Text)
jump_deletion chain line =
    let f = fields (trim_space line) in
    if leb 4 (length f)
      && word_at f 0 =ₜ text "-A"
      && word_at f 1 =ₜ text "FORWARD"
      && word_at f (length f - 1) =ₜ chain
      && word_at f (length f - 2) =ₜ text "-j"
    then some (text "iptables" ∷ text "-D" ∷ text "FORWARD" ∷ drop 2 f)
    else none

-- A command that is run for its effect; with IgnoreError or a check in front, as the plan says.
pub record FirewallOp : Type 0 where
  pub check : Option (List Text)
  pub args : List Text
  pub ignore_error : Bool

abbrev op : List Text → FirewallOp
op args = record { check = none; args = args; ignore_error = false }

-- The jump for one direction, unless it stands.
abbrev jump_op : (chain flag ip : Text) → FirewallOp
jump_op chain flag ip = record {
  check = some (text "-C" ∷ text "FORWARD" ∷ flag ∷ ip ∷ text "-j" ∷ chain ∷ []);
  args = text "-I" ∷ text "FORWARD" ∷ text "1" ∷ flag ∷ ip ∷ text "-j" ∷ chain ∷ [];
  ignore_error = false;
}

module _ (net : Addresses) (chain ip : Text) where
  -- The commands of the rules that can be translated, and the directions of these.
  unfoldable pub plan_rules : List FirewallRule → List FirewallOp × Bool × Bool
  unfolding bind_endpoint
  plan_rules [] = ([], false, false)
  plan_rules (r ∷ rs) =
      let (ops, ins, outs) = plan_rules rs in
      by_option (firewall_rule_args net chain r) (ops, ins, outs)
        (λ args.
          let line = op (bind_endpoint ip r args) in
          if is_out r then (line ∷ ops, ins, true) else (line ∷ ops, true, outs))

  unfoldable pub build_firewall_plan : List FirewallRule → List FirewallOp
  unfolding plan_rules
  build_firewall_plan rules =
      let (ops, ins, outs) = plan_rules (sort_by rule_le (filter (λ r. r.enabled) rules)) in
      record { check = none; args = text "-N" ∷ chain ∷ []; ignore_error = true }
        ∷ op (text "-F" ∷ chain ∷ [])
        ∷ ops
      ++ (if ins then jump_op chain (text "-d") ip ∷ [] else [])
      ++ (if outs then jump_op chain (text "-s") ip ∷ [] else [])

module _ {W : Type 0} (shell : Shell W) where
  abbrev ignoring : List Text → W → W
  ignoring args w = let (_, w') = shell.run args w in w'

  unfoldable pub remove_listed_jumps : Text → List Text → W → W
  unfolding jump_deletion
  remove_listed_jumps chain [] w = w
  remove_listed_jumps chain (line ∷ lines) w =
      remove_listed_jumps chain lines
        (by_option (jump_deletion chain line) w (λ args. ignoring args w))

  unfoldable pub remove_chain_jumps : Text → W → W
  unfolding remove_listed_jumps
  remove_chain_jumps chain w =
      let (listed, w') = shell.output (text "iptables" ∷ text "-S" ∷ text "FORWARD" ∷ []) w in
      by_result listed (λ e. w') (λ out. remove_listed_jumps chain (split 10 out) w')

  unfoldable pub clear_firewall : ℕ → W → W
  unfolding remove_chain_jumps firewall_chain_name
  clear_firewall id w =
      let (tables, w1) = shell.available (text "iptables") w in
      let chain = firewall_chain_name id in
      let w2 = remove_chain_jumps chain w1 in
      if id == 0
      then w
      else if not tables
      then w1
      else ignoring (text "iptables" ∷ text "-X" ∷ chain ∷ [])
          (ignoring (text "iptables" ∷ text "-F" ∷ chain ∷ []) w2)
