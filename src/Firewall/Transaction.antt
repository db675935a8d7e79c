-- ===== src/Firewall/Transaction.antt =====
-- The transaction of internal/driver/firewall_atomic.go for an instance that passes the validation.
use virtualis_agent.Common.{List, [], ◌∷◌, map, some, ok, ◌≡◌, refl}
use virtualis_agent.Common.Text.{Text, text}
use virtualis_agent.Protocol.{Instance}
use virtualis_agent.Shell.{Shell}
use virtualis_agent.Firewall.{Addresses, validate_firewall, firewall_chain_name, guest_firewall_ip}
use virtualis_agent.Firewall.Script.{firewall_lines, replace_lines, restore_owned_table, words}
use virtualis_agent.Firewall.Lines.{firewall_lines-chain_parts}

module _ (net : Addresses) {W : Type 0} (shell : Shell W) where
  -- For an instance that passes the validation, writing the script meets no slice out of its
  -- bounds: the transaction runs on the lines of all its rules.
  pub replace_lines-total :
      (i : Instance) (w : W)
      → validate_firewall net i ≡ ok tt
      → (lines : List (List Text)) × (firewall_lines net
            (firewall_chain_name i.id)
            (guest_firewall_ip net i)
            i
          ≡ some lines)
        × (replace_lines net shell i w
            ≡ restore_owned_table net shell
                (text "filter")
                (text "FORWARD")
                (firewall_chain_name i.id ∷ [])
                (map words lines)
                w)
  unfolding replace_lines
  replace_lines-total i w v =
      let e =
        firewall_lines-chain_parts net (firewall_chain_name i.id) (guest_firewall_ip net i) i v in
      (_, e, rw e refl)
