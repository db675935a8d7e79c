-- ===== src/Firewall/Precedence.antt =====
-- The order in which ObservedIPv4 of internal/driver/firewall_observed.go looks at the interfaces.
use virtualis_agent.Common.{Bool, true, false, not, [], ◌∷◌, ◌≡◌, refl, inl, inr, Bool-cases, arith}
use virtualis_agent.Common.Text.{Text, is}
use virtualis_agent.Protocol.{NetworkInterface}
use virtualis_agent.Firewall.Observed.{has_mac, name_before, prior, interface_before, interface_le}

was_true : (b : Bool) → not b ≡ false → b ≡ true
was_true true h = refl
was_true false h = absurd (ground (arith, h))

was_false : (b : Bool) → not b ≡ true → b ≡ false
was_false true h = absurd (ground (arith, h))
was_false false h = refl

from_false : (b : Bool) → b ≡ false → not b ≡ true
from_false true h = absurd (ground (arith, h))
from_false false h = refl

name_before-asym : (a b : Text) → name_before a b ≡ true → name_before b a ≡ false
unfolding name_before
name_before-asym [] [] h = refl
name_before-asym [] (c ∷ b) h = refl
name_before-asym (c ∷ a) [] h = absurd (ground (arith, h))
name_before-asym (c ∷ a) (d ∷ b) h = ground (arith, h, name_before-asym a b)

-- What does not stand before something stands before nothing that precedes it.
name_before_trans :
    (a b c : Text) → name_before b a ≡ false → name_before c b ≡ false → name_before c a ≡ false
unfolding name_before
name_before_trans [] [] [] h k = refl
name_before_trans [] [] (z ∷ c) h k = refl
name_before_trans [] (y ∷ b) [] h k = refl
name_before_trans [] (y ∷ b) (z ∷ c) h k = refl
name_before_trans (x ∷ a) [] [] h k = h
name_before_trans (x ∷ a) [] (z ∷ c) h k = absurd (ground (arith, h))
name_before_trans (x ∷ a) (y ∷ b) [] h k = absurd (ground (arith, k))
name_before_trans (x ∷ a) (y ∷ b) (z ∷ c) h k = ground (arith, h, k, name_before_trans a b c)

prior-asym :
    (ma mb ea eb nab nba : Bool)
    → (nab ≡ true → nba ≡ false)
    → prior ma mb ea eb nab ≡ true
    → prior mb ma eb ea nba ≡ false
prior-asym ma mb ea eb nab nba f h = ground (arith, f, h)

prior_trans :
    (ma mb mc ea eb ec nba ncb nca : Bool)
    → (nba ≡ false → ncb ≡ false → nca ≡ false)
    → prior mb ma eb ea nba ≡ false
    → prior mc mb ec eb ncb ≡ false
    → prior mc ma ec ea nca ≡ false
prior_trans ma mb mc ea eb ec nba ncb nca f h k = ground (arith, f, h, k)

module _ (mac : Text) where
  pub interface_le-total :
      (a b : NetworkInterface) → interface_le mac a b ≡ false → interface_le mac b a ≡ true
  unfolding interface_le interface_before
  interface_le-total a b h = from_false _ (
      prior-asym (has_mac mac b) (has_mac mac a) (is b.name "eth0") (is a.name "eth0")
        (name_before b.name a.name) (name_before a.name b.name) (name_before-asym b.name a.name)
        (was_true _ h))

  pub interface_le_trans :
      (a b c : NetworkInterface)
      → interface_le mac a b ≡ true
      → interface_le mac b c ≡ true
      → interface_le mac a c ≡ true
  unfolding interface_le interface_before
  interface_le_trans a b c h k = from_false _ (
      prior_trans (has_mac mac a) (has_mac mac b) (has_mac mac c) (is a.name "eth0")
        (is b.name "eth0") (is c.name "eth0") (name_before b.name a.name)
        (name_before c.name b.name) (name_before c.name a.name)
        (name_before_trans a.name b.name c.name) (was_false _ h) (was_false _ k))

  pub interface_le_refl : (a : NetworkInterface) → interface_le mac a a ≡ true
  interface_le_refl a = elim (Bool-cases (interface_le mac a a)) [
    | inl holds ↦ holds
    | inr fails ↦ interface_le-total a a fails
  ]
