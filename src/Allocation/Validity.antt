-- ===== src/Allocation/Validity.antt =====
-- The table of internal/driver/nat_allocation.go stays one that the agent accepts.
use virtualis_agent.Common.{◌≡◌, refl, true, false, [], ◌∷◌, none, some, arith, is_some, ◌==◌}
use virtualis_agent.Common.Text.{Text, ◌=ₜ◌, text_eq_iff}
use virtualis_agent.Common.Map.{Map, lookup, insert, delete, eq_Text}
use virtualis_agent.Allocation.{Net, NatAllocation, key_of, mem, used_on, valid_from}

-- An insertion of a new key, with an address that no record has on its bridge.
pub valid_from-insert :
    (net : Net) (key : Text) (r : NatAllocation) (seen m : Map Text NatAllocation)
    → lookup key m ≡ none
    → (r.id == 0) ≡ false
    → (key =ₜ key_of r.driver r.id) ≡ true
    → is_some (net.parse_ip r.ip) ≡ true
    → mem r.ip (used_on r.bridge seen) ≡ false
    → mem r.ip (used_on r.bridge m) ≡ false
    → valid_from net seen m ≡ true
    → valid_from net seen (insert key r m) ≡ true
unfolding valid_from insert lookup mem used_on
valid_from-insert net key r seen [] n i k p u v h = rw (i, k, p, u) refl
valid_from-insert net key r seen ((j, q) ∷ m) n i k p u v h = ground (
  arith,
  text_eq_iff q.bridge r.bridge,
  text_eq_iff q.ip r.ip,
  valid_from-insert net key r ((j, q) ∷ seen) m,
)

-- Fewer identities seen leave a table valid.
mem-skip :
    (t : Text) (bridge j : Text) (q : NatAllocation) (seen : Map Text NatAllocation)
    → mem t (used_on bridge ((j, q) ∷ seen)) ≡ false
    → mem t (used_on bridge seen) ≡ false
unfolding mem used_on
mem-skip t bridge j q seen h = ground arith

abbrev Covers : Map Text NatAllocation → Map Text NatAllocation → Type 0
Covers big small =
    (t bridge : Text) → mem t (used_on bridge big) ≡ false → mem t (used_on bridge small) ≡ false

Covers-cons :
    (big small : Map Text NatAllocation) (j : Text) (q : NatAllocation)
    → Covers big small
    → Covers ((j, q) ∷ big) ((j, q) ∷ small)
unfolding mem used_on
Covers-cons big small j q c t bridge h = ground (arith, c t bridge)

valid_from-Covers :
    (net : Net) (big small m : Map Text NatAllocation)
    → Covers big small
    → valid_from net big m ≡ true
    → valid_from net small m ≡ true
unfolding valid_from
valid_from-Covers net big small [] c h = refl
valid_from-Covers net big small ((j, q) ∷ m) c h = ground (
  arith,
  c q.ip q.bridge,
  valid_from-Covers net ((j, q) ∷ big) ((j, q) ∷ small) m (Covers-cons big small j q c),
)

pub valid_from-delete :
    (net : Net) (key : Text) (seen m : Map Text NatAllocation)
    → valid_from net seen m ≡ true
    → valid_from net seen (delete key m) ≡ true
unfolding valid_from delete
valid_from-delete net key seen [] h = refl
valid_from-delete net key seen ((j, q) ∷ m) h = ground (
  arith,
  valid_from-delete net key ((j, q) ∷ seen) m,
  valid_from-delete net key seen m,
  valid_from-Covers net ((j, q) ∷ seen) seen m (λ t bridge. mem-skip t bridge j q seen),
)

-- A record of a valid table has an address that was not seen before.
pub lookup-unseen :
    (net : Net) (key : Text) (r : NatAllocation) (seen m : Map Text NatAllocation)
    → valid_from net seen m ≡ true
    → lookup key m ≡ some r
    → mem r.ip (used_on r.bridge seen) ≡ false
unfolding valid_from lookup
lookup-unseen net key r seen [] h e = absurd (ground arith)
lookup-unseen net key r seen ((j, q) ∷ m) h e =
    ground (arith, lookup-unseen net key r ((j, q) ∷ seen) m, mem-skip r.ip r.bridge j q seen)
