-- ===== src/Allocation/Unique.antt =====
-- What internal/driver/nat_allocation.go promises to the guests of a NAT bridge: an address of the
-- bridge's subnet that no other instance has, and the same one each time.
use native.Mathlib.Nat.{div-add-mod'}
use virtualis_agent.Common.{
  ℕ, ◌+◌, ◌*◌, ◌/◌, ◌^◌, ◌-◌, ◌≤◌, ◌<◌, ◌≡◌, inl, inr, true, false, ◌&&◌, ◌||◌, not, List, [], ◌∷◌,
  some, ok, arith, ◌==◌, Option-cases, subst, zero, suc, Bool-cases, ok-injective,
}
use virtualis_agent.Common.Text.{Text, text_eq_iff, is_empty}
use virtualis_agent.Common.Map.{Map, lookup, eq_Text}
use virtualis_agent.Allocation.{
  Ip, v4, Net, Subnet, NatAllocation, base, in_subnet, mem, used_on, valid_from, find_slot,
  candidate,
}
use virtualis_agent.Allocation.Validity.{lookup-unseen}

pub valid_from-alone :
    (net : Net) (seen m : Map Text NatAllocation) (k j : Text) (r q : NatAllocation)
    → valid_from net seen m ≡ true
    → lookup k m ≡ some r
    → lookup j m ≡ some q
    → r.bridge ≡ q.bridge
    → r.ip ≡ q.ip
    → k ≡ j
unfolding valid_from lookup mem used_on
valid_from-alone net seen [] k j r q h e f b i = absurd (ground arith)
valid_from-alone net seen ((l, p) ∷ m) k j r q h e f b i = ground (
  arith,
  valid_from-alone net ((l, p) ∷ seen) m k j r q,
  lookup-unseen net k r ((l, p) ∷ seen) m,
  lookup-unseen net j q ((l, p) ∷ seen) m,
  text_eq_iff p.bridge p.bridge,
  text_eq_iff p.ip p.ip,
  text_eq_iff l k,
  text_eq_iff l j,
)

-- What package net guarantees: the text of an address that was read is read back.
pub record IsNet (net : Net) : Type 0 where
  pub parse_show :
      (t : Text) (ip : Ip) → net.parse_ip t ≡ some ip → net.parse_ip (net.show_ip ip) ≡ some ip
  pub parse_v4 : (n : ℕ) → n < 4294967296 → net.parse_ip (net.show_ip (v4 n)) ≡ some (v4 n)

-- An address that may be given out: it is read back as one of the subnet, and is not in use.
abbrev pub Free : Net → Subnet → List Text → Text → Type 0
Free net s used ip =
    ((a : Ip) × (net.parse_ip ip ≡ some a) × (in_subnet s a ≡ true)) × (mem ip used ≡ false)

module _ {net : Net} (n : IsNet net) (s : Subnet) (small : s.gateway < 4294967296) where
  base-le : base s ≤ s.gateway
  unfolding base
  base-le = omega (arith, div-add-mod' s.gateway (2 ^ (32 - s.prefix)))

  find_slot-Free :
      (used : List Text) (count slot : ℕ)
      → slot + count ≤ 256
      → is_empty (find_slot net s used count slot) ≡ false
      → Free net s used (find_slot net s used count slot)
  unfolding find_slot
  find_slot-Free used zero slot h e = absurd (ground arith)
  find_slot-Free used (suc count) slot h e =
      let k = base s / 256 * 256 + slot in
      elim (Bool-cases
        (in_subnet s (v4 k) && not (k == base s) && not (mem (net.show_ip (v4 k)) used))) [
          | inl y ↦ rw y ((v4 k, n.parse_v4 k (omega (arith, base-le)), ground arith), ground arith)
          | inr off ↦ rw off (find_slot-Free used count (suc slot) (omega arith) (rw off at e))
        ]

  pub candidate-Free :
      (used : List Text) (requested ip : Text)
      → candidate net s used requested ≡ ok ip
      → is_empty ip ≡ false
      → Free net s used ip
  unfolding candidate
  candidate-Free used [] ip e h =
      let f = ok-injective e in
      subst (λ t. Free net s used t) f (find_slot-Free used 140 100 (omega arith) (rw f h))
  candidate-Free used (c ∷ cs) ip e h = elim (Option-cases (net.parse_ip (c ∷ cs))) [
    | inl bad ↦ absurd (ground arith)
    | inr (a, found) ↦ elim (Bool-cases (not (in_subnet s a) || mem (net.show_ip a) used)) [
      | inl bad ↦ absurd (ground arith)
      | inr good ↦
          let shown = ok-injective (rw (found, good) at e) in
          subst (λ t. Free net s used t) shown
            ((a, n.parse_show (c ∷ cs) a found, ground arith), ground arith)
    ]
  ]
