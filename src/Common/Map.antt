-- ===== src/Common/Map.antt =====
-- Go maps as association lists, over keys with a test for equality.
use mathlib.Core.Path.{◌≡◌, refl}
use mathlib.Core.Logic.{◌↔◌}
use mathlib.Core.Bool.{Bool, true}
use mathlib.Core.Option.{Option, none, some}
use mathlib.Core.List.{List, [], ◌∷◌}
use native.Mathlib.Omega.{arith}
use Prim.Native.Nat.{ℕ}
use virtualis_agent.Common.Tests.{◌==◌, ==_iff, if◌then◌else◌}
use virtualis_agent.Common.Text.{Text, ◌=ₜ◌, text_eq_iff}

-- What a type of keys has to offer.
pub record Key {ℓ} (K : Type ℓ) : Type ℓ where
  pub same_key : K → K → Bool
  pub same_key_iff : (k l : K) → (same_key k l ≡ true) ↔ (k ≡ l)

instance abbrev pub eq_ℕ : Key ℕ
eq_ℕ = record { same_key = ◌==◌; same_key_iff = ==_iff }

instance abbrev pub eq_Text : Key Text
eq_Text = record { same_key = ◌=ₜ◌; same_key_iff = text_eq_iff }

abbrev pub Map {ℓ κ} : Type ℓ → Type κ → Type (ℓ ⊔ κ)
Map K V = List (K × V)

module _ {ℓ κ} {K : Type ℓ} {V : Type κ} ⦃o : Key K⦄ where
  unfoldable pub lookup : K → Map K V → Option V
  lookup key [] = none
  lookup key ((at, value) ∷ rest) =
      let further = lookup key rest in if o.same_key at key then some value else further

  -- In the place of the key's entry, or at the end.
  unfoldable pub insert : K → V → Map K V → Map K V
  insert key new [] = (key, new) ∷ []
  insert key new ((at, value) ∷ rest) =
      let further = insert key new rest in
      if o.same_key at key then (key, new) ∷ rest else (at, value) ∷ further

  unfoldable pub delete : K → Map K V → Map K V
  delete key [] = []
  delete key ((at, value) ∷ rest) =
      let further = delete key rest in if o.same_key at key then further else (at, value) ∷ further

  pub lookup-insert :
      (key other : K) (new : V) (entries : Map K V)
      → lookup other (insert key new entries)
        ≡ (if o.same_key key other then some new else lookup other entries)
  unfolding lookup insert
  lookup-insert key other new [] = refl
  lookup-insert key other new ((at, value) ∷ rest) = ground (
    lookup-insert key other new rest,
    o.same_key_iff at key,
    o.same_key_iff key other,
    o.same_key_iff at other,
    arith,
  )

  pub lookup-delete :
      (key other : K) (entries : Map K V)
      → lookup other (delete key entries)
        ≡ (if o.same_key key other then none else lookup other entries)
  unfolding lookup delete
  lookup-delete key other [] = ground arith
  lookup-delete key other ((at, value) ∷ rest) = ground (
    lookup-delete key other rest,
    o.same_key_iff key other,
    o.same_key_iff at key,
    o.same_key_iff at other,
    arith,
  )
