-- ===== src/Common/Lists.antt =====
-- Lists measured and indexed by native numbers, under the library's names.
use Prim.Native.Nat.{ℕ, zero, suc, ◌+◌, ◌<◌, compare, Ordering}
use mathlib.Core.Path.{◌≡◌, refl, ap}
use mathlib.Core.Logic.{◌≢◌, ◌⊎◌, inl, inr}
use mathlib.Core.Bool.{Bool, true, ◌&&◌}
use mathlib.Core.List.{List, [], ◌∷◌, ◌++◌}
use mathlib.Core.Option.{Option, none, some}
use native.Mathlib.Omega.{arith}

module _ {ℓ} {A : Type ℓ} where
  abbrev pub length : List A → ℕ
  length [] = 0
  length (x ∷ xs) = suc (length xs)

  abbrev pub get_elem? : List A → ℕ → Option A
  get_elem? [] i = none
  get_elem? (x ∷ xs) zero = some x
  get_elem? (x ∷ xs) (suc i) = get_elem? xs i

  -- A write out of bounds changes nothing.
  abbrev pub set : List A → ℕ → A → List A
  set [] i v = []
  set (x ∷ xs) zero v = v ∷ xs
  set (x ∷ xs) (suc i) v = x ∷ set xs i v

  abbrev pub take : ℕ → List A → List A
  take zero xs = []
  take (suc n) [] = []
  take (suc n) (x ∷ xs) = x ∷ take n xs

  abbrev pub drop : ℕ → List A → List A
  drop zero xs = xs
  drop (suc n) [] = []
  drop (suc n) (x ∷ xs) = drop n xs

  abbrev pub all : (A → Bool) → List A → Bool
  all p [] = true
  all p (x ∷ xs) = p x && all p xs

  pub length-append : (xs ys : List A) → length (xs ++ ys) ≡ length xs + length ys
  length-append [] ys = omega arith
  length-append (x ∷ xs) ys = omega (arith, length-append xs ys)

module _ {ℓ} {A : Type ℓ} where
  pub get_elem?-set_self :
      (xs : List A) (i : ℕ) (v w : A) → get_elem? xs i ≡ some w → get_elem? (set xs i v) i ≡ some v
  get_elem?-set_self [] i v w h = ground arith
  get_elem?-set_self (x ∷ xs) zero v w h = refl
  get_elem?-set_self (x ∷ xs) (suc i) v w h = get_elem?-set_self xs i v w h

  pub get_elem?-set_ne :
      (xs : List A) (i j : ℕ) (v : A) → i ≢ j → get_elem? (set xs i v) j ≡ get_elem? xs j
  get_elem?-set_ne [] i j v h = refl
  get_elem?-set_ne (x ∷ xs) zero zero v h = absurd (h refl)
  get_elem?-set_ne (x ∷ xs) zero (suc j) v h = refl
  get_elem?-set_ne (x ∷ xs) (suc i) zero v h = refl
  get_elem?-set_ne (x ∷ xs) (suc i) (suc j) v h = get_elem?-set_ne xs i j v (λ e. h (ap suc e))

  pub get_elem?-concat :
      (xs : List A) (v : A) (i : ℕ)
      → ((i < length xs) × (get_elem? (xs ++ v ∷ []) i ≡ get_elem? xs i))
        ⊎ ((i ≡ length xs) × (get_elem? (xs ++ v ∷ []) i ≡ some v))
        ⊎ ((length xs < i) × (get_elem? (xs ++ v ∷ []) i ≡ none))
  get_elem?-concat [] v zero = inr (inl (refl, refl))
  get_elem?-concat [] v (suc i) = inr (inr (omega arith, refl))
  get_elem?-concat (x ∷ xs) v zero = inl (omega arith, refl)
  get_elem?-concat (x ∷ xs) v (suc i) = elim (get_elem?-concat xs v i) [
    | inl (h, e) ↦ inl (omega arith, e)
    | inr (inl (h, e)) ↦ inr (inl (ap suc h, e))
    | inr (inr (h, e)) ↦ inr (inr (omega arith, e))
  ]

  pub lt-length_of_get_elem? :
      (xs : List A) (i : ℕ) (v : A) → get_elem? xs i ≡ some v → i < length xs
  lt-length_of_get_elem? [] i v h = ground arith
  lt-length_of_get_elem? (x ∷ xs) zero v h = omega arith
  lt-length_of_get_elem? (x ∷ xs) (suc i) v h = omega (arith, lt-length_of_get_elem? xs i v h)

-- Occurrences of a number, and the removal of the first one.
abbrev pub count : ℕ → List ℕ → ℕ
count a [] = 0
count a (x ∷ xs) = elim (compare a x) [ Ordering.eq ↦ suc (count a xs) | _ ↦ count a xs ]

abbrev pub erase : ℕ → List ℕ → List ℕ
erase a [] = []
erase a (x ∷ xs) = elim (compare a x) [ Ordering.eq ↦ xs | _ ↦ x ∷ erase a xs ]

pub count-erase_self :
    (a : ℕ) (xs : List ℕ) → 0 < count a xs → suc (count a (erase a xs)) ≡ count a xs
count-erase_self a [] h = absurd (omega arith)
count-erase_self a (x ∷ xs) h = ground (arith, count-erase_self a xs)

pub count-erase_ne : (a b : ℕ) (xs : List ℕ) → a ≢ b → count b (erase a xs) ≡ count b xs
count-erase_ne a b [] h = refl
count-erase_ne a b (x ∷ xs) h = ground (arith, count-erase_ne a b xs h)
