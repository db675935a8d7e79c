-- ===== src/Common/Sorting.antt =====
-- sort.SliceStable, as insertion before the first element that does not have to stand earlier.
-- `le a b` says that `a` may stand before `b`: Go's `less` of the two the other way round, negated.
use mathlib.Core.Path.{◌≡◌, refl, sym, subst}
use mathlib.Core.Logic.{◌⊎◌, inl, inr}
use mathlib.Core.Bool.{Bool, true, false}
use mathlib.Core.List.{List, [], ◌∷◌, ◌++◌}
use native.Mathlib.Omega.{arith}
use virtualis_agent.Common.Tests.{if◌then◌else◌, Bool-cases}

pub data Among {ℓ} {A : Type ℓ} (x : A) : List A → Type ℓ where
  here : {xs : List A} → Among x (x ∷ xs)
  there : {y : A} {xs : List A} → Among x xs → Among x (y ∷ xs)

module _ {ℓ} {A : Type ℓ} where
  pub Among-cons : {x y : A} {xs : List A} → Among x (y ∷ xs) → (x ≡ y) ⊎ Among x xs
  Among-cons here = inl refl
  Among-cons (there m) = inr m

  abbrev pub is_cons : List A → Bool
  is_cons [] = false
  is_cons (x ∷ xs) = true

  pub Among-is_cons : {x : A} {xs : List A} → Among x xs → is_cons xs ≡ true
  Among-is_cons here = refl
  Among-is_cons (there m) = refl

  pub Among-append : (x : A) (xs ys : List A) → Among x (xs ++ ys) → Among x xs ⊎ Among x ys
  Among-append x [] ys m = inr m
  Among-append x (y ∷ xs) ys m = elim (Among-cons m) [
    | inl first ↦ inl (subst (λ z. Among x (z ∷ xs)) first here)
    | inr rest ↦ elim (Among-append x xs ys rest) [ inl old ↦ inl (there old) | inr new ↦ inr new ]
  ]

  pub append-Among : (x : A) (xs ys : List A) → Among x xs → Among x (xs ++ ys)
  append-Among x (x' ∷ xs) ys here = here
  append-Among x (y ∷ xs) ys (there m) = there (append-Among x xs ys m)
  append-Among x [] ys m = elim m [ ]

  pub after-Among : (x : A) (xs ys : List A) → Among x ys → Among x (xs ++ ys)
  after-Among x [] ys m = m
  after-Among x (y ∷ xs) ys m = there (after-Among x xs ys m)

  unfoldable pub filter : (A → Bool) → List A → List A
  filter p [] = []
  filter p (x ∷ xs) = if p x then x ∷ filter p xs else filter p xs

  pub Among-filter :
      (p : A → Bool) (x : A) (xs : List A) → Among x xs → p x ≡ true → Among x (filter p xs)
  unfolding filter
  Among-filter p x [] m h = elim m [ ]
  Among-filter p x (x' ∷ xs) here h = rw h here
  Among-filter p x (y ∷ xs) (there m) h = elim (Bool-cases (p y)) [
    | inl e ↦ rw e (there (Among-filter p x xs m h))
    | inr e ↦ rw e (Among-filter p x xs m h)
  ]

module _ {ℓ} {A : Type ℓ} (le : A → A → Bool) where
  unfoldable pub place : A → List A → List A
  place x [] = x ∷ []
  place x (y ∷ ys) = let rest = place x ys in if le x y then x ∷ y ∷ ys else y ∷ rest

  unfoldable pub sort_by : List A → List A
  unfolding place
  sort_by [] = []
  sort_by (x ∷ xs) = place x (sort_by xs)

  -- Nothing behind an element has to stand before it.
  pub data IsSorted : List A → Type ℓ where
    empty : IsSorted []
    front :
        {x : A} {xs : List A}
        → ((y : A) → Among y xs → le x y ≡ true)
        → IsSorted xs
        → IsSorted (x ∷ xs)

  pub Among-place : (x d : A) (xs : List A) → Among x (place d xs) → (x ≡ d) ⊎ Among x xs
  unfolding place
  Among-place x d [] m = Among-cons m
  Among-place x d (e ∷ xs) m = elim (Bool-cases (le d e)) [
    | inl y ↦ Among-cons (rw y at m)
    | inr y ↦ elim (Among-cons (rw y at m)) [
      | inl first ↦ inr (subst (λ z. Among x (z ∷ xs)) first here)
      | inr rest ↦ elim (Among-place x d xs rest) [ inl new ↦ inl new | inr old ↦ inr (there old) ]
    ]
  ]

  place-Among : (d : A) (xs : List A) → Among d (place d xs)
  unfolding place
  place-Among d [] = here
  place-Among d (e ∷ xs) = elim (Bool-cases (le d e)) [
    | inl y ↦ rw y here
    | inr y ↦ rw y (there (place-Among d xs))
  ]

  Among-place_old : (x d : A) (xs : List A) → Among x xs → Among x (place d xs)
  unfolding place
  Among-place_old x d (e ∷ xs) m = elim (Bool-cases (le d e)) [
    | inl y ↦ rw y (there m)
    | inr y ↦ elim (Among-cons m) [
      | inl first ↦ rw y (subst (λ z. Among x (z ∷ place d xs)) first here)
      | inr rest ↦ rw y (there (Among-place_old x d xs rest))
    ]
  ]
  Among-place_old x d [] m = there m

  -- Sorting keeps the elements.
  pub sort_by-Among : (x : A) (xs : List A) → Among x (sort_by xs) → Among x xs
  unfolding sort_by
  sort_by-Among x [] m = m
  sort_by-Among x (d ∷ xs) m = elim (Among-place x d (sort_by xs) m) [
    | inl new ↦ subst (λ z. Among x (z ∷ xs)) new here
    | inr old ↦ there (sort_by-Among x xs old)
  ]

  pub Among-sort_by : (x : A) (xs : List A) → Among x xs → Among x (sort_by xs)
  unfolding sort_by
  Among-sort_by x [] m = m
  Among-sort_by x (d ∷ xs) m = elim (Among-cons m) [
    | inl first ↦ subst (λ z. Among x (place z (sort_by xs))) first (place-Among x (sort_by xs))
    | inr rest ↦ Among-place_old x d (sort_by xs) (Among-sort_by x xs rest)
  ]

  pub tail-IsSorted : {x : A} {xs : List A} → IsSorted (x ∷ xs) → IsSorted xs
  tail-IsSorted (front low r) = r

  pub head-le : {x : A} {xs : List A} → IsSorted (x ∷ xs) → (y : A) → Among y xs → le x y ≡ true
  head-le (front low r) = low

  module _ (total : (a b : A) → le a b ≡ false → le b a ≡ true)
      (trans : (a b c : A) → le a b ≡ true → le b c ≡ true → le a c ≡ true) where
    place-IsSorted : (d : A) (xs : List A) → IsSorted xs → IsSorted (place d xs)
    unfolding place
    place-IsSorted d [] r =
        front (λ y m. absurd (ground (arith, Among-is_cons {x = y} {xs = []} m))) empty
    place-IsSorted d (e ∷ xs) r = elim (Bool-cases (le d e)) [
      | inl y ↦ rw y (
          front {x = d} {xs = e ∷ xs}
            (λ z m. elim (Among-cons m) [
              | inl first ↦ subst (λ u. le d u ≡ true) (sym first) y
              | inr rest ↦ trans d e z y (head-le r z rest)
            ])
            r)
      | inr y ↦ rw y (
          front {x = e} {xs = place d xs}
            (λ z m. elim (Among-place z d xs m) [
              | inl new ↦ subst (λ u. le e u ≡ true) (sym new) (total d e y)
              | inr old ↦ head-le r z old
            ])
            (place-IsSorted d xs (tail-IsSorted r)))
    ]

    pub sort_by-IsSorted : (xs : List A) → IsSorted (sort_by xs)
    unfolding sort_by
    sort_by-IsSorted [] = empty
    sort_by-IsSorted (d ∷ xs) = place-IsSorted d (sort_by xs) (sort_by-IsSorted xs)
