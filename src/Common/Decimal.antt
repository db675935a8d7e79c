-- ===== src/Common/Decimal.antt =====
-- The digits that strconv.FormatUint writes, and texts that contain others.
use Prim.Native.Nat.{ℕ, zero, suc, ◌+◌, ◌*◌, ◌/◌, ◌%◌, ◌<◌}
use mathlib.Core.Path.{◌≡◌, refl, ◌∙◌}
use mathlib.Core.Logic.{inl, inr}
use mathlib.Core.Bool.{Bool, true, false, ◌||◌}
use mathlib.Core.List.{[], ◌∷◌, ◌++◌}
use native.Mathlib.Omega.{arith}
use virtualis_agent.Common.Tests.{ltb, ◌==◌, Bool-cases, and_true}
use virtualis_agent.Common.Text.{Text, decimal, digits_below, has_prefix, contains}

digits_below-append :
    (f n : ℕ) (acc rest : Text) → digits_below f n (acc ++ rest) ≡ digits_below f n acc ++ rest
unfolding digits_below
digits_below-append zero n acc rest = refl
digits_below-append (suc f) n acc rest = elim (Bool-cases (ltb n 10)) [
  | inl small ↦ rw small refl
  | inr large ↦ rw large (digits_below-append f (n / 10) _ rest)
]

-- Any bound above the number gives all its digits.
digits_below-bound :
    (f g n : ℕ) (acc : Text) → n < f → n < g → digits_below f n acc ≡ digits_below g n acc
unfolding digits_below
digits_below-bound zero g n acc a b = absurd (omega arith)
digits_below-bound (suc f) zero n acc a b = absurd (omega arith)
digits_below-bound (suc f) (suc g) n acc a b = elim (Bool-cases (ltb n 10)) [
  | inl small ↦ rw small refl
  | inr large ↦ rw large (digits_below-bound f g (n / 10) _ (ground arith) (ground arith))
]

-- A further digit stands at the end.
pub decimal-digit : (n d : ℕ) → 0 < n → d < 10 → decimal (n * 10 + d) ≡ decimal n ++ (b'0' + d) ∷ []
unfolding decimal digits_below
decimal-digit n d positive digit =
    let large : ltb (n * 10 + d) 10 ≡ false = ground arith in
    let quotient : (n * 10 + d) / 10 ≡ n = omega arith in
    let remainder : (n * 10 + d) % 10 ≡ d = omega arith in
    rw (large, quotient, remainder)
      (digits_below-bound (n * 10 + d) (suc n) n ((b'0' + d) ∷ []) (omega arith) (omega arith)
        ∙ digits_below-append (suc n) n [] ((b'0' + d) ∷ []))

pub has_prefix-append : (s p q : Text) → has_prefix s (p ++ q) ≡ true → has_prefix s p ≡ true
unfolding has_prefix
has_prefix-append s [] q h = refl
has_prefix-append [] (c ∷ p) q h = h
has_prefix-append (b ∷ s) (c ∷ p) q h =
    let (first, rest) = and_true (b == c) (has_prefix s (p ++ q)) h in
    rw (first, has_prefix-append s p q rest) refl

or_true : (b : Bool) → (b || true) ≡ true
or_true true = refl
or_true false = refl

pub contains-append : (s p q : Text) → contains s (p ++ q) ≡ true → contains s p ≡ true
unfolding contains has_prefix
contains-append [] [] q h = refl
contains-append [] (c ∷ p) q h = h
contains-append (b ∷ s) p q h = elim (Bool-cases (has_prefix (b ∷ s) (p ++ q))) [
  | inl here ↦ rw (has_prefix-append (b ∷ s) p q here) refl
  | inr later ↦ rw (contains-append s p q (rw later at h)) (or_true _)
]
