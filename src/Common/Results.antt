-- ===== src/Common/Results.antt =====
-- A value with an error, as Go functions return it: `ok` where the error is nil. The error is
-- kept as its text.
use Prim.Native.Nat.{ℕ}
use mathlib.Core.Path.{◌≡◌, refl, ap}
use mathlib.Core.Logic.{◌≢◌, ◌⊎◌, inl, inr}
use native.Mathlib.Omega.{arith}
use mathlib.Core.Bool.{Bool, true, false}
use mathlib.Core.List.{List}
use mathlib.Core.Option.{Option, none, some}
use virtualis_agent.Common.Tests.{if◌then◌else◌, by_option}

pub data Result {ℓ} (A : Type ℓ) : Type ℓ where
  ok : A → Result A
  err : List ℕ → Result A

pub Result-cases {ℓ} :
    {A : Type ℓ} (r : Result A) → ((e : List ℕ) × (r ≡ err e)) ⊎ ((a : A) × (r ≡ ok a))
Result-cases (ok a) = inr (a, refl)
Result-cases (err e) = inl (e, refl)

abbrev pub is_ok {ℓ} : {A : Type ℓ} → Result A → Bool
is_ok (ok a) = true
is_ok (err e) = false

-- The two ways on from a result.
abbrev pub by_result {ℓ κ} : {A : Type ℓ} {B : Type κ} → Result A → (List ℕ → B) → (A → B) → B
by_result (ok a) f g = g a
by_result (err e) f g = f e

pub ok-injective {ℓ} : {A : Type ℓ} {a b : A} → ok a ≡ ok b → a ≡ b
ok-injective {a = a} e = ap (λ r. by_result r (λ _. a) (λ x. x)) e

pub err-ne-ok {ℓ} : {A : Type ℓ} {e : List ℕ} {a : A} → err e ≢ ok a
err-ne-ok h = ground arith

-- What a success tells of the steps before it.
pub not_failed {ℓ} :
    {A : Type ℓ} (b : Bool) (e : List ℕ) (r : Result A) (a : A)
    → (if b then err e else r) ≡ ok a
    → (b ≡ false) × (r ≡ ok a)
not_failed true e r a h = absurd (err-ne-ok h)
not_failed false e r a h = (refl, h)

pub had_some {ℓ κ} :
    {A : Type ℓ} {B : Type κ} (o : Option B) (e : List ℕ) (f : B → Result A) (a : A)
    → by_option o (err e) f ≡ ok a
    → (b : B) × ((o ≡ some b) × (f b ≡ ok a))
had_some none e f a h = absurd (err-ne-ok h)
had_some (some b) e f a h = (b, (refl, h))

pub had_ok {ℓ κ} :
    {A : Type ℓ} {B : Type κ} (r : Result B) (f : B → Result A) (a : A)
    → by_result r (λ e. err e) f ≡ ok a
    → (b : B) × ((r ≡ ok b) × (f b ≡ ok a))
had_ok (err e) f a h = absurd (err-ne-ok h)
had_ok (ok b) f a h = (b, (refl, h))
