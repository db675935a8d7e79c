-- ===== src/Backend/Staging.antt =====
-- replacementStage of internal/driver/replacement.go draws again as long as a number is unusable.
use virtualis_agent.Common.{
  ℕ, zero, suc, ◌<◌, ◌≤◌, Bool, true, false, not, [], some, Result, ok, err, Result-cases,
  Bool-cases, inl, inr, ◌≡◌, ◌≢◌, refl, sym, ap, ◌∙◌, arith,
}
use virtualis_agent.Common.Text.{Text}
use virtualis_agent.Protocol.{Instance}
use virtualis_agent.Backend.{Machine}
use virtualis_agent.Backend.Replacement.{replacement_stage, rejected, staged}

-- A number that ends the loop, or an error that does.
abbrev pub ends : Instance → Result ℕ → Bool
ends i (ok x) = not (rejected i x)
ends i (err e) = true

-- An id that is neither 0 nor the instance's own, and below 2^31; an error is passed on.
abbrev pub Usable : Instance → Result (Instance × Text) → Type 0
Usable i (ok (stage, nonce)) =
    (0 < stage.id) × (stage.id ≢ i.id) × (stage.id < 2147483648) × (stage.root_password ≡ [])
Usable i (err e) = Unit {0}

staged-Usable : (i : Instance) (x : ℕ) → rejected i x ≡ false → Usable i (ok (staged i x))
unfolding staged
staged-Usable i x h = (ground arith, ground arith, ground arith, refl)

opposite : (b : Bool) → not b ≡ true → b ≡ false
opposite true h = sym h
opposite false h = refl

from_suc :
    (P : ℕ → Type 0) (n : ℕ) → ((f : ℕ) → n ≤ f → P (suc f)) → (fuel : ℕ) → suc n ≤ fuel → P fuel
from_suc P n h zero le = absurd (omega arith)
from_suc P n h (suc f) le = h f (omega arith)

module _ {W : Type 0} (m : Machine W) (i : Instance) where
  -- One of the next draws, at most that many, ends the loop.
  pub data Arrives : ℕ → W → Type 0 where
    now : {n : ℕ} {w : W} → ends i (m.random w).0 ≡ true → Arrives (suc n) w
    later : {n : ℕ} {w : W} → Arrives n (m.random w).1 → Arrives (suc n) w

  abbrev Returns : ℕ → W → Result (Instance × Text) → W → Type 0
  Returns fuel w r w' = replacement_stage m fuel i w ≡ (some r, w')

  -- If one of the next `n` draws ends the loop, the loop returns, the same with any fuel of at
  -- least `n`, and what it returns is an error or an instance with an id from 1 to 2^31 - 1
  -- that is not the instance's own, and without its password.
  pub replacement_stage-Arrives :
      (n : ℕ) (w : W)
      → Arrives n w
      → (r : Result (Instance × Text)) × (w' : W) × ((fuel : ℕ) → n ≤ fuel → Returns fuel w r w')
        × Usable i r
  unfolding replacement_stage
  replacement_stage-Arrives zero w a = elim a [ ]
  replacement_stage-Arrives (suc n) w (now h) = elim (Result-cases (m.random w).0) [
    | inl (e, bad) ↦
        (err e, (m.random w).1, from_suc (λ f. Returns f w _ _) n (λ f le. rw bad refl), tt)
    | inr (x, good) ↦
        let usable = opposite (rejected i x) (sym (ap (ends i) good) ∙ h) in
        (
          ok (staged i x),
          (m.random w).1,
          from_suc (λ f. Returns f w _ _) n (λ f le. rw (good, usable) refl),
          staged-Usable i x usable,
        )
  ]
  replacement_stage-Arrives (suc n) w (later a) = elim (Result-cases (m.random w).0) [
    | inl (e, bad) ↦
        (err e, (m.random w).1, from_suc (λ f. Returns f w _ _) n (λ f le. rw bad refl), tt)
    | inr (x, good) ↦ elim (Bool-cases (rejected i x)) [
      | inl again ↦
          let (r, w', same, good') = replacement_stage-Arrives n (m.random w).1 a in
          (r, w', from_suc (λ f. Returns f w r w') n (λ f le. rw (good, again) (same f le)), good')
      | inr usable ↦ (
        ok (staged i x),
        (m.random w).1,
        from_suc (λ f. Returns f w _ _) n (λ f le. rw (good, usable) refl),
        staged-Usable i x usable,
      )
    ]
  ]
