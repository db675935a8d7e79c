-- ===== src/Dedicated/Triples.antt =====
-- Attempts with a precondition, a postcondition of success and one of failure on the state of the
-- host, and the rules by which they compose.
use virtualis_agent.Common.{
  Bool, true, false, Option, none, some, Result, ok, err, if◌then◌else◌, by_option, by_result, ◌≡◌,
  refl,
}
use virtualis_agent.Common.Text.{Text}
use virtualis_agent.Driver.{Host}
use virtualis_agent.Backend.{Attempt, ◌>>=◌, ◌>>◌, succeed, fail, from_result, unless, deferring}

-- A predicate on the result and the state, another on the state after an error.
abbrev pub After : {W A : Type 0} → (A → W → Type 0) → (W → Type 0) → Result A × W → Type 0
After Q E (ok a, w) = Q a w
After Q E (err e, w) = E w

pub record Triple {W A : Type 0} (P : W → Type 0) (m : Attempt W A) (Q : A → W → Type 0)
    (E : W → Type 0) : Type 0 where
  pub from : (w : W) → P w → After Q E (m w)

abbrev pub Preserves : {W A : Type 0} → (W → Type 0) → Attempt W A → Type 0
Preserves P m = Triple P m (λ _. P) P

-- A call without an error of its own.
pub record PreservesCall {W A : Type 0} (P : W → Type 0) (m : Host W A) : Type 0 where
  pub from_call : (w : W) → P w → P (m w).1

bind_onward :
    {W A B : Type 0} (Q : A → W → Type 0) (R : B → W → Type 0) (E : W → Type 0) (r : Result A)
    (w : W) (f : A → Attempt W B)
    → ((a : A) → Triple (Q a) (f a) R E)
    → After Q E (r, w)
    → After R E ((from_result r >>= f) w)
unfolding ◌>>=◌ from_result
bind_onward Q R E (ok a) w f k h = (k a).from w h
bind_onward Q R E (err e) w f k h = h

lessened :
    {W A : Type 0} (Q Q' : A → W → Type 0) (E E' : W → Type 0) (x : Result A × W)
    → ((a : A) (w : W) → Q a w → Q' a w)
    → ((w : W) → E w → E' w)
    → After Q E x
    → After Q' E' x
lessened Q Q' E E' (ok a, w) f g h = f a w h
lessened Q Q' E E' (err e, w) f g h = g w h

call_onward :
    {W A : Type 0} (Q : A → W → Type 0) (E : W → Type 0) (f : W → W) (r : Result A) (w : W)
    → ((a : A) (w : W) → Q a w → Q a (f w))
    → ((w : W) → E w → E (f w))
    → After Q E (r, w)
    → After Q E (r, f w)
call_onward Q E f (ok a) w q e h = q a w h
call_onward Q E f (err x) w q e h = e w h

module _ {W A : Type 0} {P : W → Type 0} {Q : A → W → Type 0} {E : W → Type 0} where
  pub Triple-bind :
      {B : Type 0} {R : B → W → Type 0} (m : Attempt W A) (f : A → Attempt W B)
      → Triple P m Q E
      → ((a : A) → Triple (Q a) (f a) R E)
      → Triple P (m >>= f) R E
  unfolding ◌>>=◌ from_result
  Triple-bind {R = R} m f km kf = record {
    from = λ w h. let (r, w') = m w in bind_onward Q R E r w' f kf (km.from w h);
  }

  -- A weaker postcondition.
  pub Triple-weaken :
      {Q' : A → W → Type 0} {E' : W → Type 0} (m : Attempt W A)
      → ((a : A) (w : W) → Q a w → Q' a w)
      → ((w : W) → E w → E' w)
      → Triple P m Q E
      → Triple P m Q' E'
  Triple-weaken {Q' = Q'} {E' = E'} m f g k = record {
    from = λ w h. lessened Q Q' E E' (m w) f g (k.from w h);
  }

  -- A fact that is not about the state stays.
  pub Triple-frame :
      {F : Type 0} (m : Attempt W A) → Triple P m Q E → Triple (λ w. P w × F) m (λ a w. Q a w × F) E
  Triple-frame {F = F} m k = record {
    from = λ w (h, fact).
        lessened Q (λ a w. Q a w × F) E E (m w) (λ a w q. (q, fact)) (λ w e. e) (k.from w h);
  }

  pub Triple-deferring :
      (f : W → W) (m : Attempt W A)
      → ((a : A) (w : W) → Q a w → Q a (f w))
      → ((w : W) → E w → E (f w))
      → Triple P m Q E
      → Triple P (deferring f m) Q E
  unfolding deferring
  Triple-deferring f m q e k = record {
    from = λ w h. let (r, w') = m w in call_onward Q E f r w' q e (k.from w h);
  }

module _ {W B : Type 0} {P R : W → Type 0} {Q : B → W → Type 0} {E : W → Type 0} where
  pub Triple-then :
      (m : Attempt W (Unit {0})) (k : Attempt W B)
      → Triple P m (λ _. R) E
      → Triple R k Q E
      → Triple P (m >> k) Q E
  unfolding ◌>>◌
  Triple-then m k km kk = Triple-bind m (λ _. k) km (λ _. kk)

unchanged : {W A : Type 0} (P : W → Type 0) (r : Result A) (w : W) → P w → After (λ _. P) P (r, w)
unchanged P (ok a) w h = h
unchanged P (err e) w h = h

state_of : {W A : Type 0} (P : W → Type 0) (x : Result A × W) → After (λ _. P) P x → P x.1
state_of P (ok a, w) h = h
state_of P (err e, w) h = h

module _ {W : Type 0} {P : W → Type 0} where
  pub Preserves-succeed : {A : Type 0} (a : A) → Preserves P (succeed a)
  unfolding succeed
  Preserves-succeed a = record { from = λ w h. h }

  pub Preserves-fail : {A : Type 0} (e : Text) → Preserves {A = A} P (fail e)
  unfolding fail
  Preserves-fail e = record { from = λ w h. h }

  pub Preserves-from_result : {A : Type 0} (r : Result A) → Preserves P (from_result r)
  unfolding from_result
  Preserves-from_result r = record { from = λ w h. unchanged P r w h }

  pub Preserves-unless : (b : Bool) (e : Text) → Preserves P (unless b e)
  unfolding unless
  Preserves-unless true e = Preserves-succeed tt
  Preserves-unless false e = Preserves-fail e

  pub Preserves-if :
      {A : Type 0} (b : Bool) (m n : Attempt W A)
      → Preserves P m
      → Preserves P n
      → Preserves P (if b then m else n)
  Preserves-if true m n km kn = km
  Preserves-if false m n km kn = kn

  -- Whatever the result.
  pub Preserves-state : {A : Type 0} (m : Attempt W A) → Preserves P m → (w : W) → P w → P (m w).1
  Preserves-state m k w h = state_of P (m w) (k.from w h)

with_equation :
    {W A : Type 0} (P : W → Type 0) (r : Result A) (w : W)
    → P w
    → After (λ a w. P w × (r ≡ ok a)) P (r, w)
with_equation P (ok a) w h = (h, refl)
with_equation P (err e) w h = h

module _ {W : Type 0} {P : W → Type 0} where
  pub Triple-from_result :
      {A : Type 0} (r : Result A) → Triple P (from_result r) (λ a w. P w × (r ≡ ok a)) P
  unfolding from_result
  Triple-from_result r = record { from = λ w h. with_equation P r w h }

  pub Triple-unless : (b : Bool) (e : Text) → Triple P (unless b e) (λ _ w. P w × (b ≡ true)) P
  unfolding unless succeed fail
  Triple-unless true e = record { from = λ w h. (h, refl) }
  Triple-unless false e = record { from = λ w h. h }

module _ {W A : Type 0} {P : W → Type 0} where
  pub Preserves-PreservesCall : (m : Attempt W A) → Preserves P m → PreservesCall P m
  Preserves-PreservesCall m k = record { from_call = λ w h. Preserves-state m k w h }

-- The same for attempts that name the state.
module _ {W A : Type 0} {P : W → Type 0} where
  pub Preserves-by_result :
      {B : Type 0} (r : Result B) (f : Text → Attempt W A) (g : B → Attempt W A)
      → ((e : Text) → Preserves P (f e))
      → ((b : B) → Preserves P (g b))
      → Preserves P (λ w. by_result r (λ e. f e w) (λ b. g b w))
  Preserves-by_result (ok b) f g kf kg = kg b
  Preserves-by_result (err e) f g kf kg = kf e

  pub Preserves-by_option :
      {B : Type 0} (o : Option B) (m : Attempt W A) (g : B → Attempt W A)
      → Preserves P m
      → ((b : B) → Preserves P (g b))
      → Preserves P (λ w. by_option o (m w) (λ b. g b w))
  Preserves-by_option none m g km kg = km
  Preserves-by_option (some b) m g km kg = kg b

  pub Preserves-option :
      {B : Type 0} (o : Option B) (m : Attempt W A) (g : B → Attempt W A)
      → Preserves P m
      → ((b : B) → Preserves P (g b))
      → Preserves P (by_option o m g)
  Preserves-option none m g km kg = km
  Preserves-option (some b) m g km kg = kg b

  pub Preserves-choice :
      (b : Bool) (m n : Attempt W A)
      → Preserves P m
      → Preserves P n
      → Preserves P (λ w. if b then m w else n w)
  Preserves-choice true m n km kn = km
  Preserves-choice false m n km kn = kn

  pub Preserves-call_onward :
      {B : Type 0} (f : Host W B) (k : B → Attempt W A)
      → PreservesCall P f
      → ((b : B) → Preserves P (k b))
      → Preserves P (λ w. let (b, w') = f w in k b w')
  Preserves-call_onward f k kf kk = record {
    from = λ w h. let (b, w') = f w in (kk b).from w' (kf.from_call w h);
  }

module _ {W A B : Type 0} {P : W → Type 0} where
  onward :
      (r : Result B) (w : W) (k : B → Attempt W A)
      → ((b : B) → Preserves P (k b))
      → After (λ _. P) P (r, w)
      → After (λ _. P) P (by_result r (λ e. (err e, w)) (λ b. k b w))
  onward (ok b) w k kk h = (kk b).from w h
  onward (err e) w k kk h = h

  pub Preserves-after_attempt :
      (m : Attempt W B) (k : B → Attempt W A)
      → Preserves P m
      → ((b : B) → Preserves P (k b))
      → Preserves P (λ w. let (r, w') = m w in by_result r (λ e. (err e, w')) (λ b. k b w'))
  Preserves-after_attempt m k km kk = record {
    from = λ w h. let (r, w') = m w in onward r w' k kk (km.from w h);
  }
