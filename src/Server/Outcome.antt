-- ===== src/Server/Outcome.antt =====
-- What a handler of cmd/agent has done to the instances in memory, the ownership files and the
-- readiness marks, once it answers with success.
pub mod Deletion
pub mod Creation
pub mod Owners
pub mod Gives
use virtualis_agent.Common.{
  ℕ, ◌≤◌, ◌<◌, ◌≡◌, refl, sym, subst, ◌∙◌, Bool, true, false, Option, none, some, Result, ok, err,
  by_result, arith, if◌then◌else◌,
}
use virtualis_agent.Common.Map.{Map}
use virtualis_agent.Common.Text.{Text}
use virtualis_agent.Protocol.{Instance}
use virtualis_agent.Server.{
  AgentServer, Handler, OwnerFile, Body, Response, Flow, reply, go, ◌>>=◌, ◌>>◌, write, pure,
  or_error, on_host, on_host_, call, get_state, modify, when,
}
use virtualis_agent.Server.Quiet.{view, Quiet}

abbrev pub View : Type 0
View = Map ℕ Instance × Map ℕ OwnerFile × Map ℕ Bool

pub record Ensures {W A : Type 0} (Q : View → View → Type 0) (m : Handler W A) : Type 0 where
  pub at :
      (s : AgentServer W) (r : Response)
      → (m s).0 ≡ reply r
      → r.code < 400
      → Q (view s) (view (m s).1)

module _ {W A : Type 0} {Q : View → View → Type 0} where
  pub Ensures-error :
      (code : ℕ) (body : Body) → 400 ≤ code → Ensures {W = W} {A = A} Q (write code body)
  unfolding write
  Ensures-error code body h = record { at = λ s r e l. absurd (ground arith) }

  pub Ensures-by_result :
      {B : Type 0} (r : Result B) (f : Text → Handler W A) (g : B → Handler W A)
      → ((e : Text) → Ensures Q (f e))
      → ((b : B) → Ensures Q (g b))
      → Ensures Q (by_result r f g)
  Ensures-by_result (ok b) f g p q = q b
  Ensures-by_result (err e) f g p q = p e

-- A step whose replies are all errors.
pub record Fails {W A : Type 0} (m : Handler W A) : Type 0 where
  pub at : (s : AgentServer W) (r : Response) → (m s).0 ≡ reply r → 400 ≤ r.code

module _ {W A : Type 0} where
  pub Fails-pure : (a : A) → Fails {W = W} (pure a)
  unfolding pure
  Fails-pure a = record { at = λ s r e. absurd (ground arith) }

  pub Fails-write : (code : ℕ) (body : Body) → 400 ≤ code → Fails {W = W} {A = A} (write code body)
  unfolding write
  Fails-write code body h = record { at = λ s r e. ground arith }

  pub Fails-or_error : (code : ℕ) (r : Result A) → 400 ≤ code → Fails {W = W} (or_error code r)
  unfolding or_error
  Fails-or_error code (ok a) h = record { at = λ s r e. absurd (ground arith) }
  Fails-or_error code (err e) h = record { at = λ s r e. ground arith }

  pub Fails-on_host : (f : W → A × W) → Fails (on_host f)
  unfolding on_host
  Fails-on_host f = record { at = λ s r e. absurd (ground arith) }

  pub Fails-call : (f : Instance → W → A × Instance × W) (i : Instance) → Fails (call f i)
  unfolding call
  Fails-call f i = record { at = λ s r e. absurd (ground arith) }

  pub Fails-if : (b : Bool) (m n : Handler W A) → Fails m → Fails n → Fails (if b then m else n)
  Fails-if true m n p q = p
  Fails-if false m n p q = q

  pub Fails-by_result :
      {B : Type 0} (r : Result B) (f : Text → Handler W A) (g : B → Handler W A)
      → ((e : Text) → Fails (f e))
      → ((b : B) → Fails (g b))
      → Fails (by_result r f g)
  Fails-by_result (ok b) f g p q = q b
  Fails-by_result (err e) f g p q = p e

module _ {W : Type 0} where
  pub Fails-get_state : Fails {W = W} get_state
  unfolding get_state
  Fails-get_state = record { at = λ s r e. absurd (ground arith) }

  pub Fails-on_host_ : (f : W → W) → Fails (on_host_ f)
  unfolding on_host_
  Fails-on_host_ f = record { at = λ s r e. absurd (ground arith) }

  pub Fails-modify : (f : AgentServer W → AgentServer W) → Fails (modify f)
  unfolding modify
  Fails-modify f = record { at = λ s r e. absurd (ground arith) }

  pub Fails-when : (b : Bool) (m : Handler W (Unit {0})) → Fails m → Fails (when b m)
  unfolding when
  Fails-when true m p = p
  Fails-when false m p = Fails-pure tt

module _ {W A B : Type 0} (m : Handler W A) (f : A → Handler W B) where
  Fails-bind_at :
      ((a : A) → Fails (f a))
      → (s : AgentServer W) (flow : Flow A) → (m s).0 ≡ flow
      → Fails m
      → (r : Response) → ((m >>= f) s).0 ≡ reply r
      → 400 ≤ r.code
  unfolding ◌>>=◌
  Fails-bind_at q s (reply r') e p r h = ground (arith, p.at s r')
  Fails-bind_at q s (go a) e p r h = (q a).at (m s).1 r (rw (e, ◌>>=◌) at h)

  pub Fails-bind : Fails m → ((a : A) → Fails (f a)) → Fails (m >>= f)
  Fails-bind p q = record { at = λ s r h. Fails-bind_at q s (m s).0 refl p r h }

  module _ {Q : View → View → Type 0} where
    ensured :
        ((a : A) → Ensures Q (f a))
        → (s : AgentServer W) (flow : Flow A) → (m s).0 ≡ flow
        → Quiet m
        → Fails m
        → (r : Response) → ((m >>= f) s).0 ≡ reply r
        → r.code < 400
        → Q (view s) (view ((m >>= f) s).1)
    unfolding ◌>>=◌
    ensured q s (reply r') e v p r h l = absurd (ground (arith, p.at s r'))
    ensured q s (go a) e v p r h l =
        rw (e, ◌>>=◌)
          (subst (λ x. Q x (view (f a (m s).1).1)) (v.at s)
            ((q a).at (m s).1 r (rw (e, ◌>>=◌) at h) l))

    pub Ensures-bind : Quiet m → Fails m → ((a : A) → Ensures Q (f a)) → Ensures Q (m >>= f)
    Ensures-bind v p q = record { at = λ s r h l. ensured q s (m s).0 refl v p r h l }

module _ {W B : Type 0} (m : Handler W (Unit {0})) (k : Handler W B) where
  pub Fails-then : Fails m → Fails k → Fails (m >> k)
  unfolding ◌>>◌
  Fails-then p q = Fails-bind m (λ _. k) p (λ _. q)

  pub Ensures-then :
      {Q : View → View → Type 0} → Quiet m → Fails m → Ensures Q k → Ensures Q (m >> k)
  unfolding ◌>>◌
  Ensures-then v p q = Ensures-bind m (λ _. k) v p (λ _. q)

-- The codes of the errors.
pub bad_request : 400 ≤ 400
bad_request = omega arith

pub conflict : 400 ≤ 409
conflict = omega arith

pub internal_error : 400 ≤ 500
internal_error = omega arith

pub bad_gateway : 400 ≤ 502
bad_gateway = omega arith

pub ruleset fails = (
  Fails-pure, Fails-write, Fails-or_error, Fails-on_host, Fails-call, Fails-if, Fails-get_state,
  Fails-on_host_, Fails-modify, Fails-when, Fails-by_result, Fails-bind, Fails-then, bad_request,
  conflict, internal_error, bad_gateway,
)

pub ruleset ensures = (Ensures-error, Ensures-by_result, Ensures-bind, Ensures-then, fails)
