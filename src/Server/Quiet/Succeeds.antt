-- ===== src/Server/Quiet/Succeeds.antt =====
-- Steps of cmd/agent's handlers that answer, if at all, with success; and the saving of the
-- ownership file, after which nothing fails.
use virtualis_agent.Common.{
  ℕ, ◌≤◌, ◌<◌, ◌≡◌, refl, ◌∙◌, ◌⊎◌, inl, inr, Bool, true, false, Result, ok, err, if◌then◌else◌,
  by_result, arith,
}
use virtualis_agent.Common.Text.{Text}
use virtualis_agent.Protocol.{Instance}
use virtualis_agent.Server.{
  AgentServer, Environment, Handler, Body, Response, Flow, reply, go, ◌>>=◌, ◌>>◌, write, pure,
  when, get_state, modify, on_host, on_host_, call,
}
use virtualis_agent.Server.Ownership.{save_owned_instance}
use virtualis_agent.Server.Quiet.{view, Quiet, Atomic}

pub record Succeeds {W A : Type 0} (m : Handler W A) : Type 0 where
  pub at : (s : AgentServer W) (r : Response) → (m s).0 ≡ reply r → r.code < 400

module _ {W A : Type 0} where
  pub Succeeds-pure : (a : A) → Succeeds {W = W} (pure a)
  unfolding pure
  Succeeds-pure a = record { at = λ s r e. absurd (ground arith) }

  pub Succeeds-write :
      (code : ℕ) (body : Body) → code < 400 → Succeeds {W = W} {A = A} (write code body)
  unfolding write
  Succeeds-write code body h = record { at = λ s r e. ground arith }

  pub Succeeds-on_host : (f : W → A × W) → Succeeds (on_host f)
  unfolding on_host
  Succeeds-on_host f = record { at = λ s r e. absurd (ground arith) }

  pub Succeeds-call : (f : Instance → W → A × Instance × W) (i : Instance) → Succeeds (call f i)
  unfolding call
  Succeeds-call f i = record { at = λ s r e. absurd (ground arith) }

  pub Succeeds-if :
      (b : Bool) (m n : Handler W A) → Succeeds m → Succeeds n → Succeeds (if b then m else n)
  Succeeds-if true m n p q = p
  Succeeds-if false m n p q = q

  pub Atomic-of_Succeeds : {m : Handler W A} → Succeeds m → Atomic m
  Atomic-of_Succeeds p = record { at = λ s r e h. absurd (ground (arith, p.at s r)) }

module _ {W : Type 0} where
  pub Succeeds-get_state : Succeeds {W = W} get_state
  unfolding get_state
  Succeeds-get_state = record { at = λ s r e. absurd (ground arith) }

  pub Succeeds-on_host_ : (f : W → W) → Succeeds (on_host_ f)
  unfolding on_host_
  Succeeds-on_host_ f = record { at = λ s r e. absurd (ground arith) }

  pub Succeeds-modify : (f : AgentServer W → AgentServer W) → Succeeds (modify f)
  unfolding modify
  Succeeds-modify f = record { at = λ s r e. absurd (ground arith) }

  pub Succeeds-when : (b : Bool) (m : Handler W (Unit {0})) → Succeeds m → Succeeds (when b m)
  unfolding when
  Succeeds-when true m p = p
  Succeeds-when false m p = Succeeds-pure tt

module _ {W A B : Type 0} (m : Handler W A) (f : A → Handler W B) where
  Succeeds-bind_at :
      ((a : A) → Succeeds (f a))
      → (s : AgentServer W) (flow : Flow A) → (m s).0 ≡ flow
      → Succeeds m
      → (r : Response) → ((m >>= f) s).0 ≡ reply r
      → r.code < 400
  unfolding ◌>>=◌
  Succeeds-bind_at q s (reply r') e p r h = ground (arith, p.at s r')
  Succeeds-bind_at q s (go a) e p r h = (q a).at (m s).1 r (rw (e, ◌>>=◌) at h)

  pub Succeeds-bind : Succeeds m → ((a : A) → Succeeds (f a)) → Succeeds (m >>= f)
  Succeeds-bind p q = record { at = λ s r h. Succeeds-bind_at q s (m s).0 refl p r h }

module _ {W B : Type 0} (m : Handler W (Unit {0})) (k : Handler W B) where
  pub Succeeds-then : Succeeds m → Succeeds k → Succeeds (m >> k)
  unfolding ◌>>◌
  Succeeds-then p q = Succeeds-bind m (λ _. k) p (λ _. q)

pub ruleset succeeds = (
  Succeeds-pure, Succeeds-write, Succeeds-on_host, Succeeds-call, Succeeds-if, Succeeds-get_state,
  Succeeds-on_host_, Succeeds-modify, Succeeds-when, Succeeds-bind, Succeeds-then,
)

-- A step that changes the store only where its result is no error.
pub record Commits {W : Type 0} (m : Handler W (Result (Unit {0}))) : Type 0 where
  pub at : (s : AgentServer W) → ((m s).0 ≡ go (ok tt)) ⊎ (view (m s).1 ≡ view s)

module _ {W A : Type 0} (m : Handler W (Result (Unit {0}))) (f : Text → Handler W A)
    (k : Unit {0} → Handler W A) where
  committed :
      ((e : Text) → Quiet (f e))
      → ((u : Unit {0}) → Succeeds (k u))
      → (s : AgentServer W) (flow : Flow (Result (Unit {0}))) → (m s).0 ≡ flow
      → (flow ≡ go (ok tt)) ⊎ (view (m s).1 ≡ view s)
      → (r : Response) → ((m >>= λ r'. by_result r' f k) s).0 ≡ reply r
      → 400 ≤ r.code
      → view ((m >>= λ r'. by_result r' f k) s).1 ≡ view s
  unfolding ◌>>=◌
  committed q p s (reply r') e (inl c) r h l = absurd (ground arith)
  committed q p s (reply r') e (inr c) r h l = rw (e, ◌>>=◌) c
  committed q p s (go (ok u)) e c r h l =
      absurd (ground (arith, (p u).at (m s).1 r (rw (e, ◌>>=◌) at h)))
  committed q p s (go (err t)) e (inl c) r h l = absurd (ground arith)
  committed q p s (go (err t)) e (inr c) r h l = rw (e, ◌>>=◌) ((q t).at (m s).1 ∙ c)

  -- Where no error follows a commit, a bind is atomic.
  pub Atomic-commit :
      Commits m
      → ((e : Text) → Quiet (f e))
      → ((u : Unit {0}) → Succeeds (k u))
      → Atomic (m >>= λ r. by_result r f k)
  Atomic-commit c q p = record { at = λ s r h l. committed q p s (m s).0 refl (c.at s) r h l }

-- The steps of saveOwnedInstance behind its check, by the outcomes of the two calls.
module _ {W : Type 0} (env : Environment W) where
  pub save_owned_instance-Commits : (i : Instance) → Commits (save_owned_instance env i)
  unfolding save_owned_instance ◌>>=◌ ◌>>◌ get_state modify on_host pure
  save_owned_instance-Commits i = record { at = λ s. ground arith }
