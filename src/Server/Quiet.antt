-- ===== src/Server/Quiet.antt =====
-- Steps of cmd/agent/main.go's handlers that leave alone what the agent knows of its instances, and
-- handlers that leave it alone where they answer with an error; with a rule for each way in which
-- steps are joined.
pub mod Succeeds
pub mod Steps
pub mod Power
pub mod Handlers
pub mod Recovery
use virtualis_agent.Common.{
  ℕ, ◌≤◌, ◌<◌, ◌≡◌, refl, ◌∙◌, Bool, true, false, List, [], ◌∷◌, Option, none, some, Result, ok,
  err, if◌then◌else◌, by_result, by_option, arith,
}
use virtualis_agent.Common.Map.{Map}
use virtualis_agent.Common.Text.{Text}
use virtualis_agent.Protocol.{Instance}
use virtualis_agent.Driver.Registry.{resolve}
use virtualis_agent.Server.{
  AgentServer, Handler, OwnerFile, Body, Response, Flow, reply, go, ◌>>=◌, ◌>>◌, write, pure, when,
  or_error, get_state, modify, on_host, on_host_, deferred, call,
}

-- The instances in memory, the files of ownership and the readiness of the guests.
abbrev pub view : {W : Type 0} → AgentServer W → Map ℕ Instance × Map ℕ OwnerFile × Map ℕ Bool
view s = (s.instances, s.owned, s.boot_ready)

pub record Quiet {W A : Type 0} (m : Handler W A) : Type 0 where
  pub at : (s : AgentServer W) → view (m s).1 ≡ view s

pub record Atomic {W A : Type 0} (m : Handler W A) : Type 0 where
  pub at :
      (s : AgentServer W) (r : Response) → (m s).0 ≡ reply r → 400 ≤ r.code → view (m s).1 ≡ view s

module _ {W A : Type 0} where
  pub Quiet-pure : (a : A) → Quiet {W = W} (pure a)
  unfolding pure
  Quiet-pure a = record { at = λ s. refl }

  pub Quiet-write : (code : ℕ) (body : Body) → Quiet {W = W} {A = A} (write code body)
  unfolding write
  Quiet-write code body = record { at = λ s. refl }

  pub Quiet-or_error : (code : ℕ) (r : Result A) → Quiet {W = W} (or_error code r)
  unfolding or_error
  Quiet-or_error code (ok a) = record { at = λ s. refl }
  Quiet-or_error code (err e) = record { at = λ s. refl }

  pub Quiet-on_host : (f : W → A × W) → Quiet (on_host f)
  unfolding on_host
  Quiet-on_host f = record { at = λ s. refl }

  pub Quiet-call : (f : Instance → W → A × Instance × W) (i : Instance) → Quiet (call f i)
  unfolding call
  Quiet-call f i = record { at = λ s. refl }

  pub Quiet-if : (b : Bool) (m n : Handler W A) → Quiet m → Quiet n → Quiet (if b then m else n)
  Quiet-if true m n p q = p
  Quiet-if false m n p q = q

  pub Quiet-by_result :
      {B : Type 0} (r : Result B) (f : Text → Handler W A) (g : B → Handler W A)
      → ((e : Text) → Quiet (f e))
      → ((b : B) → Quiet (g b))
      → Quiet (by_result r f g)
  Quiet-by_result (ok b) f g p q = q b
  Quiet-by_result (err e) f g p q = p e

  pub Quiet-by_option :
      {B : Type 0} (o : Option B) (m : Handler W A) (g : B → Handler W A)
      → Quiet m
      → ((b : B) → Quiet (g b))
      → Quiet (by_option o m g)
  Quiet-by_option none m g p q = p
  Quiet-by_option (some b) m g p q = q b

  pub Quiet-deferred : (f : W → W) (m : Handler W A) → Quiet m → Quiet (deferred f m)
  unfolding deferred
  Quiet-deferred f m q = record { at = λ s. q.at s }

module _ {W : Type 0} where
  pub Quiet-get_state : Quiet {W = W} get_state
  unfolding get_state
  Quiet-get_state = record { at = λ s. refl }

  pub Quiet-on_host_ : (f : W → W) → Quiet (on_host_ f)
  unfolding on_host_
  Quiet-on_host_ f = record { at = λ s. refl }

  pub Quiet-when : (b : Bool) (m : Handler W (Unit {0})) → Quiet m → Quiet (when b m)
  unfolding when
  Quiet-when true m p = p
  Quiet-when false m p = record { at = λ s. refl }

  pub Quiet-modify :
      (f : AgentServer W → AgentServer W)
      → ((s : AgentServer W) → view (f s) ≡ view s)
      → Quiet (modify f)
  unfolding modify
  Quiet-modify f h = record { at = h }

module _ {W A B : Type 0} (m : Handler W A) (f : A → Handler W B) where
  bind_go : Flow A → AgentServer W → Flow B × AgentServer W
  bind_go (reply r) s = (reply r, s)
  bind_go (go a) s = f a s

  bind-bind_go : (s : AgentServer W) → (m >>= f) s ≡ bind_go (m s).0 (m s).1
  unfolding ◌>>=◌ bind_go
  bind-bind_go s = ground arith

  bind_go-view :
      ((a : A) → Quiet (f a))
      → (flow : Flow A) (s : AgentServer W) → view (bind_go flow s).1 ≡ view s
  unfolding bind_go
  bind_go-view q (reply r) s = refl
  bind_go-view q (go a) s = (q a).at s

  pub Quiet-bind : Quiet m → ((a : A) → Quiet (f a)) → Quiet (m >>= f)
  Quiet-bind p q = record { at = λ s. rw bind-bind_go (bind_go-view q (m s).0 (m s).1 ∙ p.at s) }

  bind_go-Atomic :
      ((a : A) → Atomic (f a))
      → (flow : Flow A) (s : AgentServer W) (r : Response) → (bind_go flow s).0 ≡ reply r
      → 400 ≤ r.code
      → view (bind_go flow s).1 ≡ view s
  unfolding bind_go
  bind_go-Atomic q (reply r') s r e h = refl
  bind_go-Atomic q (go a) s r e h = (q a).at s r e h

  pub Atomic-bind : Quiet m → ((a : A) → Atomic (f a)) → Atomic (m >>= f)
  Atomic-bind p q = record {
    at = λ s r e h.
        rw bind-bind_go (bind_go-Atomic q (m s).0 (m s).1 r (rw bind-bind_go at e) h ∙ p.at s);
  }

module _ {W B : Type 0} (m : Handler W (Unit {0})) (k : Handler W B) where
  pub Quiet-then : Quiet m → Quiet k → Quiet (m >> k)
  unfolding ◌>>◌
  Quiet-then p q = Quiet-bind m (λ _. k) p (λ _. q)

  pub Atomic-then : Quiet m → Atomic k → Atomic (m >> k)
  unfolding ◌>>◌
  Atomic-then p q = Atomic-bind m (λ _. k) p (λ _. q)

module _ {W A : Type 0} where
  pub Atomic-of_Quiet : {m : Handler W A} → Quiet m → Atomic m
  Atomic-of_Quiet q = record { at = λ s r e h. q.at s }

  -- A change of the state is followed by no error.
  pub Atomic-modify :
      (f : AgentServer W → AgentServer W) (code : ℕ) (body : Body)
      → code < 400
      → Atomic {W = W} {A = A} (modify f >> write code body)
  unfolding ◌>>◌ ◌>>=◌ modify write
  Atomic-modify f code body h = record { at = λ s r e k. absurd (ground arith) }

  pub Atomic-write : (code : ℕ) (body : Body) → Atomic {W = W} {A = A} (write code body)
  Atomic-write code body = Atomic-of_Quiet (Quiet-write code body)

  pub Atomic-deferred : (f : W → W) (m : Handler W A) → Atomic m → Atomic (deferred f m)
  unfolding deferred
  Atomic-deferred f m q = record { at = λ s r e h. q.at s r e h }

  pub Atomic-if : (b : Bool) (m n : Handler W A) → Atomic m → Atomic n → Atomic (if b then m else n)
  Atomic-if true m n p q = p
  Atomic-if false m n p q = q

  pub Atomic-by_result :
      {B : Type 0} (r : Result B) (f : Text → Handler W A) (g : B → Handler W A)
      → ((e : Text) → Atomic (f e))
      → ((b : B) → Atomic (g b))
      → Atomic (by_result r f g)
  Atomic-by_result (ok b) f g p q = q b
  Atomic-by_result (err e) f g p q = p e

  pub Atomic-by_option :
      {B : Type 0} (o : Option B) (m : Handler W A) (g : B → Handler W A)
      → Atomic m
      → ((b : B) → Atomic (g b))
      → Atomic (by_option o m g)
  Atomic-by_option none m g p q = p
  Atomic-by_option (some b) m g p q = q b

pub ruleset quiet = (
  Quiet-pure, Quiet-write, Quiet-or_error, Quiet-on_host, Quiet-on_host_, Quiet-call, Quiet-if,
  Quiet-by_result, Quiet-by_option, Quiet-deferred, Quiet-get_state, Quiet-when, Quiet-bind,
  Quiet-then,
)

pub ruleset atomic = (
  quiet, Atomic-bind, Atomic-then, Atomic-write, Atomic-modify, Atomic-deferred, Atomic-if,
  Atomic-by_result, Atomic-by_option,
)
