-- ===== src/Server/Enforce/Frame.antt =====
-- Programs over cmd/agent/main.go's state that touch one instance in memory, with a rule for each way
-- in which steps are joined.
use virtualis_agent.Common.{
  ℕ, Bool, true, false, Option, none, some, Result, ok, err, if◌then◌else◌, by_option, by_result,
  ◌≡◌, ◌≢◌, refl, ◌∙◌, arith,
}
use virtualis_agent.Common.Map.{lookup, lookup-insert, eq_ℕ}
use virtualis_agent.Common.Text.{Text}
use virtualis_agent.Protocol.{Instance}
use virtualis_agent.Server.{
  AgentServer, Handler, Flow, reply, go, ◌>>=◌, ◌>>◌, pure, get_state, modify, on_host, on_host_,
  call, store,
}

-- All is as before but the instance in memory under an id.
pub record Frame {W : Type 0} (id : ℕ) (s t : AgentServer W) : Type 0 where
  pub others : (other : ℕ) → other ≢ id → lookup other t.instances ≡ lookup other s.instances
  pub owned : t.owned ≡ s.owned
  pub ready : t.boot_ready ≡ s.boot_ready
  pub operations : t.operations ≡ s.operations

module _ {W : Type 0} {id : ℕ} where
  pub Frame-trans : {s t u : AgentServer W} → Frame id s t → Frame id t u → Frame id s u
  Frame-trans f g = record {
    others = λ other n. g.others other n ∙ f.others other n;
    owned = g.owned ∙ f.owned;
    ready = g.ready ∙ f.ready;
    operations = g.operations ∙ f.operations;
  }

pub record Only {W A : Type 0} (id : ℕ) (m : Handler W A) : Type 0 where
  pub at : (s : AgentServer W) → Frame id s (m s).1

module _ {W : Type 0} (id : ℕ) where
  pub same : {s : AgentServer W} (w : W) → Frame id s (record s { world = w })
  same w = record { others = λ other n. refl; owned = refl; ready = refl; operations = refl }

  pub Only-pure : {A : Type 0} (a : A) → Only {W = W} id (pure a)
  unfolding pure
  Only-pure a = record { at = λ s. same s.world }

  pub Only-call :
      {A : Type 0} (f : Instance → W → A × Instance × W) (i : Instance) → Only id (call f i)
  unfolding call
  Only-call f i = record { at = λ s. same _ }

  pub Only-on_host : {A : Type 0} (f : W → A × W) → Only id (on_host f)
  unfolding on_host
  Only-on_host f = record { at = λ s. same _ }

  pub Only-on_host_ : (f : W → W) → Only id (on_host_ f)
  unfolding on_host_
  Only-on_host_ f = record { at = λ s. same _ }

  pub Only-get_state : Only {W = W} id get_state
  unfolding get_state
  Only-get_state = record { at = λ s. same s.world }

  pub Only-store : (i : Instance) → Only {W = W} id (modify (store id i))
  unfolding modify store
  Only-store i = record {
    at = λ s. record {
      others = λ other n. ground (arith, lookup-insert id other i s.instances);
      owned = refl;
      ready = refl;
      operations = refl;
    };
  }

  pub Only-flow :
      {A B : Type 0} (flow : Flow A) (s t : AgentServer W) (f : A → Handler W B)
      → Frame id s t
      → ((a : A) → Only id (f a))
      → Frame id s (((λ _. (flow, t)) >>= f) s).1
  unfolding ◌>>=◌
  Only-flow (reply r) s t f h k = h
  Only-flow (go a) s t f h k = Frame-trans h ((k a).at t)

  pub Only-bind :
      {A B : Type 0} (m : Handler W A) (f : A → Handler W B)
      → Only id m
      → ((a : A) → Only id (f a))
      → Only id (m >>= f)
  unfolding ◌>>=◌
  Only-bind m f h k = record { at = λ s. let (flow, t) = m s in Only-flow flow s t f (h.at s) k }

  pub Only-then :
      {B : Type 0} (m : Handler W (Unit {0})) (k : Handler W B)
      → Only id m
      → Only id k
      → Only id (m >> k)
  unfolding ◌>>◌
  Only-then m k h g = Only-bind m (λ _. k) h (λ _. g)

  pub Only-if :
      {A : Type 0} (b : Bool) (m n : Handler W A)
      → Only id m
      → Only id n
      → Only id (if b then m else n)
  Only-if true m n h k = h
  Only-if false m n h k = k

  pub Only-by_option :
      {A B : Type 0} (o : Option B) (m : Handler W A) (f : B → Handler W A)
      → Only id m
      → ((b : B) → Only id (f b))
      → Only id (by_option o m f)
  Only-by_option none m f h k = h
  Only-by_option (some b) m f h k = k b

  pub Only-by_result :
      {A B : Type 0} (r : Result B) (f : Text → Handler W A) (g : B → Handler W A)
      → ((e : Text) → Only id (f e))
      → ((b : B) → Only id (g b))
      → Only id (by_result r f g)
  Only-by_result (ok b) f g h k = k b
  Only-by_result (err e) f g h k = h e
