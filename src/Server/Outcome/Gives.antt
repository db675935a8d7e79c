-- ===== src/Server/Outcome/Gives.antt =====
-- What a step of a handler of cmd/agent hands on, for the steps after it.
use virtualis_agent.Common.{
  ℕ, ◌<◌, ◌≡◌, refl, subst, sym, ap, ok, err, none, some, Option, Result, arith,
}
use virtualis_agent.Protocol.{Instance, Image}
use virtualis_agent.Server.{
  AgentServer, Environment, Handler, Response, Flow, Upload, reply, go, ◌>>=◌, ◌>>◌, pure, or_error,
  call, write,
}
use virtualis_agent.Server.Images.{attach_image, attach_extra}
use virtualis_agent.Server.Quiet.{view, Quiet}
use virtualis_agent.Server.Outcome.{View, Ensures, Fails}

pub record Gives {W A : Type 0} (P : A → Type 0) (m : Handler W A) : Type 0 where
  pub at : (s : AgentServer W) (a : A) → (m s).0 ≡ go a → P a

go-injective : {A : Type 0} {a b : A} → go a ≡ go b → a ≡ b
go-injective {a = a} e = ap (λ f. elim f [ go x ↦ x | reply r ↦ a ]) e

module _ {W A : Type 0} (P : A → Type 0) where
  pub Gives-pure : (a : A) → P a → Gives {W = W} P (pure a)
  unfolding pure
  Gives-pure a h = record { at = λ s b e. subst P (go-injective e) h }

module _ {W A B : Type 0} (P : B → Type 0) (m : Handler W A) (f : A → Handler W B) where
  gives_at :
      ((a : A) → Gives P (f a))
      → (s : AgentServer W) (flow : Flow A) → (m s).0 ≡ flow
      → (b : B) → ((m >>= f) s).0 ≡ go b
      → P b
  unfolding ◌>>=◌
  gives_at g s (reply r) e b h = absurd (ground (arith, (rw (e, ◌>>=◌) at h)))
  gives_at g s (go a) e b h = (g a).at (m s).1 b (rw (e, ◌>>=◌) at h)

  pub Gives-bind : ((a : A) → Gives P (f a)) → Gives P (m >>= f)
  Gives-bind g = record { at = λ s b h. gives_at g s (m s).0 refl b h }

module _ {W B : Type 0} (P : B → Type 0) (m : Handler W (Unit {0})) (k : Handler W B) where
  pub Gives-then : Gives P k → Gives P (m >> k)
  unfolding ◌>>◌
  Gives-then g = Gives-bind P m (λ _. k) (λ _. g)

module _ {W : Type 0} where
  -- A driver's answer, on some host.
  abbrev pub Answered :
      {A : Type 0} → (Instance → W → A × Instance × W) → Instance → A × Instance → Type 0
  Answered f i x = (w : W) × (x ≡ ((f i w).0, (f i w).1))

  pub Gives-call :
      {A : Type 0} (f : Instance → W → A × Instance × W) (i : Instance)
      → Gives (Answered f i) (call f i)
  unfolding call
  Gives-call f i = record { at = λ s x e. (s.world, sym (go-injective e)) }

  pub Gives-or_error :
      {A : Type 0} (code : ℕ) (r : Result A) → Gives {W = W} (λ a. r ≡ ok a) (or_error code r)
  unfolding or_error pure write
  Gives-or_error code (ok a) = record { at = λ s b e. ap ok (go-injective e) }
  Gives-or_error code (err t) = record { at = λ s b e. absurd (ground (arith, e)) }

  module _ {A B : Type 0} (m : Handler W A) (f : A → Handler W B) {P : A → Type 0}
      {Q : View → View → Type 0} where
    given_at :
        ((a : A) → P a → Ensures Q (f a))
        → (s : AgentServer W) (flow : Flow A) → (m s).0 ≡ flow
        → Quiet m
        → Fails m
        → Gives P m
        → (r : Response) → ((m >>= f) s).0 ≡ reply r
        → r.code < 400
        → Q (view s) (view ((m >>= f) s).1)
    unfolding ◌>>=◌
    given_at q s (reply r') e v p g r h l = absurd (ground (arith, p.at s r'))
    given_at q s (go a) e v p g r h l =
        rw (e, ◌>>=◌)
          (subst (λ x. Q x (view (f a (m s).1).1)) (v.at s)
            ((q a (g.at s a e)).at (m s).1 r (rw (e, ◌>>=◌) at h) l))

    pub Ensures-given :
        Quiet m → Fails m → Gives P m → ((a : A) → P a → Ensures Q (f a)) → Ensures Q (m >>= f)
    Ensures-given v p g q = record { at = λ s r h l. given_at q s (m s).0 refl v p g r h l }

-- The second is the first but for its image.
abbrev pub Reimaged : Instance → Instance → Type 0
Reimaged i j = j ≡ record i { image = j.image }

module _ {W : Type 0} (env : Environment W) where
  pub Gives-attach_image :
      (upload : Option Upload) (fresh : Image) (i : Instance)
      → Gives (Reimaged i) (attach_image env none upload fresh i)
  unfolding attach_image
  Gives-attach_image none fresh i = Gives-pure (Reimaged i) i refl
  Gives-attach_image (some upload) fresh i =
      Gives-bind _ _ _
        λ saved. Gives-bind _ _ _ λ path. Gives-then _ _ _ (Gives-pure (Reimaged i) _ refl)

  pub Gives-attach_extra :
      (upload : Option Upload) (i : Instance) → Gives (Reimaged i) (attach_extra env none upload i)
  unfolding attach_extra
  Gives-attach_extra none i = Gives-pure (Reimaged i) i refl
  Gives-attach_extra (some upload) i =
      Gives-bind _ _ _
        λ saved. Gives-bind _ _ _ λ path. Gives-then _ _ _ (Gives-pure (Reimaged i) _ refl)
