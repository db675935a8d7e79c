-- ===== src/Server/Quiet/Power.antt =====
-- powerInstance of cmd/agent/main.go leaves the store alone where it answers with an error, but for
-- a request that sends a file and no instance: there the image of the stored instance is written
-- through its pointer before the driver is asked.
use virtualis_agent.Common.{
  ℕ, ◌≡◌, refl, Bool, false, ◌&&◌, ◌||◌, Option, none, some, Result, ok, err, is_some, ◌==◌,
  Bool-cases, inl, inr, arith,
}
use virtualis_agent.Common.Text.{Text}
use virtualis_agent.Protocol.{Instance, Image}
use virtualis_agent.Driver.{Driver}
use virtualis_agent.Server.{Environment, or_error, ◌>>=◌, ◌>>◌}
use virtualis_agent.Server.Images.{attach_image, attach_extra}
use virtualis_agent.Server.Create.{Parsed}
use virtualis_agent.Server.Power.{
  power_instance, power_parsed, power_target, registered_image, after_action, shared_image,
}
use virtualis_agent.Server.Quiet.{Quiet, Atomic, atomic, Quiet-pure}
use virtualis_agent.Server.Quiet.Steps.{
  quiet_steps, Quiet-attach_image, Quiet-attach_extra, Atomic-modify_200,
}

abbrev has_file : Parsed → Bool
has_file p = is_some p.upload || is_some p.extra_upload

-- A request for an action that sends a file and leaves the instance to the agent.
unfoldable pub fills_stored : Result (Parsed × Text) → Bool
fills_stored (err e) = false
fills_stored (ok (p, action)) = p.instance_.id == 0 && has_file p

no_upload {ℓ} : {A : Type ℓ} (o : Option A) → is_some o ≡ false → o ≡ none
no_upload none e = refl
no_upload (some a) e = absurd (ground (arith, e))

module _ {W : Type 0} (env : Environment W) (id : ℕ) (p : Parsed)
    (whole : (p.instance_.id == 0 && has_file p) ≡ false) where
  Quiet-image_of :
      (i j : Instance) (fresh : Image)
      → Quiet (attach_image env (shared_image id p i) p.upload fresh j)
  unfolding shared_image attach_image
  Quiet-image_of i j fresh = elim (Bool-cases (p.instance_.id == 0)) [
    | inl bare ↦ rw (no_upload p.upload (ground (arith, bare, whole))) (Quiet-pure j)
    | inr own ↦ rw own (Quiet-attach_image env p.upload fresh j)
  ]

  Quiet-extra_of :
      (i j : Instance) → Quiet (attach_extra env (shared_image id p i) p.extra_upload j)
  unfolding shared_image attach_extra
  Quiet-extra_of i j = elim (Bool-cases (p.instance_.id == 0)) [
    | inl bare ↦ rw (no_upload p.extra_upload (ground (arith, bare, whole))) (Quiet-pure j)
    | inr own ↦ rw own (Quiet-attach_extra env p.extra_upload j)
  ]

  Quiet-power_target : (i : Instance) → Quiet {W = W} (power_target id i)
  unfolding power_target
  Quiet-power_target i = search quiet_steps depth 9

  Quiet-registered_image : (i : Instance) → Quiet {W = W} (registered_image id i)
  unfolding registered_image
  Quiet-registered_image i = search quiet_steps depth 9

  Quiet-after_action :
      (d : Driver W) (l : ℕ) (action : Text) (i : Instance) → Quiet (after_action d l action i)
  unfolding after_action
  Quiet-after_action d l action i = search quiet_steps depth 9

  power_parsed-Atomic : (l : ℕ) (action : Text) → Atomic (power_parsed env l id p action)
  unfolding power_parsed
  power_parsed-Atomic l action =
      search
        (
          atomic, quiet_steps, Atomic-modify_200, Quiet-power_target, Quiet-registered_image,
          Quiet-after_action, Quiet-image_of, Quiet-extra_of,
        )
        depth 20

pub power_instance-Atomic :
    {W : Type 0} (env : Environment W) (l id : ℕ) (parsed : Result (Parsed × Text))
    → fills_stored parsed ≡ false
    → Atomic (power_instance env l id parsed)
unfolding power_instance fills_stored or_error ◌>>=◌ ◌>>◌
power_instance-Atomic env l id (err e) h = search (atomic, quiet_steps) depth 9
power_instance-Atomic env l id (ok (p, action)) h = record {
  at = (power_parsed-Atomic env id p h l action).at;
}
