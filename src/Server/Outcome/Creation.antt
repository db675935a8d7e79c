-- ===== src/Server/Outcome/Creation.antt =====
-- What createInstance of cmd/agent/main.go requires and leaves behind.
use virtualis_agent.Common.{◌≡◌, ok, Option, none, some}
use virtualis_agent.Common.Map.{insert, eq_ℕ}
use virtualis_agent.Common.Text.{Text}
use virtualis_agent.Protocol.{Instance, Image, rewritten}
use virtualis_agent.Driver.{Driver}
use virtualis_agent.Server.{Environment, holding, Upload}
use virtualis_agent.Server.Ownership.{without_password}
use virtualis_agent.Server.Images.{save_image, attach_image, attach_extra}
use virtualis_agent.Server.Create.{Parsed, real_status}
use virtualis_agent.Server.Outcome.{View, Fails, fails}

-- What a driver makes of an instance that the request describes, but for its image.
pub record MadeBy {W : Type 0} (d : Driver W) (p : Parsed) (i : Instance) : Type 0 where
  pub given : Instance
  pub asked : given ≡ record p.instance_ { image = given.image }
  pub world : W
  pub succeeded : (d.create given world).0 ≡ ok tt
  pub made : i ≡ record (d.create given world).1 { driver = d.name }

-- The instance as the driver leaves it when it is asked for its state, with that state.
pub record FoundBy {W : Type 0} (d : Driver W) (i k : Instance) : Type 0 where
  pub world : W
  pub found : k ≡ record (d.status i world).1 { status = real_status (d.status i world).0 }

abbrev Stored : {W : Type 0} → Driver W → Instance → View → View → Type 0
Stored d i (instances, owned, ready) after =
    (k : Instance) × FoundBy d i k
    × (after ≡ (insert k.id (without_password k) instances, owned, ready))

-- A new file for what the driver made, under its id, and an instance in memory for what the driver
-- then found of it, neither with a password.
abbrev pub Created : {W : Type 0} → Driver W → Parsed → View → View → Type 0
Created d p (instances, owned, ready) after =
    (i : Instance) × (k : Instance) × MadeBy d p i
    × FoundBy d i k
    × (after ≡ (
      insert k.id (without_password k) instances,
      insert i.id (holding (rewritten (without_password i))) owned,
      ready,
    ))

abbrev pub CreatedBySome : (W : Type 0) → Parsed → View → View → Type 0
CreatedBySome W p before after = (d : Driver W) × Created d p before after

module _ {W : Type 0} (env : Environment W) where
  save_image-Fails : (upload : Upload) → Fails (save_image env upload)
  unfolding save_image
  save_image-Fails upload = search fails depth 9

  attach_image-Fails :
      (upload : Option Upload) (fresh : Image) (i : Instance)
      → Fails (attach_image env none upload fresh i)
  unfolding attach_image
  attach_image-Fails none fresh i = search fails
  attach_image-Fails (some upload) fresh i = search (fails, save_image-Fails) depth 9

  attach_extra-Fails :
      (upload : Option Upload) (i : Instance) → Fails (attach_extra env none upload i)
  unfolding attach_extra
  attach_extra-Fails none i = search fails
  attach_extra-Fails (some upload) i = search (fails, save_image-Fails) depth 9

  ruleset attach = (fails, attach_image-Fails, attach_extra-Fails)
