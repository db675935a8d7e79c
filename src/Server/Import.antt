-- ===== src/Server/Import.antt =====
-- importInstance of cmd/agent/recovery.go: a backup becomes a new instance, or takes the place of
-- one that is stopped.
use virtualis_agent.Common.{
  ℕ, Bool, true, false, ◌&&◌, [], Option, none, some, Result, ok, err, if◌then◌else◌, ◌==◌,
  by_result,
}
use virtualis_agent.Common.Text.{Text, text, is, ◌=ₜ◌}
use virtualis_agent.Protocol.{Instance}
use virtualis_agent.Driver.{Driver, RecoveryDriver, Replaced, replaced, failed, needs_recovery}
use virtualis_agent.Server.{
  Environment, Handler, instance_of, ◌>>=◌, ◌>>◌, pure, modify, get_state, on_host, deferred, call,
  or_error, write, write_error, resolve_driver, stored_instance, boot_ready_of,
}
use virtualis_agent.Server.Ownership.{save_owned_instance, without_password, same_identity}
use virtualis_agent.Server.Create.{Parsed, require}
use virtualis_agent.Server.Recovery.{needs, save_recovery_upload, store_recovered}

abbrev or_given : Option Instance → Instance → Instance
or_given none i = i
or_given (some stored) i = stored

abbrev is_stopped : Result Text → Bool
is_stopped (ok status) = is status "stopped"
is_stopped (err _) = false

module _ {W : Type 0} where
  -- importVerified: an import counts only if the driver then finds the instance stopped.
  unfoldable pub import_verified :
      Driver W → RecoveryDriver W → Text → Instance → Handler W Instance
  import_verified d recovery path i = do
    (imported, j) ← call (recovery.import path) i
    _ ← or_error 502 imported
    (stated, k) ← call d.status j
    status ← or_error 502 stated
    require (is status "stopped") 502 (text "imported runtime is not stopped")
    pure k

  -- A failed replacement leaves the original registered; an uncertain one as an error, not ready.
  unfoldable pub settle_replacement : Replaced → Bool → Instance → Instance → Handler W Instance
  unfolding store_recovered
  settle_replacement replaced ready original i = pure i
  settle_replacement (failed _) ready original i = do
    modify (store_recovered (record original { status = text "stopped" }) ready)
    write_error 502 (
        text
          "staged restore failed; original data retained on agent; operator recovery may be required")
  settle_replacement (needs_recovery _ true) ready original i = do
    modify (store_recovered (record original { status = text "error" }) false)
    write_error 502 (
        text
          "staged restore failed; original data retained on agent; operator recovery may be required")
  settle_replacement (needs_recovery _ false) ready original i = do
    modify (store_recovered (record original { status = text "stopped" }) ready)
    write_error 502 (
        text
          "staged restore failed; original data retained on agent; operator recovery may be required")

  unfoldable pub replace_instance : Driver W → ℕ → Text → Instance → Handler W Instance
  unfolding settle_replacement stored_instance boot_ready_of
  replace_instance d id path i = do
    s ← get_state
    let stored = or_given (stored_instance id s) i
    require (same_identity stored i && stored.type =ₜ i.type) 409
        (text "replace identity must match the original runtime")
    let ready = boot_ready_of id s
    (stated, original) ← call d.status (without_password stored)
    require (is_stopped stated) 409 (text "stop instance before restoring backup")
    staged ←
        needs d.replace_import (text "driver does not support non-destructive staged replacement")
    (outcome, kept, incoming) ←
        on_host λ w. let (o, a, b, w') = staged original path i w in ((o, a, b), w')
    settle_replacement outcome ready kept incoming

  module _ (env : Environment W) where
    unfoldable pub keep_imported : Instance → Handler W (Unit {0})
    unfolding store_recovered
    keep_imported i = do
      let stopped = record i { status = text "stopped"; root_password = [] }
      saved ← save_owned_instance env stopped
      by_result saved
          (λ _. write_error 500 (text "imported runtime retained; ownership persistence failed"))
          (λ _. do modify (store_recovered stopped false); write 200 (instance_of stopped))

    unfoldable pub import_from :
        Driver W → RecoveryDriver W → ℕ → Bool → Text → Instance → Handler W (Unit {0})
    unfolding import_verified replace_instance keep_imported
    import_from d recovery id replace path sent = do
      validate ← needs d.validate_import (text "driver does not support safe import validation")
      (valid, i) ←
          call (validate path)
            (record sent { driver = d.name; root_password = []; ssh_ready = false })
      _ ← or_error 400 valid
      j ← (if replace then replace_instance d id path i else import_verified d recovery path i)
      keep_imported j

    -- The upload is removed whatever the answer.
    unfoldable pub import_instance : ℕ → Bool → Result Parsed → Handler W (Unit {0})
    unfolding import_from save_recovery_upload
    import_instance id replace parsed =
        by_result parsed (λ _. write_error 400 (text "invalid import request"))
          (λ p. do
            require (p.instance_.id == id) 400 (text "invalid import request")
            upload ← needs p.upload (text "invalid import request")
            d ← resolve_driver p.instance_.driver
            recovery ← needs d.recovery (text "driver does not support import")
            saved ← save_recovery_upload env upload
            path ← or_error 400 saved
            deferred (env.remove path) (import_from d recovery id replace path p.instance_))
