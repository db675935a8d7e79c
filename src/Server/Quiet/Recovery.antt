-- ===== src/Server/Quiet/Recovery.antt =====
-- The handlers of cmd/agent/recovery.go leave the store alone where they answer with an error, but
-- for an import that is to replace an instance.
use virtualis_agent.Common.{ℕ, false, Result}
use virtualis_agent.Common.Text.{Text}
use virtualis_agent.Protocol.{Instance}
use virtualis_agent.Driver.{Driver, RecoveryDriver}
use virtualis_agent.Server.{Environment, Upload}
use virtualis_agent.Server.Create.{Parsed}
use virtualis_agent.Server.Recovery.{
  snapshot_instance, snapshot_action, export_instance, export_to, save_recovery_upload,
}
use virtualis_agent.Server.Import.{import_instance, import_from, import_verified, keep_imported}
use virtualis_agent.Server.Quiet.{Quiet, Atomic}
use virtualis_agent.Server.Quiet.Succeeds.{
  Atomic-commit, Atomic-of_Succeeds, save_owned_instance-Commits,
}
use virtualis_agent.Server.Quiet.Steps.{quiet_steps}
use virtualis_agent.Server.Quiet.Handlers.{steps, successes}

module _ {W : Type 0} where
  Quiet-snapshot_action :
      (recovery : RecoveryDriver W) (action name : Text) (i : Instance)
      → Quiet (snapshot_action recovery action name i)
  unfolding snapshot_action
  Quiet-snapshot_action recovery action name i = search quiet_steps depth 14

  pub snapshot_instance-Atomic :
      (id : ℕ) (payload : Result (Instance × Text × Text))
      → Atomic {W = W} (snapshot_instance id payload)
  unfolding snapshot_instance
  snapshot_instance-Atomic id payload =
      search (steps, Quiet-snapshot_action, Atomic-of_Succeeds, successes) depth 16

  Quiet-import_verified :
      (d : Driver W) (recovery : RecoveryDriver W) (path : Text) (i : Instance)
      → Quiet (import_verified d recovery path i)
  unfolding import_verified
  Quiet-import_verified d recovery path i = search quiet_steps depth 14

module _ {W : Type 0} (env : Environment W) where
  Quiet-export_to :
      (d : Driver W) (recovery : RecoveryDriver W) (i : Instance) (path : Text)
      → Quiet (export_to env d recovery i path)
  unfolding export_to
  Quiet-export_to d recovery i path = search quiet_steps depth 14

  pub export_instance-Atomic :
      (id : ℕ) (payload : Result Instance) → Atomic (export_instance env id payload)
  unfolding export_instance
  export_instance-Atomic id payload = search (steps, Quiet-export_to) depth 14

  Quiet-save_recovery_upload : (upload : Upload) → Quiet (save_recovery_upload env upload)
  unfolding save_recovery_upload
  Quiet-save_recovery_upload upload = search quiet_steps depth 14

  keep_imported-Atomic : (i : Instance) → Atomic (keep_imported env i)
  unfolding keep_imported
  keep_imported-Atomic i =
      search (steps, Atomic-commit, save_owned_instance-Commits, successes) depth 14

  import_from-Atomic :
      (d : Driver W) (recovery : RecoveryDriver W) (id : ℕ) (path : Text) (i : Instance)
      → Atomic (import_from env d recovery id false path i)
  unfolding import_from
  import_from-Atomic d recovery id path i =
      search (steps, Quiet-import_verified, keep_imported-Atomic) depth 16

  pub import_instance-Atomic :
      (id : ℕ) (parsed : Result Parsed) → Atomic (import_instance env id false parsed)
  unfolding import_instance
  import_instance-Atomic id parsed =
      search (steps, Quiet-save_recovery_upload, import_from-Atomic) depth 18
