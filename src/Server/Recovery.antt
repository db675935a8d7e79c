-- ===== src/Server/Recovery.antt =====
-- snapshotInstance, exportInstance and saveRecoveryUpload of cmd/agent/recovery.go.
use virtualis_agent.Common.{
  ℕ, ◌+◌, Bool, false, ◌&&◌, ◌||◌, [], ◌∷◌, ◌++◌, Option, none, some, Result, ok, err,
  if◌then◌else◌, ◌==◌, ltb, leb, all, length, by_result,
}
use virtualis_agent.Common.Int.{ℤ, pos}
use virtualis_agent.Common.Text.{Text, text, is}
use virtualis_agent.Protocol.{Instance}
use virtualis_agent.Driver.{Driver, RecoveryDriver}
use virtualis_agent.Server.{
  AgentServer, Environment, Handler, Upload, size_bytes, file_at, ◌>>=◌, ◌>>◌, pure, modify, when,
  on_host, on_host_, deferred, call, or_error, write, write_error, resolve_driver, request_instance,
}
use virtualis_agent.Common.Map.{insert, eq_ℕ}
use virtualis_agent.Server.Images.{max_image_size}
use virtualis_agent.Server.Create.{require}

unfoldable pub is_alphanumeric : ℕ → Bool
is_alphanumeric c =
    (leb b'a' c && leb c b'z') || (leb b'A' c && leb c b'Z') || (leb b'0' c && leb c b'9')

-- ^[a-zA-Z0-9][a-zA-Z0-9_-]{0,63}$
unfoldable pub valid_snapshot_name : Text → Bool
unfolding is_alphanumeric
valid_snapshot_name [] = false
valid_snapshot_name (c ∷ s) =
    is_alphanumeric c
    && all (λ d. is_alphanumeric d || d == b'_' || d == b'-') s
    && leb (length s) 63

-- What is kept of a recovered instance: no password, no address, the readiness given.
unfoldable pub recovered : Bool → Instance → Instance
recovered ready i = record i { root_password = []; ssh_ready = ready; observed_ip = [] }

abbrev pub needs : {A W : Type 0} → Option A → Text → Handler W A
needs none message = write_error 400 message
needs (some a) message = pure a

module _ {W : Type 0} where
  unfoldable pub store_recovered : Instance → Bool → AgentServer W → AgentServer W
  unfolding recovered
  store_recovered i ready s = record s {
    instances = insert i.id (recovered ready i) s.instances;
    boot_ready = insert i.id ready s.boot_ready;
  }

  unfoldable pub snapshot_action :
      RecoveryDriver W → Text → Text → Instance → Handler W (ℤ × Instance)
  snapshot_action recovery action name i =
      if is action "create"
      then (do
        (made, j) ← call (recovery.create_snapshot name) i
        size ← or_error 502 made
        pure (size, j))
      else if is action "restore"
      then (do
        (made, j) ← call (recovery.restore_snapshot name) i
        _ ← or_error 502 made
        pure (pos 0, j))
      else if is action "delete"
      then (do
        (made, j) ← call (recovery.delete_snapshot name) i
        _ ← or_error 502 made
        pure (pos 0, j))
      else write_error 400 (text "invalid snapshot action")

  unfoldable pub snapshot_instance : ℕ → Result (Instance × Text × Text) → Handler W (Unit {0})
  unfolding snapshot_action store_recovered valid_snapshot_name
  snapshot_instance id payload =
      by_result payload (λ _. write_error 400 (text "invalid snapshot request"))
        (λ (i, name, action). do
          require (i.id == id && valid_snapshot_name name) 400 (text "invalid snapshot request")
          d ← resolve_driver i.driver
          recovery ← needs d.recovery (text "driver does not support recovery")
          (size, j) ← snapshot_action recovery action name i
          when (is action "restore") (
              modify (
                store_recovered
                  (record j { driver = d.name; status = text "stopped"; observed_ip = [] }) false))
          write 200 (size_bytes size))

  module _ (env : Environment W) where
    -- The directory of the export is removed when the answer is out.
    unfoldable pub export_to : Driver W → RecoveryDriver W → Instance → Text → Handler W (Unit {0})
    export_to d recovery i path = do
      (made, _) ← call (recovery.export path) i
      _ ← or_error 502 made
      size ← on_host (env.file_size path)
      by_result size (λ _. write_error 400 (text "backup exceeds maximum size"))
          (λ n.
            if ltb max_image_size n
            then write_error 400 (text "backup exceeds maximum size")
            else write 200 (file_at path))

    unfoldable pub export_instance : ℕ → Result Instance → Handler W (Unit {0})
    unfolding export_to
    export_instance id payload = do
      i ← or_error 400 (request_instance id payload)
      d ← resolve_driver i.driver
      recovery ← needs d.recovery (text "driver does not support export")
      created ← on_host env.create_export_dir
      dir ← or_error 500 created
      deferred (env.remove dir) (
          export_to d recovery i
            (dir ++ text (if is d.name "incus" then "/backup.tar.gz" else "/backup.tar")))

    -- An upload that fails, is empty or is too long is removed again.
    unfoldable pub save_recovery_upload : Upload → Handler W (Result Text)
    save_recovery_upload upload = do
      created ← on_host env.create_recovery_file
      by_result created (λ e. pure (err e))
          (λ path. do
            copied ← on_host (env.copy_upload upload path (max_image_size + 1))
            by_result copied (λ e. do on_host_ (env.remove path); pure (err e))
                (λ n.
                  if n == 0 || ltb max_image_size n
                  then (do on_host_ (env.remove path); pure (err (text "invalid archive size")))
                  else pure (ok path)))
