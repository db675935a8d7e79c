-- ===== src/Server/Power.antt =====
-- powerInstance of cmd/agent/main.go: start, stop, restart and reinstallation.
use virtualis_agent.Common.{
  ℕ, false, ◌&&◌, ◌||◌, not, Option, none, some, Result, err, if◌then◌else◌, ◌==◌, by_option,
}
use virtualis_agent.Common.Text.{Text, text, is, is_empty, fold, ◌=ₜ◌}
use virtualis_agent.Protocol.{Instance, Image, no_image}
use virtualis_agent.Driver.{Driver, Call}
use virtualis_agent.Server.{
  Environment, Handler, instance_of, ◌>>=◌, ◌>>◌, pure, modify, get_state, call, or_error, write,
  write_error, resolve_driver, store, stored_instance,
}
use virtualis_agent.Server.Ownership.{without_password, same_identity}
use virtualis_agent.Server.Images.{attach_image, attach_extra}
use virtualis_agent.Server.Leases.{leave_boot, apply_or_clear_nat, apply_firewall_if_running}
use virtualis_agent.Server.Create.{Parsed, names_host_path, require}

unfoldable pub status_for_action : Text → Text
status_for_action action =
    let a = fold action in
    if is a "start" || is a "restart" || is a "hard_start" || is a "hard_restart"
    then text "running"
    else text "stopped"

-- Paths on the host are believed only if the stored instance has the very same.
unfoldable pub same_image_paths : Instance → Image → Option Instance → Option Image
same_image_paths i image none = none
same_image_paths i image (some stored) = by_option stored.image (none) (λ known.
    if same_identity stored i && image.path =ₜ known.path && image.extra_path =ₜ known.extra_path
    then some known
    else none)

-- The stored instance that stands in for the body's is copied with its pointer to the image, which
-- is replaced by a pointer to a copy only where the image names a path.
unfoldable pub shared_image : ℕ → Parsed → Instance → Option ℕ
unfolding names_host_path
shared_image id p i = if p.instance_.id == 0 && not (names_host_path i.image) then some id else none

module _ {W : Type 0} where
  unfoldable pub run_action : Driver W → Text → Call W (Unit {0})
  run_action d action i w =
      let a = fold action in
      if is a "start"
      then d.start i w
      else if is a "stop"
      then d.stop i w
      else if is a "restart"
      then d.restart i w
      else if is a "hard_start"
      then d.hard_start i w
      else if is a "hard_stop"
      then d.hard_stop i w
      else if is a "hard_restart"
      then d.hard_restart i w
      else if is a "reinstall"
      then d.reinstall i w
      else (err (text "不支持的操作"), i, w)

  -- A body with no instance stands for the stored one.
  unfoldable pub power_target : ℕ → Instance → Handler W Instance
  unfolding stored_instance
  power_target id i = do
    s ← get_state
    if i.id == 0
        then (by_option (stored_instance id s)
            (write_error 400 (text "instance not found on agent")) (λ stored. pure stored))
        else pure i

  unfoldable pub registered_image : ℕ → Instance → Handler W Instance
  unfolding stored_instance same_image_paths names_host_path
  registered_image id i = do
    s ← get_state
    if names_host_path i.image
        then (by_option i.image (pure i) (λ image.
            by_option (same_image_paths i image (stored_instance id s))
              (write_error 400 (text "unregistered host image path"))
              (λ known. pure (record i { image = some known }))))
        else pure i

  -- A reinstalled guest gets its password in the background, but for QEMU.
  unfoldable pub after_action : Driver W → ℕ → Text → Instance → Handler W Instance
  after_action d l action i =
      if is (fold action) "reinstall" && not (is_empty i.root_password) && not (is d.name "qemu")
      then (do modify (leave_boot d l false i); pure (without_password i))
      else pure i

  module _ (env : Environment W) where
    unfoldable pub power_parsed : ℕ → ℕ → Parsed → Text → Handler W (Unit {0})
    unfolding power_target registered_image shared_image run_action status_for_action after_action
    power_parsed l id p action = do
      i ← power_target id p.instance_
      require (i.id == id) 400 (text "instance id mismatch")
      j ← registered_image id i
      let shared = shared_image id p i
      k ←
          attach_image env shared p.upload
            (record no_image { driver = j.driver; type = text "disk" }) j
      m ← attach_extra env shared p.extra_upload k
      d ← resolve_driver m.driver
      (acted, n) ← call (run_action d action) m
      _ ← or_error 502 acted
      o ← after_action d l action (record n { driver = d.name; status = status_for_action action })
      q ← apply_or_clear_nat env d false o
      r ← apply_firewall_if_running env d q
      modify (store id r)
      write 200 (instance_of r)

    unfoldable pub power_instance : ℕ → ℕ → Result (Parsed × Text) → Handler W (Unit {0})
    unfolding power_parsed
    power_instance l id parsed = do (p, action) ← or_error 400 parsed; power_parsed l id p action
