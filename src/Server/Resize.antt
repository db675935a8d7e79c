-- ===== src/Server/Resize.antt =====
-- resizeInstance of cmd/agent/resize.go.
use virtualis_agent.Common.{ℕ, ◌&&◌, not, [], Option, Result, ◌==◌, by_result}
use virtualis_agent.Common.Text.{text, is, is_empty}
use virtualis_agent.Protocol.{Instance, InstanceSpec, NetworkConfig}
use virtualis_agent.Resize.{validate_resize}
use virtualis_agent.Server.{
  Handler, instance_of, ◌>>=◌, ◌>>◌, modify, get_state, call, or_error, write, write_error,
  resolve_driver, store, apply_boot_ready,
}
use virtualis_agent.Server.Ownership.{without_password}
use virtualis_agent.Server.Create.{require}
use virtualis_agent.Server.Recovery.{needs}

pub record ResizeRequest : Type 0 where
  pub instance_ : Instance
  pub spec : InstanceSpec
  pub network : Option NetworkConfig

module _ {W : Type 0} where
  -- A request that validates goes to a driver that can resize, and only for a stopped instance.
  unfoldable pub resize_instance : ℕ → Result ResizeRequest → Handler W (Unit {0})
  resize_instance id payload =
      by_result payload (λ _. write_error 400 (text "invalid resize request"))
        (λ p. do
          require (p.instance_.id == id && not (is_empty p.instance_.name)) 400
              (text "invalid resize request")
          let i = without_password p.instance_
          _ ← or_error 400 (validate_resize i p.spec p.network)
          d ← resolve_driver i.driver
          resize ← needs d.resize (text "driver does not support resize")
          (stated, j) ← call d.status i
          status ← or_error 502 stated
          require (is status "stopped") 409 (text "stop instance before resizing")
          (resized, k) ← call (resize p.spec p.network) j
          _ ← or_error 502 resized
          s ← get_state
          let answer =
              apply_boot_ready s
                (record k { driver = d.name; status = text "stopped"; root_password = [] })
          modify (store id answer)
          write 200 (instance_of answer))
