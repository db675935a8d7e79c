-- ===== src/Driver.antt =====
-- internal/driver/driver.go: the interface that every virtualisation backend implements, the
-- optional interfaces beside it (snapshot.go, replacement.go, resize.go and, for the traffic
-- files, cmd/agent/traffic_enforce.go), and the registry that chooses a backend.
-- `W` is the state of the host outside the agent's memory. A method takes the instance by pointer:
-- a call returns the instance as the method leaves it.
pub mod Registry
pub mod Choice
use virtualis_agent.Common.{ℕ, Bool, Option, Result}
use virtualis_agent.Common.Int.{ℤ}
use virtualis_agent.Common.Text.{Text}
use virtualis_agent.Protocol.{
  Instance, InstanceSpec, NetworkConfig, NetworkSpec, NetworkStatus, Metrics, VncInfo,
}

-- A method that is given an instance, with the error or result, the instance and the host after.
abbrev pub Call : Type 0 → Type 0 → Type 0
Call W A = Instance → W → Result A × Instance × W

abbrev pub Host : Type 0 → Type 0 → Type 0
Host W A = W → A × W

pub record RecoveryDriver (W : Type 0) : Type 0 where
  pub create_snapshot : Text → Call W ℤ
  pub restore_snapshot : Text → Call W (Unit {0})
  pub delete_snapshot : Text → Call W (Unit {0})
  pub export : Text → Call W (Unit {0})
  pub import : Text → Call W (Unit {0})

-- The state of the accumulated traffic: disconnected, the network before, bytes used, the quota.
pub record TrafficStore (W : Type 0) : Type 0 where
  pub traffic_state_of : ℕ → Host W (Bool × Option NetworkConfig × ℕ × ℤ)
  pub mark_traffic_disconnected : ℕ → NetworkConfig → ℕ → ℤ → W → W
  pub mark_traffic_reconnected : ℕ → W → W

-- The outcome of ReplaceImport: success, an error before anything was switched, or a
-- ReplacementError, whose flag says that the outcome is uncertain.
pub data Replaced : Type 0 where
  replaced : Replaced
  failed : Text → Replaced
  needs_recovery : Text → (uncertain : Bool) → Replaced

pub record Driver (W : Type 0) : Type 0 where
  pub name : Text
  pub probe : Host W (Result (Unit {0}))
  pub create : Call W (Unit {0})
  pub delete : Call W (Unit {0})
  pub start : Call W (Unit {0})
  pub stop : Call W (Unit {0})
  pub restart : Call W (Unit {0})
  pub hard_start : Call W (Unit {0})
  pub hard_stop : Call W (Unit {0})
  pub hard_restart : Call W (Unit {0})
  pub reinstall : Call W (Unit {0})
  pub status : Call W Text
  pub metrics : Call W Metrics
  pub network : Call W NetworkStatus
  pub configure_network : Call W (Unit {0})
  pub vnc : Text → Call W VncInfo
  pub set_root_password : Text → Call W (Unit {0})
  pub create_network : NetworkSpec → Host W (Result (Unit {0}))
  pub delete_network : Text → Host W (Result (Unit {0}))
  -- The optional interfaces, `none` where a type assertion to them fails.
  pub recovery : Option (RecoveryDriver W)
  pub validate_import : Option (Text → Call W (Unit {0}))
  -- The original by its first instance, the incoming one by the call's.
  pub replace_import : Option (Instance → Text → Instance → W → Replaced × Instance × Instance × W)
  pub resize : Option (InstanceSpec → Option NetworkConfig → Call W (Unit {0}))
  pub traffic : Option (TrafficStore W)
