-- ===== src/Shell.antt =====
-- The commands that the drivers of internal/driver run on the host (run, output and commandAvailable
-- of driver.go and firewall_observed.go), with any outcome. `restore` stands for a temporary file
-- with a text and `iptables-restore --wait 5 --noflush` on it, which commits all of it or nothing.
use virtualis_agent.Common.{Bool, List, Result}
use virtualis_agent.Common.Text.{Text}
use virtualis_agent.Driver.{Host}

pub record Shell (W : Type 0) : Type 0 where
  pub available : Text → Host W Bool
  pub run : List Text → Host W (Result (Unit {0}))
  pub output : List Text → Host W (Result Text)
  pub restore : Text → Host W (Result (Unit {0}))
