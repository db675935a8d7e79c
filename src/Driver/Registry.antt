-- ===== src/Driver/Registry.antt =====
-- The registry of internal/driver/driver.go: the drivers by name, and the choice of one.
use virtualis_agent.Common.{
  Bool, ℕ, ◌&&◌, not, List, [], ◌∷◌, Option, none, some, if◌then◌else◌, leb, Result, ok, err,
}
use virtualis_agent.Common.Text.{Text, text, fold, is, is_empty}
use virtualis_agent.Common.Sorting.{sort_by}
use virtualis_agent.Common.Map.{Map, lookup, insert, eq_Text}
use virtualis_agent.Driver.{Driver, Host}

pub record Registry (W : Type 0) : Type 0 where
  pub drivers : Map Text (Driver W)

unfoldable pub driver_rank : Text → ℕ
driver_rank name = if is name "incus" then 0 else if is name "qemu" then 1 else 99

module _ {W : Type 0} where
  -- A driver with no name is not registered.
  unfoldable pub register : Driver W → Registry W → Registry W
  register d r = if is_empty d.name then r else record { drivers = insert d.name d r.drivers }

  unfoldable pub get : Text → Registry W → Option (Driver W)
  get name r = lookup (fold name) r.drivers

  abbrev pub rank_le : Text × Driver W → Text × Driver W → Bool
  rank_le d e = leb (driver_rank d.0) (driver_rank e.0)

  -- The registered drivers in the order of `Names`.
  unfoldable pub by_rank : List (Text × Driver W) → List (Text × Driver W)
  unfolding sort_by
  by_rank drivers = sort_by rank_le drivers

  -- The first driver whose probe succeeds.
  unfoldable pub first_available : List (Text × Driver W) → Host W (Result (Driver W))
  first_available [] w = (err (text "no virtualization driver is installed"), w)
  first_available ((name, d) ∷ rest) w =
      let (probed, w') = d.probe w in
      elim probed [ ok _ ↦ (ok d, w') | err _ ↦ first_available rest w' ]

  -- A named driver must be registered and available; `auto` and no name take the first by rank.
  unfoldable pub resolve : Text → Registry W → Host W (Result (Driver W))
  unfolding get by_rank first_available
  resolve preferred r w =
      let name = fold preferred in
      if not (is_empty name) && not (is name "auto")
      then (elim (get name r) [
        | none ↦ (err (text "driver is not registered"), w)
        | some d ↦
            let (probed, w') = d.probe w in
            elim probed [ ok _ ↦ (ok d, w') | err _ ↦ (err (text "driver unavailable"), w') ]
      ])
      else first_available (by_rank r.drivers) w
