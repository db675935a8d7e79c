-- ===== src/Backend/Restoring.antt =====
-- RestoreSnapshot of internal/driver/snapshot.go, for qemu: the disk in use is replaced at the end or
-- not at all.
use virtualis_agent.Common.{Bool, false, [], ◌∷◌, ◌≡◌}
use virtualis_agent.Common.Text.{Text}
use virtualis_agent.Backend.{Machine}
use virtualis_agent.Backend.Journal.{Event, ran, wrote, renamed, took, took_all, Journal}

-- A file that was renamed or removed.
unfoldable pub touches : Event → Bool
touches (ran args good) = false
touches (wrote plan path) = false
touches (renamed from to good) = good
touches (took path good) = good
touches (took_all path good) = good

pub data Untouched : Journal → Type 0 where
  fresh : Untouched []
  after : {e : Event} {l : Journal} → touches e ≡ false → Untouched l → Untouched (e ∷ l)

module _ {W : Type 0} (m : Machine W) where
  -- Nothing is said of the journal after a success.
  abbrev Anything : Unit {0} → Journal → Type 0
  Anything u l = Unit {0}
