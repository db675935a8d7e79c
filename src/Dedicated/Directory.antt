-- ===== src/Dedicated/Directory.antt =====
-- The directory of the files that internal/driver/dedicated_state.go writes: what the functions of `os`
-- and `strconv` promise of it.
use virtualis_agent.Common.{Bool, true, false, Option, some, if◌then◌else◌, is_some, ◌≡◌}
use virtualis_agent.Common.Sorting.{Among}
use virtualis_agent.Common.Text.{Text, text, ◌=ₜ◌, cut_suffix}
use virtualis_agent.Dedicated.Records.{Records, drop_temp}
use virtualis_agent.Dedicated.Triples.{Triple, Preserves}

-- The contents of the directory's files.
abbrev pub Files : Type 0
Files = Text → Option Text

abbrev pub put : Files → Text → Text → Files
put files name raw other = if name =ₜ other then some raw else files other

-- A file of the records, as opposed to a temporary one.
abbrev pub is_json : Text → Bool
is_json name = is_some (cut_suffix name (text ".json"))

-- The same records are there; temporary files do not matter.
abbrev pub Agree : Files → Files → Type 0
Agree files seen = (name : Text) → is_json name ≡ true → seen name ≡ files name

-- What the functions of `os` promise. `files` is the content of the directory in a state of the host.
pub record Directory {W : Type 0} (records : Records W) : Type 0 where
  pub files : W → Files
  pub made : (v : Files) → Preserves (λ w. Agree v (files w)) records.make_dir
  pub listed :
      (v : Files)
      → Triple
          (λ w. Agree v (files w))
          records.names
          (λ names w.
            Agree v (files w)
            × ((name : Text) → is_json name ≡ true → is_some (v name) ≡ true → Among name names))
          (λ w. Agree v (files w))
  pub was_read :
      (v : Files) (name : Text)
      → is_json name ≡ true
      → Triple
          (λ w. Agree v (files w))
          (records.read name)
          (λ content w. Agree v (files w) × (content ≡ v name))
          (λ w. Agree v (files w))
  pub created :
      (v : Files)
      → Triple
          (λ w. Agree v (files w))
          records.create_temp
          (λ temp w. Agree v (files w) × (is_json temp ≡ false))
          (λ w. Agree v (files w))
  pub written :
      (v : Files) (temp raw : Text)
      → Triple
          (λ w. Agree v (files w) × (is_json temp ≡ false))
          (records.write_temp temp raw)
          (λ _ w. Agree v (files w) × (files w temp ≡ some raw) × (is_json temp ≡ false))
          (λ w. Agree v (files w) × (is_json temp ≡ false))
  pub moved :
      (v : Files) (temp name raw : Text)
      → Triple
          (λ w. Agree v (files w) × (files w temp ≡ some raw) × (is_json temp ≡ false))
          (records.rename temp name)
          (λ _ w. Agree (put v name raw) (files w) × (is_json temp ≡ false))
          (λ w. Agree v (files w) × (is_json temp ≡ false))
  pub dropped :
      (v : Files) (temp : Text) (w : W)
      → Agree v (files w)
      → is_json temp ≡ false
      → Agree v (files (drop_temp records temp w))
