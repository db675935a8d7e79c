-- ===== src/Backend.antt =====
-- The parts of internal/driver that both backends share: the calls of the host, the names of
-- resources, the state of an instance, and the disks that may be used. An attempt is a function that
-- returns an error besides its result; a `do` block of attempts returns the first error.
pub mod Disks
pub mod Snapshots
pub mod Replacement
pub mod Journal
pub mod Retention
pub mod Cutover
pub mod Outcomes
pub mod Restoring
pub mod Staging
use virtualis_agent.Common.{
  ℕ, Bool, true, false, ◌&&◌, ◌||◌, List, [], ◌∷◌, ◌++◌, Option, Result, ok, err, if◌then◌else◌,
  leb, ◌==◌, by_result, length,
}
use virtualis_agent.Common.Int.{ℤ}
use virtualis_agent.Common.Sorting.{filter}
use virtualis_agent.Common.Text.{
  Text, text, is, is_empty, fold, trim_space, split, decimal, to_upper, ◌=ₜ◌,
}
use virtualis_agent.Protocol.{Instance}
use virtualis_agent.Driver.{Host}

abbrev pub Attempt : Type 0 → Type 0 → Type 0
Attempt W A = Host W (Result A)

module _ {W : Type 0} where
  infixl 5 ◌>>=◌ ◌>>◌
  unfoldable pub ◌>>=◌ : {A B : Type 0} → Attempt W A → (A → Attempt W B) → Attempt W B
  ◌>>=◌ m f w = let (r, w') = m w in elim r [ ok a ↦ f a w' | err e ↦ (err e, w') ]

  unfoldable pub ◌>>◌ : {B : Type 0} → Attempt W (Unit {0}) → Attempt W B → Attempt W B
  unfolding ◌>>=◌
  m >> k = m >>= λ _. k

  unfoldable pub succeed : {A : Type 0} → A → Attempt W A
  succeed a w = (ok a, w)

  unfoldable pub fail : {A : Type 0} → Text → Attempt W A
  fail e w = (err e, w)

  unfoldable pub from_result : {A : Type 0} → Result A → Attempt W A
  from_result r w = (r, w)

  unfoldable pub unless : Bool → Text → Attempt W (Unit {0})
  unfolding succeed fail
  unless b e = if b then succeed tt else fail e

  -- A call of which the result or the error does not matter.
  unfoldable pub quietly : (W → W) → Attempt W (Unit {0})
  quietly f w = (ok tt, f w)

  -- A deferred call runs when the rest has returned, whatever it returned.
  unfoldable pub deferring : {A : Type 0} → (W → W) → Attempt W A → Attempt W A
  deferring f m w = let (r, w') = m w in (r, f w')

-- What os.Lstat or os.Stat finds: an entry, nothing, or an error that tells neither.
pub data Entry : Type 0 where
  entry : (regular : Bool) → (size : ℕ) → Entry
  absent : Entry
  unknown : Text → Entry

pub data Removal : Type 0 where
  removed missing : Removal
  kept : Text → Removal

-- A record of replacementPlan.
pub record Plan : Type 0 where
  pub phase : Text
  pub original : Instance
  pub incoming : Instance

-- A disk of a domain's XML, and what qemu-img says of an image, as the packages encoding/xml and
-- encoding/json read them.
pub record DomainDisk : Type 0 where
  pub device : Text
  pub file : Text
  pub target : Text

pub record ImageInfo : Type 0 where
  pub format : Text
  pub virtual_size : ℤ
  pub backing : Text
  pub full_backing : Text
  pub data_file : Text

-- The host as a backend calls it, with any outcome of each call. `cli` is the command of Incus that
-- is installed, `data_dir` the directory of the agent, both as they are when a method begins.
pub record Machine (W : Type 0) : Type 0 where
  pub cli : Text
  pub data_dir : Text
  pub run : List Text → Attempt W (Unit {0})
  pub output : List Text → Attempt W Text
  pub random : Attempt W ℕ
  pub lstat : Text → Host W Entry
  pub stat : Text → Host W Entry
  pub read_head : Text → ℕ → Attempt W (List ℕ)
  pub rename : Text → Text → Attempt W (Unit {0})
  pub remove : Text → Host W Removal
  pub remove_all : Text → Attempt W (Unit {0})
  pub make_dirs : Text → Attempt W (Unit {0})
  pub eval_symlinks : Text → Attempt W Text
  -- The user and group that run the machines of qemu, if the host has them.
  pub qemu_ownership : Option (ℕ × ℕ)
  pub chown : Text → ℕ × ℕ → Attempt W (Unit {0})
  pub chmod : Text → ℕ → Attempt W (Unit {0})
  -- CreateTemp and Close in a directory; for a plan also Write and Sync.
  pub make_temp : Text → Text → Attempt W Text
  pub write_plan : Text → Plan → Attempt W Text
  -- os.Remove of a temporary file, its error ignored.
  pub drop_temp : Text → W → W
  pub parse_domain : Text → Result (List DomainDisk)
  pub parse_image : Text → Result ImageInfo
  pub parse_extensions : Text → Result (List Text)
  pub absolute : Text → Result Text
  pub relative : Text → Text → Result Text

-- filepath.Join, on a directory that is clean and not empty.
unfoldable pub path_in : Text → Text → Text
path_in dir name = dir ++ b'/' ∷ name

unfoldable pub is_name_char : ℕ → Bool
is_name_char c =
    (leb b'a' c && leb c b'z')
    || (leb b'A' c && leb c b'Z')
    || (leb b'0' c && leb c b'9')
    || c == b'-'
    || c == b'_'

unfoldable pub sanitize_name : Text → Text
unfolding is_name_char
sanitize_name name =
    let kept = filter is_name_char (trim_space name) in
    if is_empty kept then text "instance" else kept

unfoldable pub resource_name : Instance → Text
unfolding sanitize_name
resource_name i = text "virtualis-" ++ decimal i.id ++ b'-' ∷ sanitize_name i.name

unfoldable pub qemu_state : Text → Result Text
qemu_state out =
    let state = fold out in
    if is state "shut off" || is state "shutoff"
    then ok (text "stopped")
    else if is state "running"
        || is state "paused"
        || is state "blocked"
        || is state "in shutdown"
        || is state "pmsuspended"
    then ok (text "running")
    else err (text "无法确认 QEMU 状态: " ++ state)

unfoldable pub incus_state_word : Text → Result Text
incus_state_word word =
    let state = to_upper (trim_space word) in
    if is state "STOPPED"
    then ok (text "stopped")
    else if is state "RUNNING" || is state "FROZEN" || is state "STARTING" || is state "STOPPING"
    then ok (text "running")
    else err (text "无法确认 Incus 状态: " ++ word)

-- A line `name,state` of the listing, if it is one of that name.
unfoldable pub state_in_line : Text → List Text → List Text
state_in_line name (n ∷ state ∷ []) = if trim_space n =ₜ name then state ∷ [] else []
state_in_line name parts = []

unfoldable pub incus_state : Text → List Text → Result Text
unfolding incus_state_word state_in_line
incus_state name [] = err (text "Incus 实例不存在或状态不可确认")
incus_state name (line ∷ lines) =
    let rest = incus_state name lines in
    elim (state_in_line name (split b',' line)) [ [] ↦ rest | state ∷ _ ↦ incus_state_word state ]

module _ {W : Type 0} (m : Machine W) where
  unfoldable pub qemu_status : Instance → Attempt W Text
  unfolding resource_name qemu_state
  qemu_status i = do
    out ← m.output (text "virsh" ∷ text "domstate" ∷ resource_name i ∷ [])
    from_result (qemu_state out)

  unfoldable pub incus_status : Instance → Attempt W Text
  unfolding resource_name incus_state
  incus_status i = do
    out ← m.output (
        m.cli
        ∷ text "list"
        ∷ resource_name i
        ∷ text "--format"
        ∷ text "csv"
        ∷ text "-c"
        ∷ text "ns"
        ∷ [])
    from_result (incus_state (resource_name i) (split 10 (trim_space out)))

-- By the status of the driver.
unfoldable pub require_stopped :
    {W : Type 0} → (Instance → Attempt W Text) → Instance → Attempt W (Unit {0})
unfolding unless
require_stopped status i = do state ← status i; unless (is state "stopped") (text "请先关闭实例并确认状态后重试")
