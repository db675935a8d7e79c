-- ===== src/Dedicated/Records.antt =====
-- loadDedicatedRecord and saveDedicatedRecord of internal/driver/dedicated_state.go: one file for each
-- instance says which address it has. `Records` stands for the functions of `os` on their directory.
use virtualis_agent.Common.{
  ℕ, Bool, false, ◌&&◌, ◌||◌, not, List, [], ◌∷◌, ◌++◌, Option, none, some, Result, ok, err,
  if◌then◌else◌, ◌==◌, by_option,
}
use virtualis_agent.Common.Text.{Text, text, is, ◌=ₜ◌, decimal, cut_suffix}
use virtualis_agent.Backend.{Attempt, ◌>>=◌, ◌>>◌, succeed, from_result, unless, deferring}
use virtualis_agent.Dedicated.{DedicatedRecord, Formats, host_interface_name}

-- Names are relative to the directory.
pub record Records (W : Type 0) : Type 0 where
  pub make_dir : Attempt W (Unit {0})
  pub names : Attempt W (List Text)
  -- `none` for os.ErrNotExist
  pub read : Text → Attempt W (Option Text)
  -- os.CreateTemp with the pattern ".network-"
  pub create_temp : Attempt W Text
  -- Write, Sync and Close
  pub write_temp : Text → Text → Attempt W (Unit {0})
  pub rename : Text → Text → Attempt W (Unit {0})
  pub remove : Text → Attempt W (Unit {0})

-- The last part of networkRecordPath.
unfoldable pub record_name : ℕ → Text
record_name id = decimal id ++ text ".json"

unfoldable pub is_own_record : ℕ → DedicatedRecord → Bool
is_own_record id r =
    r.id == id
    && host_interface_name r.attachment.uplink
    && (is r.attachment.mode "routed" || is r.attachment.mode "bridge")

-- Another instance has the address.
unfoldable pub conflicts : DedicatedRecord → Option DedicatedRecord → Bool
conflicts r none = false
conflicts r (some old) = not (old.id == r.id) && old.attachment.ip =ₜ r.attachment.ip

module _ {W : Type 0} (records : Records W) where
  -- os.Remove of the temporary file, its error ignored.
  unfoldable pub drop_temp : Text → W → W
  drop_temp temp w = let (result, w') = records.remove temp w in w'

  unfoldable pub publish_record : Text → Text → Attempt W (Unit {0})
  unfolding drop_temp
  publish_record name raw = do
    temp ← records.create_temp
    deferring (drop_temp temp) (records.write_temp temp raw >> records.rename temp name)

module _ (formats : Formats) where
  -- What the content of an instance's file says.
  unfoldable pub record_in : ℕ → Option Text → Result (Option DedicatedRecord)
  unfolding is_own_record
  record_in id none = ok none
  record_in id (some raw) = elim (formats.decode_record raw) [
    | err e ↦ err e
    | ok r ↦ if is_own_record id r then ok (some r) else err (text "持久网络所有权记录损坏，拒绝清理")
  ]

  module _ {W : Type 0} (records : Records W) where
    unfoldable pub load_dedicated_record : ℕ → Attempt W (Option DedicatedRecord)
    unfolding record_in record_name
    load_dedicated_record id = do
      content ← records.read (record_name id)
      from_result (record_in id content)

    -- One entry of the directory.
    unfoldable pub check_entry : DedicatedRecord → Text → Attempt W (Unit {0})
    unfolding load_dedicated_record conflicts
    check_entry r name = by_option (cut_suffix name (text ".json")) (succeed tt) (λ digits. do
      id ← from_result (formats.parse_uint digits)
      old ← load_dedicated_record id
      unless (not (conflicts r old)) (text "IPv4 已由其他实例保留"))

    unfoldable pub check_entries : DedicatedRecord → List Text → Attempt W (Unit {0})
    unfolding check_entry
    check_entries r [] = succeed tt
    check_entries r (name ∷ names) = check_entry r name >> check_entries r names

    unfoldable pub save_dedicated_record : DedicatedRecord → Attempt W (Unit {0})
    unfolding check_entries publish_record record_name
    save_dedicated_record r = do
      records.make_dir
      names ← records.names
      check_entries r names
      raw ← from_result (formats.encode_record r)
      publish_record records (record_name r.id) raw
