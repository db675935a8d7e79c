-- ===== src/Traffic.antt =====
-- internal/driver/traffic.go and the traffic marks of internal/driver/qemu.go and incus.go: the
-- accumulated traffic of an instance and the file that keeps it. Numbers of bytes are 64 bits wide.
pub mod Meter
pub mod Quota
pub mod Marks
use virtualis_agent.Common.{
  ℕ, ◌+◌, ◌-◌, ◌*◌, ◌%◌, ◌^◌, Bool, true, false, Option, none, some, if◌then◌else◌, leb, ◌==◌,
  or_else, is_some, by_option,
}
use virtualis_agent.Common.Int.{ℤ, pos, pos_part, leb_ℤ}
use virtualis_agent.Common.Map.{Map, lookup, insert, delete, eq_ℕ}
use virtualis_agent.Protocol.{NetworkConfig, rewritten_network}

abbrev pub word : ℕ
word = 18446744073709551616

-- 0 is no limit.
unfoldable pub traffic_quota_bytes : ℤ → ℕ
traffic_quota_bytes gb = if leb_ℤ gb (pos 0) then 0 else (pos_part gb * 1073741824) % word

unfoldable pub traffic_quota_exceeded : ℕ → ℤ → Bool
unfolding traffic_quota_bytes
traffic_quota_exceeded used gb =
    let quota = traffic_quota_bytes gb in if quota == 0 then false else leb quota used

-- A counter that is behind its last reading has been reset.
unfoldable pub delta : ℕ → ℕ → ℕ
delta last now = if leb last now then now - last else now

unfoldable pub accumulate_traffic_usage : (used rx tx now_rx now_tx : ℕ) → ℕ × ℕ × ℕ
unfolding delta
accumulate_traffic_usage used rx tx now_rx now_tx =
    (((used + delta rx now_rx) % word + delta tx now_tx) % word, now_rx, now_tx)

pub record TrafficState : Type 0 where
  pub used_bytes : ℕ
  pub last_rx : ℕ
  pub last_tx : ℕ
  pub quota_gb : ℤ
  pub original_network : Option NetworkConfig
  pub disconnected : Bool

abbrev pub fresh : TrafficState
fresh = record {
  used_bytes = 0;
  last_rx = 0;
  last_tx = 0;
  quota_gb = pos 0;
  original_network = none;
  disconnected = false;
}

-- A file that holds a state, or what does not parse.
pub data TrafficFile : Type 0 where
  holding : TrafficState → TrafficFile
  corrupt : TrafficFile

-- The directory of the files: whether the agent has one, and whether the next write and rename in
-- it succeed.
pub record TrafficDir : Type 0 where
  pub present : Bool
  pub writable : Bool
  pub files : Map ℕ TrafficFile

abbrev read : Option TrafficFile → Option TrafficState
read none = some fresh
read (some (holding st)) = some st
read (some corrupt) = none

-- `none` for errTrafficStateCorrupt.
unfoldable pub load_traffic_state_strict : ℕ → TrafficDir → Option TrafficState
load_traffic_state_strict id dir = if dir.present then read (lookup id dir.files) else some fresh

unfoldable pub load_traffic_state : ℕ → TrafficDir → TrafficState
unfolding load_traffic_state_strict
load_traffic_state id dir = or_else (load_traffic_state_strict id dir) fresh

-- What a later reading of the file gives.
abbrev pub kept_state : TrafficState → TrafficState
kept_state st = record st {
  original_network = by_option st.original_network none (λ n. some (rewritten_network n));
}

-- A failure leaves the file before it.
unfoldable pub save_traffic_state : ℕ → TrafficState → TrafficDir → TrafficDir
save_traffic_state id st dir =
    if dir.present
    then (if dir.writable
        then record dir { files = insert id (holding (kept_state st)) dir.files }
        else dir)
    else dir

unfoldable pub remove_traffic_state : ℕ → TrafficDir → TrafficDir
remove_traffic_state id dir =
    if dir.present then record dir { files = delete id dir.files } else dir

-- The state after a reading of the counters.
unfoldable pub observed : (quota : ℤ) → (now_rx now_tx : ℕ) → TrafficState → TrafficState
unfolding accumulate_traffic_usage
observed quota now_rx now_tx st =
    let (used, rx, tx) =
      accumulate_traffic_usage st.used_bytes st.last_rx st.last_tx now_rx now_tx in
    record st { used_bytes = used; last_rx = rx; last_tx = tx; quota_gb = quota }

abbrev observe_in :
    ℕ
    → (quota : ℤ) → (now_rx now_tx : ℕ) → TrafficDir
    → Option TrafficState
    → (ℕ × Bool) × TrafficDir
observe_in id quota rx tx dir none = ((0, false), dir)
observe_in id quota rx tx dir (some st) =
    let st' = observed quota rx tx st in
    ((st'.used_bytes, traffic_quota_exceeded st'.used_bytes quota), save_traffic_state id st' dir)

-- The used bytes and whether they reach the quota; a corrupt file is left alone.
unfoldable pub observe_traffic :
    ℕ → (quota : ℤ) → (now_rx now_tx : ℕ) → TrafficDir → (ℕ × Bool) × TrafficDir
unfolding load_traffic_state_strict observed save_traffic_state traffic_quota_exceeded
observe_traffic id quota rx tx dir =
    observe_in id quota rx tx dir (load_traffic_state_strict id dir)

unfoldable pub traffic_state_of : ℕ → TrafficDir → Bool × Option NetworkConfig × ℕ × ℤ
unfolding load_traffic_state
traffic_state_of id dir =
    let st = load_traffic_state id dir in
    (st.disconnected, st.original_network, st.used_bytes, st.quota_gb)

-- The first original is kept.
unfoldable pub mark_traffic_disconnected : ℕ → NetworkConfig → ℕ → ℤ → TrafficDir → TrafficDir
unfolding load_traffic_state save_traffic_state
mark_traffic_disconnected id original used quota dir =
    let st = load_traffic_state id dir in
    save_traffic_state id
      (record st {
        original_network =
            if is_some st.original_network then st.original_network else some original;
        disconnected = true;
        used_bytes = used;
        quota_gb = quota;
      })
      dir

unfoldable pub mark_traffic_reconnected : ℕ → TrafficDir → TrafficDir
unfolding load_traffic_state save_traffic_state
mark_traffic_reconnected id dir =
    save_traffic_state id
      (record (load_traffic_state id dir) { disconnected = false; original_network = none }) dir
