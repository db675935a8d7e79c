-- ===== src/Traffic/Meter.antt =====
-- The accounting of internal/driver/traffic.go against what an instance really transfers: network
-- counters that grow with the traffic, restart from 0, and are read from time to time.
use virtualis_agent.Common.{
  ℕ, ◌+◌, ◌%◌, ◌≤◌, ◌<◌, ◌≡◌, refl, ◌∙◌, Bool, true, false, List, [], ◌∷◌, arith,
}
use virtualis_agent.Common.Int.{ℤ}
use virtualis_agent.Traffic.{word, delta, accumulate_traffic_usage, TrafficState, fresh, observed}

pub data Event : Type 0 where
  transfer : (rx tx : ℕ) → Event
  restart : Event
  sample : (quota : ℤ) → Event

-- The counters, all the bytes transferred so far, and the agent's state.
pub record Meter : Type 0 where
  pub rx : ℕ
  pub tx : ℕ
  pub total : ℕ
  pub state : TrafficState

unfoldable pub happen : Event → Meter → Meter
unfolding observed
happen (transfer rx tx) m = record m { rx = m.rx + rx; tx = m.tx + tx; total = m.total + rx + tx }
happen restart m = record m { rx = 0; tx = 0 }
happen (sample quota) m = record m { state = observed quota m.rx m.tx m.state }

unfoldable pub run : List Event → Meter → Meter
unfolding happen
run [] m = m
run (e ∷ es) m = run es (happen e m)

abbrev pub start : Meter
start = record { rx = 0; tx = 0; total = 0; state = fresh }

-- What the agent has counted, with what it would count now.
unfoldable pub counted : Meter → ℕ
unfolding delta
counted m = m.state.used_bytes + delta m.state.last_rx m.rx + delta m.state.last_tx m.tx

delta_grows : (last now more : ℕ) → delta last (now + more) ≤ delta last now + more
unfolding delta
delta_grows last now more = ground arith

delta_zero : (last : ℕ) → delta last 0 ≡ 0
unfolding delta
delta_zero last = ground arith

delta_self : (n : ℕ) → delta n n ≡ 0
unfolding delta
delta_self n = ground arith

mod_small : (a : ℕ) → a < word → a % word ≡ a
mod_small a h = omega arith

counted_sample :
    (quota : ℤ) (m : Meter) → counted m < word → counted (happen (sample quota) m) ≡ counted m
unfolding happen counted observed accumulate_traffic_usage
counted_sample quota m h = omega (
  arith,
  delta_self m.rx,
  delta_self m.tx,
  mod_small (m.state.used_bytes + delta m.state.last_rx m.rx) (omega arith),
  mod_small (m.state.used_bytes + delta m.state.last_rx m.rx + delta m.state.last_tx m.tx)
      (omega arith),
)

happen-counted :
    (e : Event) (m : Meter)
    → (happen e m).total < word
    → counted m ≤ m.total
    → counted (happen e m) ≤ (happen e m).total
unfolding happen counted
happen-counted (transfer rx tx) m h k =
    omega (arith, delta_grows m.state.last_rx m.rx rx, delta_grows m.state.last_tx m.tx tx)
happen-counted restart m h k = omega (arith, delta_zero m.state.last_rx, delta_zero m.state.last_tx)
happen-counted (sample quota) m h k = omega (arith, counted_sample quota m (omega arith))

total_grows : (e : Event) (m : Meter) → m.total ≤ (happen e m).total
unfolding happen
total_grows (transfer rx tx) m = omega arith
total_grows restart m = omega arith
total_grows (sample quota) m = omega arith

run-total_grows : (es : List Event) (m : Meter) → m.total ≤ (run es m).total
unfolding run
run-total_grows [] m = omega arith
run-total_grows (e ∷ es) m = omega (arith, total_grows e m, run-total_grows es (happen e m))

run-counted :
    (es : List Event) (m : Meter)
    → (run es m).total < word
    → counted m ≤ m.total
    → counted (run es m) ≤ (run es m).total
unfolding run
run-counted [] m h k = k
run-counted (e ∷ es) m h k =
    run-counted es (happen e m) h
      (happen-counted e m (omega (arith, run-total_grows es (happen e m))) k)

start-counted : counted start ≡ 0
unfolding counted delta
start-counted = refl

-- Whatever the order of transfers, restarts of the counters and readings, the agent never counts
-- more bytes than have been transferred, as long as these are fewer than 2^64.
pub used-le_total :
    (es : List Event)
    → (run es start).total < word
    → (run es start).state.used_bytes ≤ (run es start).total
unfolding counted
used-le_total es h = omega (arith, run-counted es start h (omega (arith, start-counted)))

abbrev pub restarts : List Event → Bool
restarts [] = false
restarts (restart ∷ es) = true
restarts (_ ∷ es) = restarts es

-- The last reading is not ahead of the counters.
abbrev Behind : Meter → Type 0
Behind m = (m.state.last_rx ≤ m.rx) × (m.state.last_tx ≤ m.tx) × (counted m ≡ m.total)

transfer-Behind : (rx tx : ℕ) (m : Meter) → Behind m → Behind (happen (transfer rx tx) m)
unfolding happen counted delta
transfer-Behind rx tx m (h, k, e) = (omega arith, omega arith, ground arith)

sample-Behind :
    (quota : ℤ) (m : Meter) → m.total < word → Behind m → Behind (happen (sample quota) m)
unfolding happen observed accumulate_traffic_usage
sample-Behind quota m h (k, l, e) =
    (omega arith, omega arith, counted_sample quota m (omega arith) ∙ e)

run-Behind :
    (es : List Event) (m : Meter)
    → restarts es ≡ false
    → (run es m).total < word
    → Behind m
    → Behind (run es m)
unfolding run
run-Behind [] m n h k = k
run-Behind (transfer rx tx ∷ es) m n h k =
    run-Behind es (happen (transfer rx tx) m) n h (transfer-Behind rx tx m k)
run-Behind (restart ∷ es) m n h k = absurd (ground arith)
run-Behind (sample quota ∷ es) m n h k = run-Behind es (happen (sample quota) m) n h (
    sample-Behind quota m
      (omega (arith, total_grows (sample quota) m, run-total_grows es (happen (sample quota) m))) k)

-- If the counters do not restart, a reading counts every byte transferred so far, as long as these
-- are fewer than 2^64.
pub used-eq_total :
    (es : List Event) (quota : ℤ)
    → restarts es ≡ false
    → (run es start).total < word
    → (happen (sample quota) (run es start)).state.used_bytes ≡ (run es start).total
unfolding happen counted observed accumulate_traffic_usage
used-eq_total es quota n h =
    let b = run-Behind es start n h (omega arith, omega arith, start-counted) in
    omega (
      arith,
      b.2,
      mod_small
          ((run es start).state.used_bytes + delta (run es start).state.last_rx (run es start).rx)
          (omega (arith, b.2)),
      mod_small (counted (run es start)) (omega (arith, b.2)),
    )
