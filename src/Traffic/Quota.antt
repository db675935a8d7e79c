-- ===== src/Traffic/Quota.antt =====
-- The quota of internal/driver/traffic.go in bytes, and when it is reached.
use virtualis_agent.Common.{ℕ, ◌*◌, ◌≤◌, ◌<◌, ◌≡◌, ◌↔◌, true, arith, ◌%◌}
use virtualis_agent.Common.Int.{pos}
use virtualis_agent.Traffic.{word, traffic_quota_bytes, traffic_quota_exceeded}

small_mod : (q : ℕ) → q < 17179869184 → (q * 1073741824) % word ≡ q * 1073741824
small_mod q h = omega arith

-- A quota of 1 to 2^34 - 1 gigabytes is reported as reached exactly if at least that many times
-- 2^30 bytes have been used.
pub traffic_quota_exceeded_iff :
    (used q : ℕ)
    → 0 < q
    → q < 17179869184
    → (traffic_quota_exceeded used (pos q) ≡ true) ↔ (q * 1073741824 ≤ used)
unfolding traffic_quota_exceeded traffic_quota_bytes
traffic_quota_exceeded_iff used q h k = ground (arith, small_mod q k)
