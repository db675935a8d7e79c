-- ===== src/Network.antt =====
-- internal/driver/network.go: the range of addresses that a virtual network gives out if the request
-- names none. Addresses are numbers of 32 bits, which wrap.
pub mod Bounds
use virtualis_agent.Common.{
  ℕ, ◌+◌, ◌-◌, ◌*◌, ◌/◌, ◌%◌, ◌^◌, Bool, true, false, ◌&&◌, ◌||◌, Result, ok, err, if◌then◌else◌,
  ltb, leb,
}
use virtualis_agent.Common.Text.{text}

abbrev pub address_count : ℕ
address_count = 4294967296

-- How many addresses a prefix of that length leaves.
unfoldable pub subnet_size : ℕ → ℕ
subnet_size ones = 2 ^ (32 - ones)

-- The subnet's own address: the mask drops the low bits.
unfoldable pub network_base : (subnet ones : ℕ) → ℕ
unfolding subnet_size
network_base subnet ones = subnet / subnet_size ones * subnet_size ones

-- The end of the range, and then its start, are moved into a small subnet.
unfoldable pub clamp_range : (base broadcast start end : ℕ) → Result (ℕ × ℕ)
clamp_range base broadcast start end =
    let last = if ltb (base + 1) broadcast && ltb (broadcast - 1) end then broadcast - 1 else end in
    let first = if leb last start then base + 2 else start in
    if leb last first || leb broadcast (base + 2)
    then err (text "子网过小，无法划分 DHCP 范围")
    else ok (first, last)

unfoldable pub default_dhcp_range : (subnet ones : ℕ) → Result (ℕ × ℕ)
unfolding clamp_range network_base subnet_size
default_dhcp_range subnet ones =
    let base = network_base subnet ones in
    clamp_range base (base + (subnet_size ones - 1)) ((base + 10) % address_count)
      ((base + 250) % address_count)
