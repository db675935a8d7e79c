-- ===== src/Network/Bounds.antt =====
-- The default range of internal/driver/network.go lies inside its subnet.
use virtualis_agent.Common.{
  ℕ, zero, suc, ◌+◌, ◌-◌, ◌%◌, ◌^◌, ◌≤◌, ◌<◌, ◌≡◌, Result, ok, arith, leb, subst, inl, inr,
  Bool-cases,
}
use virtualis_agent.Network.{
  address_count, subnet_size, network_base, clamp_range, default_dhcp_range,
}

-- A range inside a subnet, beside its own address, its first host and its broadcast address.
pub record Inside (base size : ℕ) (range : Result (ℕ × ℕ)) : Type 0 where
  pub start : ℕ
  pub end : ℕ
  pub found : range ≡ ok (start, end)
  pub behind_first : base + 2 ≤ start
  pub in_order : start < end
  pub before_broadcast : end + 1 < base + size

clamp-large :
    (base size : ℕ)
    → 252 ≤ size
    → clamp_range base (base + (size - 1)) (base + 10) (base + 250) ≡ ok (base + 10, base + 250)
unfolding clamp_range
clamp-large base size h = ground arith

clamp-medium :
    (base size : ℕ)
    → 13 ≤ size
    → size < 252
    → clamp_range base (base + (size - 1)) (base + 10) (base + 250)
      ≡ ok (base + 10, base + (size - 2))
unfolding clamp_range
clamp-medium base size h k = ground (arith, sub_sub base size)
  where
    sub_sub : (b s : ℕ) → 13 ≤ s → b + (s - 1) - 1 ≡ b + (s - 2)
    sub_sub b s l = omega arith

clamp-small :
    (base size : ℕ)
    → 8 ≤ size
    → size < 13
    → clamp_range base (base + (size - 1)) (base + 10) (base + 250)
      ≡ ok (base + 2, base + (size - 2))
unfolding clamp_range
clamp-small base size h k = ground (arith, sub_sub base size)
  where
    sub_sub : (b s : ℕ) → 8 ≤ s → b + (s - 1) - 1 ≡ b + (s - 2)
    sub_sub b s l = omega arith

clamp-Inside :
    (base size : ℕ)
    → 8 ≤ size
    → Inside base size (clamp_range base (base + (size - 1)) (base + 10) (base + 250))
clamp-Inside base size h = elim (Bool-cases (leb 252 size)) [
  | inl large ↦ record {
    start = base + 10;
    end = base + 250;
    found = clamp-large base size (ground arith);
    behind_first = omega arith;
    in_order = omega arith;
    before_broadcast = ground arith;
  }
  | inr fewer ↦ elim (Bool-cases (leb 13 size)) [
    | inl medium ↦ record {
      start = base + 10;
      end = base + (size - 2);
      found = clamp-medium base size (ground arith) (ground arith);
      behind_first = omega arith;
      in_order = ground arith;
      before_broadcast = omega arith;
    }
    | inr small ↦ record {
      start = base + 2;
      end = base + (size - 2);
      found = clamp-small base size h (ground arith);
      behind_first = omega arith;
      in_order = omega arith;
      before_broadcast = omega arith;
    }
  ]
]

eight-le_pow : (j : ℕ) → 8 ≤ 2 ^ suc (suc (suc j))
eight-le_pow zero = omega arith
eight-le_pow (suc j) = omega (arith, eight-le_pow j)

subnet_size-le : (ones : ℕ) → ones ≤ 29 → 8 ≤ subnet_size ones
unfolding subnet_size
subnet_size-le ones h = subst (λ k. 8 ≤ 2 ^ k) (three_more ones h) (eight-le_pow (29 - ones))
  where
    three_more : (n : ℕ) → n ≤ 29 → suc (suc (suc (29 - n))) ≡ 32 - n
    three_more n l = omega arith

-- For a prefix of at most 29 bits, and a subnet whose 250th address is still below 2^32, a default
-- range is found; it starts behind the subnet's own address and its first host, is not empty and
-- ends before the broadcast address.
pub default_dhcp_range-Inside :
    (subnet ones : ℕ)
    → ones ≤ 29
    → network_base subnet ones + 250 < address_count
    → Inside (network_base subnet ones) (subnet_size ones) (default_dhcp_range subnet ones)
unfolding default_dhcp_range
default_dhcp_range-Inside subnet ones h k =
    rw
      (
        no_wrap (network_base subnet ones + 10) (omega arith),
        no_wrap (network_base subnet ones + 250) k,
      )
      (clamp-Inside (network_base subnet ones) (subnet_size ones) (subnet_size-le ones h))
  where
    no_wrap : (a : ℕ) → a < address_count → a % address_count ≡ a
    no_wrap a l = omega arith
