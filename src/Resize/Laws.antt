-- ===== src/Resize/Laws.antt =====
-- What a resize request that internal/driver/resize.go accepts cannot do.
use virtualis_agent.Common.{
  ◌≡◌, refl, Bool, true, false, ◌&&◌, ◌||◌, not, Option, some, Result, ok, err, arith,
  if◌then◌else◌, subst, err-ne-ok,
}
use virtualis_agent.Common.Int.{ℤ, pos, ◌≤ℤ◌, ltb_ℤ, leb_ℤ}
use virtualis_agent.Common.Text.{Text, ◌=ₜ◌, text_eq_iff, is_empty}
use virtualis_agent.Protocol.{Instance, InstanceSpec, NetworkConfig}
use virtualis_agent.Resize.{
  canonical_arch, valid_spec, same_attachment, validate_network, validate_resize, within,
  same_slices,
}

-- What the new specification may not change, and what an address of the network is.
pub record Harmless (i : Instance) (s : InstanceSpec) (n : Option NetworkConfig) : Type 0 where
  pub no_shrinking : i.spec.disk_gb ≤ℤ s.disk_gb
  pub cpu_range : (pos 1 ≤ℤ s.cpu) × (s.cpu ≤ℤ pos 4096)
  pub milli_range : (pos 0 ≤ℤ s.cpu_milli) × (s.cpu_milli ≤ℤ pos 4096000)
  pub memory_range : (pos 128 ≤ℤ s.memory_mb) × (s.memory_mb ≤ℤ pos 16777216)
  pub disk_range : (pos 1 ≤ℤ s.disk_gb) × (s.disk_gb ≤ℤ pos 65536)
  pub same_arch :
      is_empty s.arch ≡ false
      → is_empty i.spec.arch ≡ false
      → canonical_arch s.arch ≡ canonical_arch i.spec.arch
  pub network_kept :
      (c : NetworkConfig)
      → n ≡ some c
      → (pos 0 ≤ℤ c.bandwidth_mbps)
        × (pos 0 ≤ℤ c.traffic_gb)
        × (c.mode ≡ i.network.mode)
        × (c.dedicated_mode ≡ i.network.dedicated_mode)
        × (c.bridge ≡ i.network.bridge)
        × (c.mac ≡ i.network.mac)
        × (c.ipv4 ≡ i.network.ipv4)
        × (c.gateway ≡ i.network.gateway)

leb_ℤ-le : (a b : ℤ) → leb_ℤ a b ≡ true → a ≤ℤ b
leb_ℤ-le a b h = ground arith

ltb_ℤ-le : (a b : ℤ) → ltb_ℤ a b ≡ false → b ≤ℤ a
ltb_ℤ-le a b h = ground arith

within-le : (lo hi x : ℤ) → within lo hi x ≡ true → (lo ≤ℤ x) × (x ≤ℤ hi)
within-le lo hi x h = (leb_ℤ-le lo x (ground arith), leb_ℤ-le x hi (ground arith))

four_true :
    (a b c d : Bool) → (a && b && c && d) ≡ true → (a ≡ true) × (b ≡ true) × (c ≡ true) × (d ≡ true)
four_true a b c d h = ground arith

-- The four ranges, each with its two ends.
valid_spec-ranges :
    (s : InstanceSpec)
    → valid_spec s ≡ true
    → ((pos 1 ≤ℤ s.cpu) × (s.cpu ≤ℤ pos 4096))
      × ((pos 0 ≤ℤ s.cpu_milli) × (s.cpu_milli ≤ℤ pos 4096000))
      × ((pos 128 ≤ℤ s.memory_mb) × (s.memory_mb ≤ℤ pos 16777216))
      × ((pos 1 ≤ℤ s.disk_gb) × (s.disk_gb ≤ℤ pos 65536))
unfolding valid_spec
valid_spec-ranges s h =
    let (a, b, c, d) =
      four_true (within (pos 1) (pos 4096) s.cpu) (within (pos 0) (pos 4096000) s.cpu_milli)
        (within (pos 128) (pos 16777216) s.memory_mb) (within (pos 1) (pos 65536) s.disk_gb) h in
    (
      within-le (pos 1) (pos 4096) s.cpu a,
      within-le (pos 0) (pos 4096000) s.cpu_milli b,
      within-le (pos 128) (pos 16777216) s.memory_mb c,
      within-le (pos 1) (pos 65536) s.disk_gb d,
    )

seven_true :
    (a b c d e f g : Bool)
    → (a && b && c && d && e && f && g) ≡ true
    → (a ≡ true) × (b ≡ true) × (c ≡ true) × (d ≡ true) × (e ≡ true) × (f ≡ true)
seven_true a b c d e f g h = ground arith

same_attachment-eq :
    (a b : NetworkConfig)
    → same_attachment a b ≡ true
    → (a.mode ≡ b.mode)
      × (a.dedicated_mode ≡ b.dedicated_mode)
      × (a.bridge ≡ b.bridge)
      × (a.mac ≡ b.mac)
      × (a.ipv4 ≡ b.ipv4)
      × (a.gateway ≡ b.gateway)
unfolding same_attachment
same_attachment-eq a b h =
    let (m, d, r, c, i, g) =
      seven_true (a.mode =ₜ b.mode) (a.dedicated_mode =ₜ b.dedicated_mode) (a.bridge =ₜ b.bridge)
        (a.mac =ₜ b.mac) (a.ipv4 =ₜ b.ipv4) (a.gateway =ₜ b.gateway) (same_slices a.dns b.dns) h in
    (
      (text_eq_iff a.mode b.mode).0 m,
      (text_eq_iff a.dedicated_mode b.dedicated_mode).0 d,
      (text_eq_iff a.bridge b.bridge).0 r,
      (text_eq_iff a.mac b.mac).0 c,
      (text_eq_iff a.ipv4 b.ipv4).0 i,
      (text_eq_iff a.gateway b.gateway).0 g,
    )

-- A chain of refusals that lets a value through has refused nowhere.
passed :
    (b : Bool) (e : Text) (r : Result (Unit {0}))
    → (if b then err e else r) ≡ ok tt
    → (b ≡ false) × (r ≡ ok tt)
passed true e r h = absurd (err-ne-ok h)
passed false e r h = (refl, h)

validate_network-kept :
    (i : Instance) (c : NetworkConfig)
    → validate_network i (some c) ≡ ok tt
    → (pos 0 ≤ℤ c.bandwidth_mbps)
      × (pos 0 ≤ℤ c.traffic_gb)
      × (c.mode ≡ i.network.mode)
      × (c.dedicated_mode ≡ i.network.dedicated_mode)
      × (c.bridge ≡ i.network.bridge)
      × (c.mac ≡ i.network.mac)
      × (c.ipv4 ≡ i.network.ipv4)
      × (c.gateway ≡ i.network.gateway)
unfolding validate_network
validate_network-kept i c h =
    let (quota, h') = passed (ltb_ℤ c.bandwidth_mbps (pos 0) || ltb_ℤ c.traffic_gb (pos 0)) _ _ h in
    let (same, _) = passed (not (same_attachment c i.network)) _ _ h' in
    let (m, d, r, k, v, g) = same_attachment-eq c i.network (ground arith) in
    (
      ltb_ℤ-le c.bandwidth_mbps (pos 0) (ground arith),
      ltb_ℤ-le c.traffic_gb (pos 0) (ground arith),
      m,
      d,
      r,
      k,
      v,
      g,
    )

-- A resize that is accepted has every size in its range, does not shrink the disk, does not change
-- the architecture where both name one, and gives the network, if it gives one, quotas that are not
-- negative and the modes, the bridge, the hardware address, the IPv4 address and the gateway that
-- the instance has.
pub validate_resize-Harmless :
    (i : Instance) (s : InstanceSpec) (n : Option NetworkConfig)
    → validate_resize i s n ≡ ok tt
    → Harmless i s n
unfolding validate_resize
validate_resize-Harmless i s n h =
    let (bad_spec, h1) = passed (not (valid_spec s)) _ _ h in
    let (shrinks, h2) = passed (ltb_ℤ s.disk_gb i.spec.disk_gb) _ _ h1 in
    let (other_arch, h3) =
      passed
        (not (is_empty s.arch)
          && not (is_empty i.spec.arch)
          && not (canonical_arch s.arch =ₜ canonical_arch i.spec.arch))
        _ _ h2 in
    let (a, b, c, d) = valid_spec-ranges s (ground arith) in
    record {
      no_shrinking = ltb_ℤ-le s.disk_gb i.spec.disk_gb shrinks;
      cpu_range = a;
      milli_range = b;
      memory_range = c;
      disk_range = d;
      same_arch =
          λ p q. ground (arith, text_eq_iff (canonical_arch s.arch) (canonical_arch i.spec.arch));
      network_kept =
          λ c e. validate_network-kept i c (subst (λ x. validate_network i x ≡ ok tt) e h3);
    }
