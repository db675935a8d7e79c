-- ===== src/Resize.antt =====
-- internal/driver/resize.go: which resize requests are accepted, the sizes that the backends
-- report, and the edits of a domain's XML.
pub mod Laws
pub mod Edits
pub mod Substitution
pub mod Sizes
pub mod Domain
pub mod Order
use virtualis_agent.Common.{
  ℕ, ◌+◌, ◌/◌, Bool, true, false, ◌&&◌, ◌||◌, not, List, [], ◌∷◌, Option, none, some, Result, ok,
  err, if◌then◌else◌,
}
use virtualis_agent.Common.Int.{ℤ, pos, pos_part, ltb_ℤ, leb_ℤ, eqb_ℤ}
use virtualis_agent.Common.Text.{Text, text, fold, is, is_empty, ◌=ₜ◌}
use virtualis_agent.Protocol.{Instance, InstanceSpec, NetworkConfig}

unfoldable pub canonical_arch : Text → Text
canonical_arch s =
    if is s "amd64" then text "x86_64" else if is s "arm64" then text "aarch64" else s

abbrev pub within : ℤ → ℤ → ℤ → Bool
within lo hi x = leb_ℤ lo x && leb_ℤ x hi

-- The ranges of each field of a specification.
unfoldable pub valid_spec : InstanceSpec → Bool
valid_spec s =
    within (pos 1) (pos 4096) s.cpu
    && within (pos 0) (pos 4096000) s.cpu_milli
    && within (pos 128) (pos 16777216) s.memory_mb
    && within (pos 1) (pos 65536) s.disk_gb

abbrev same_texts : List Text → List Text → Bool
same_texts [] [] = true
same_texts (s ∷ ss) (t ∷ ts) = s =ₜ t && same_texts ss ts
same_texts _ _ = false

-- reflect.DeepEqual on slices tells nil from an empty slice.
abbrev pub same_slices : Option (List Text) → Option (List Text) → Bool
same_slices none none = true
same_slices (some s) (some t) = same_texts s t
same_slices _ _ = false

-- All but the two quotas are equal.
unfoldable pub same_attachment : NetworkConfig → NetworkConfig → Bool
same_attachment a b =
    a.mode =ₜ b.mode
    && a.dedicated_mode =ₜ b.dedicated_mode
    && a.bridge =ₜ b.bridge
    && a.mac =ₜ b.mac
    && a.ipv4 =ₜ b.ipv4
    && a.gateway =ₜ b.gateway
    && same_slices a.dns b.dns

unfoldable pub validate_network : Instance → Option NetworkConfig → Result (Unit {0})
unfolding same_attachment
validate_network i none = ok tt
validate_network i (some n) =
    if ltb_ℤ n.bandwidth_mbps (pos 0) || ltb_ℤ n.traffic_gb (pos 0)
    then err (text "invalid network quota")
    else if not (same_attachment n i.network)
    then err (text "resize cannot change network attachment/address")
    else ok tt

unfoldable pub validate_resize : Instance → InstanceSpec → Option NetworkConfig → Result (Unit {0})
unfolding valid_spec canonical_arch validate_network
validate_resize i s n =
    if not (valid_spec s)
    then err (text "invalid CPU/memory/disk specification")
    else if ltb_ℤ s.disk_gb i.spec.disk_gb
    then err (text "disk shrinking is forbidden")
    else if not (is_empty s.arch)
        && not (is_empty i.spec.arch)
        && not (canonical_arch s.arch =ₜ canonical_arch i.spec.arch)
    then err (text "architecture changes are forbidden")
    else validate_network i n

-- The whole cores that a quota in thousandths comes to, rounded up.
unfoldable pub cpu_cores_effective : InstanceSpec → ℤ
cpu_cores_effective s =
    if ltb_ℤ (pos 0) s.cpu_milli
    then pos ((pos_part s.cpu_milli + 999) / 1000)
    else if ltb_ℤ (pos 0) s.cpu
    then s.cpu
    else pos 1

unfoldable pub normalized_resize : InstanceSpec → Text → InstanceSpec
unfolding cpu_cores_effective
normalized_resize s actual_arch = record s {
  arch = if is_empty s.arch then actual_arch else s.arch;
  cpu = cpu_cores_effective s;
}

unfoldable pub check_actual_arch : Text → InstanceSpec → Result (Unit {0})
unfolding canonical_arch
check_actual_arch actual s =
    if is_empty actual
    then err (text "actual architecture unavailable")
    else if not (is_empty s.arch) && not (canonical_arch s.arch =ₜ canonical_arch actual)
    then err (text "actual architecture cannot change")
    else ok tt
