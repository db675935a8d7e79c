-- ===== src/Backend/Snapshots.antt =====
-- internal/driver/snapshot.go: the snapshots of an instance, as both backends make them.
use virtualis_agent.Common.{
  ℕ, ◌+◌, ◌-◌, ◌*◌, ◌/◌, ◌%◌, Bool, true, false, ◌||◌, not, List, [], ◌∷◌, ◌++◌, Result, ok, err,
  if◌then◌else◌, ltb, by_result, Option, none, some,
}
use virtualis_agent.Common.Int.{ℤ, pos, negsuc, ◌+ℤ◌, ltb_ℤ}
use virtualis_agent.Common.Text.{Text, text, contains, to_lower, decimal, itoa, ◌=ₜ◌}
use virtualis_agent.Protocol.{Instance}
use virtualis_agent.Backend.{
  Attempt, ◌>>=◌, ◌>>◌, succeed, fail, from_result, unless, deferring, Machine, Entry, entry,
  absent, unknown, Removal, removed, missing, kept, path_in, resource_name, qemu_status,
  incus_status, require_stopped,
}
use virtualis_agent.Backend.Disks.{system_disk, qcow_virtual_size, validate_qcow, parent_dir}
use virtualis_agent.Server.Recovery.{valid_snapshot_name}

-- 64 bits, read as a signed number.
abbrev pub signed : ℕ → ℤ
signed n =
    let u = n % 18446744073709551616 in
    if ltb u 9223372036854775808 then pos u else negsuc (18446744073709551615 - u)

-- int64(gb) << 30
unfoldable pub gb_bytes : ℤ → ℤ
gb_bytes (pos n) = signed (n * 1073741824)
gb_bytes (negsuc n) = signed (18446744073709551616 - ((n + 1) * 1073741824) % 18446744073709551616)

abbrev wrap : ℤ → ℤ
wrap (pos n) = signed n
wrap (negsuc n) = negsuc n

abbrev shift_30 : ℤ → ℤ
shift_30 (pos n) = pos (n / 1073741824)
shift_30 (negsuc n) = negsuc (n / 1073741824)

-- (bytes+(1<<30)-1)>>30
unfoldable pub whole_gb : ℤ → ℤ
whole_gb bytes = shift_30 (wrap (bytes +ℤ pos 1073741823))

-- The capacity of a restored disk: neither below that of the disk in use nor that of the snapshot.
unfoldable pub restore_target : (actual desired stage_size : ℤ) → ℤ
restore_target actual desired stage_size =
    let target = if ltb_ℤ actual desired then desired else actual in
    if ltb_ℤ target stage_size then stage_size else target

module _ {W : Type 0} (m : Machine W) where
  unfoldable pub snapshot_dir : ℕ → Text
  snapshot_dir id = path_in (path_in m.data_dir (text "snapshots")) (decimal id)

  unfoldable pub snapshot_path : ℕ → Text → Result Text
  unfolding snapshot_dir valid_snapshot_name
  snapshot_path id name =
      if valid_snapshot_name name
      then ok (path_in (snapshot_dir id) (name ++ text ".qcow2"))
      else err (text "快照名称无效")

  abbrev pub owned_by : Text → Option (ℕ × ℕ) → Attempt W (Unit {0})
  owned_by path none = m.chmod path 438
  owned_by path (some owner) = do m.chown path owner; m.chmod path 432

  unfoldable pub prepare_recovery_disk : Text → Attempt W (Unit {0})
  prepare_recovery_disk path = owned_by path m.qemu_ownership

  abbrev size_of : Entry → Attempt W ℤ
  size_of (entry _ size) = succeed (pos size)
  size_of absent = fail (text "no such file or directory")
  size_of (unknown e) = fail e

  unfoldable pub look_through : Text → Attempt W Entry
  look_through path w = let (found, w') = m.stat path w in (ok found, w')

  abbrev is_entry : Entry → Bool
  is_entry (entry _ _) = true
  is_entry absent = false
  is_entry (unknown _) = false

  -- A failed conversion is removed, and its error returned.
  unfoldable pub convert_or_remove : Text → Text → Attempt W (Unit {0})
  convert_or_remove disk path w =
      let (converted, w1) =
        m.run (text "qemu-img" ∷ text "convert" ∷ text "-O" ∷ text "qcow2" ∷ disk ∷ path ∷ []) w in
      by_result converted (λ e. let (_, w2) = m.remove path w1 in (err e, w2)) (λ u. (ok u, w1))

  unfoldable pub qemu_create_snapshot : Text → Instance → Attempt W ℤ
  unfolding snapshot_path look_through convert_or_remove
  qemu_create_snapshot name i = do
    path ← from_result (snapshot_path i.id name)
    require_stopped (qemu_status m) i
    found ← look_through path
    unless (not (is_entry found)) (text "快照已存在")
    disk ← system_disk m i
    m.make_dirs (parent_dir path)
    convert_or_remove disk path
    made ← look_through path
    size_of made

  -- The disk to be is grown to the capacity it must have.
  unfoldable pub grow_to : Text → (target stage_size : ℤ) → Attempt W (Unit {0})
  unfolding whole_gb
  grow_to stage target stage_size =
      if ltb_ℤ stage_size target
      then m.run
          (text "qemu-img" ∷ text "resize" ∷ stage ∷ (itoa (whole_gb target) ++ text "G") ∷ [])
      else succeed tt

  unfoldable pub restore_through : Text → Text → Text → ℤ → Attempt W (Unit {0})
  unfolding restore_target gb_bytes grow_to prepare_recovery_disk
  restore_through path disk stage disk_gb = do
    m.run (text "qemu-img" ∷ text "convert" ∷ text "-O" ∷ text "qcow2" ∷ path ∷ stage ∷ [])
    actual ← qcow_virtual_size m disk
    stage_size ← validate_qcow m stage
    grow_to stage (restore_target actual (gb_bytes disk_gb) stage_size) stage_size
    prepare_recovery_disk stage
    m.rename stage disk

  -- The conversion stands beside the disk, and takes its place when it is complete.
  unfoldable pub qemu_restore_snapshot : Text → Instance → Attempt W (Unit {0})
  unfolding snapshot_path restore_through
  qemu_restore_snapshot name i = do
    path ← from_result (snapshot_path i.id name)
    require_stopped (qemu_status m) i
    disk ← system_disk m i
    stage ← m.make_temp (parent_dir disk) (text ".restore-*.qcow2")
    deferring (m.drop_temp stage) (restore_through path disk stage i.spec.disk_gb)

  abbrev gone : Removal → Result (Unit {0})
  gone removed = ok tt
  gone missing = ok tt
  gone (kept e) = err e

  unfoldable pub remove_if_present : Text → Attempt W (Unit {0})
  remove_if_present path w = let (r, w') = m.remove path w in (gone r, w')

  unfoldable pub qemu_delete_snapshot : Text → Instance → Attempt W (Unit {0})
  unfolding snapshot_path remove_if_present
  qemu_delete_snapshot name i = do
    path ← from_result (snapshot_path i.id name)
    remove_if_present path

  unfoldable pub incus_create_snapshot : Text → Instance → Attempt W ℤ
  incus_create_snapshot name i = do
    unless (valid_snapshot_name name) (text "快照名称无效")
    m.run
        (m.cli ∷ text "snapshot" ∷ text "create" ∷ resource_name i ∷ name ∷ text "--no-expiry" ∷ [])
    succeed (pos 0)

  abbrev mentions : Text → List Text → Bool
  mentions name [] = false
  mentions name (e ∷ es) = e =ₜ name || mentions name es

  unfoldable pub snapshot_disk_only_capable : Attempt W Bool
  snapshot_disk_only_capable = do
    raw ← m.output (m.cli ∷ text "query" ∷ text "/1.0" ∷ [])
    extensions ← from_result (m.parse_extensions raw)
    succeed (mentions (text "instance_snapshot_disk_only_restore") extensions)

  unfoldable pub incus_restore_snapshot : Text → Instance → Attempt W (Unit {0})
  unfolding snapshot_disk_only_capable
  incus_restore_snapshot name i = do
    able ← snapshot_disk_only_capable
    unless able (text "Incus version is too old: requires instance_snapshot_disk_only_restore")
    unless (valid_snapshot_name name) (text "快照名称无效")
    require_stopped (incus_status m) i
    m.run
        (m.cli ∷ text "snapshot" ∷ text "restore" ∷ resource_name i ∷ name ∷ text "--diskonly" ∷ [])

  abbrev unless_not_found : Result (Unit {0}) → Result (Unit {0})
  unless_not_found (ok u) = ok u
  unless_not_found (err e) = if contains (to_lower e) (text "not found") then ok tt else err e

  unfoldable pub incus_delete_snapshot : Text → Instance → Attempt W (Unit {0})
  incus_delete_snapshot name i = do
    unless (valid_snapshot_name name) (text "快照名称无效")
    λ w.
        let (r, w') =
          m.run (m.cli ∷ text "snapshot" ∷ text "delete" ∷ resource_name i ∷ name ∷ []) w in
        (unless_not_found r, w')
