-- ===== src/Backend/Disks.antt =====
-- internal/driver/recovery_archive.go, managed_paths.go and systemDisk of snapshot.go: which disk
-- images a backend may open, and which files it may take for its own.
use virtualis_agent.Common.{
  ℕ, ◌+◌, ◌*◌, ◌/◌, Bool, false, ◌&&◌, ◌||◌, not, List, [], ◌∷◌, Result, ok, err, if◌then◌else◌,
  ◌==◌, by_result, take, drop,
}
use virtualis_agent.Common.Int.{ℤ, pos, leb_ℤ}
use virtualis_agent.Common.Text.{Text, text, is, is_empty, to_lower, contains, ◌=ₜ◌}
use virtualis_agent.Protocol.{Instance}
use virtualis_agent.Backend.{
  Attempt, ◌>>=◌, ◌>>◌, succeed, fail, from_result, unless, Machine, Entry, entry, absent, unknown,
  DomainDisk, ImageInfo, path_in, resource_name,
}

unfoldable pub big_endian : List ℕ → ℕ → ℕ
big_endian [] acc = acc
big_endian (b ∷ bs) acc = big_endian bs (acc * 256 + b)

-- h[i:i+n], read big-endian.
unfoldable pub at : List ℕ → ℕ → ℕ → ℕ
unfolding big_endian
at h i n = big_endian (take n (drop i h)) 0

unfoldable pub check_header : List ℕ → Result (Unit {0})
unfolding at
check_header h =
    let version = at h 4 4 in
    if not (at h 0 4 == 1363560955) || not (version == 2 || version == 3)
    then err (text "backup disk must be qcow2")
    else if not (at h 8 8 == 0) || not (at h 16 4 == 0)
    then err (text "external backing files are forbidden in backups")
    else if not (at h 32 4 == 0)
    then err (text "encrypted qcow2 backups are unsupported")
    else if version == 3 && not (at h 72 8 / 4 == 0)
    then err (text "external data files or unsupported qcow2 features")
    else ok tt

unfoldable pub independent_size : ImageInfo → Result ℤ
independent_size info =
    if not (is info.format "qcow2")
      || leb_ℤ info.virtual_size (pos 0)
      || not (is_empty info.backing)
      || not (is_empty info.full_backing)
      || not (is_empty info.data_file)
    then err (text "disk is not an independent qcow2 image")
    else ok info.virtual_size

unfoldable pub first_system_disk : List DomainDisk → Result Text
first_system_disk [] = err (text "找不到文件形式的系统盘 vda")
first_system_disk (d ∷ ds) =
    let rest = first_system_disk ds in
    if is d.device "disk" && is d.target "vda" && not (is_empty d.file) then ok d.file else rest

-- A name without a separator: filepath.Dir of it is the directory itself.
unfoldable pub direct_child : Text → Bool
direct_child relative = not (
    is relative "."
    || is relative ".."
    || is_empty relative
    || contains relative (text "/")
    || contains relative (text "\\")
    || contains relative (text ":"))

-- filepath.Dir, of an absolute path with a directory.
unfoldable pub parent_dir : Text → Text
parent_dir [] = []
parent_dir (c ∷ s) = let rest = parent_dir s in if contains s (text "/") then c ∷ rest else []

-- On clean paths.
unfoldable pub same_path : Text → Text → Bool
same_path a b = to_lower a =ₜ to_lower b

module _ {W : Type 0} (m : Machine W) where
  unfoldable pub standalone_qcow_header : Text → Attempt W (Unit {0})
  unfolding check_header
  standalone_qcow_header path = do h ← m.read_head path 104; from_result (check_header h)

  unfoldable pub qcow_virtual_size : Text → Attempt W ℤ
  unfolding independent_size
  qcow_virtual_size path = do
    raw ← m.output (text "qemu-img" ∷ text "info" ∷ text "--output=json" ∷ path ∷ [])
    info ← from_result (m.parse_image raw)
    from_result (independent_size info)

  -- The header is read before qemu-img opens the image.
  unfoldable pub validate_qcow : Text → Attempt W ℤ
  unfolding standalone_qcow_header qcow_virtual_size
  validate_qcow path = do
    standalone_qcow_header path
    size ← qcow_virtual_size path
    m.run (text "qemu-img" ∷ text "check" ∷ text "-f" ∷ text "qcow2" ∷ path ∷ [])
    succeed size

  unfoldable pub system_disk : Instance → Attempt W Text
  unfolding first_system_disk
  system_disk i = do
    raw ← m.output (text "virsh" ∷ text "dumpxml" ∷ resource_name i ∷ text "--inactive" ∷ [])
    disks ← from_result (m.parse_domain raw)
    from_result (first_system_disk disks)

  abbrev pub regular_file : Entry → Attempt W (Unit {0})
  regular_file (entry regular _) = unless regular (text "managed image must be a regular file")
  regular_file absent = fail (text "no such file or directory")
  regular_file (unknown e) = fail e

  unfoldable pub look : Text → Attempt W Entry
  look path w = let (found, w') = m.lstat path w in (ok found, w')

  unfoldable pub managed_image_path : Text → Attempt W (Unit {0})
  unfolding direct_child same_path parent_dir look
  managed_image_path path = do
    root ← from_result (m.absolute (path_in m.data_dir (text "images")))
    absolute ← from_result (m.absolute path)
    unless (by_result (m.relative root absolute) (λ _. false) direct_child)
        (text "image is not a direct child of managed storage")
    resolved_root ← m.eval_symlinks root
    resolved_parent ← m.eval_symlinks (parent_dir absolute)
    unless (same_path resolved_parent resolved_root)
        (text "image is not inside the resolved managed image directory")
    found ← look absolute
    regular_file found
