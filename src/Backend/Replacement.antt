-- ===== src/Backend/Replacement.antt =====
-- internal/driver/replacement.go: a backup takes the place of a stopped instance, and the original
-- is retained until the replacement is there.
use virtualis_agent.Common.{
  ℕ, zero, suc, ◌+◌, true, Bool, ◌/◌, ◌%◌, false, ◌||◌, List, [], ◌∷◌, ◌++◌, Option, none, some,
  Result, ok, err, if◌then◌else◌, ltb, ◌==◌, by_result,
}
use virtualis_agent.Common.Text.{Text, text, decimal}
use virtualis_agent.Protocol.{Instance}
use virtualis_agent.Driver.{Call, Replaced, replaced, failed, needs_recovery}
use virtualis_agent.Backend.{
  Attempt, ◌>>=◌, ◌>>◌, succeed, fail, deferring, Machine, Plan, Entry, entry, absent, unknown,
  Removal, removed, missing, kept, path_in, resource_name, qemu_status, incus_status,
  require_stopped,
}
use virtualis_agent.Backend.Disks.{system_disk, managed_image_path, look}
use virtualis_agent.Backend.Snapshots.{snapshot_dir}

-- hex.EncodeToString of the n lowest half bytes, the highest first.
unfoldable pub hex_digits : ℕ → ℕ → Text → Text
hex_digits zero x acc = acc
hex_digits (suc n) x acc =
    let d = x % 16 in hex_digits n (x / 16) ((if ltb d 10 then b'0' + d else 87 + d) ∷ acc)

-- The 31 lowest bits of the random number.
abbrev pub stage_id : ℕ → ℕ
stage_id x = x % 2147483648

abbrev pub rejected : Instance → ℕ → Bool
rejected i x = stage_id x == 0 || stage_id x == i.id

-- The instance under which a backup is imported, and the nonce of its names.
unfoldable pub staged : Instance → ℕ → Instance × Text
unfolding hex_digits
staged i x =
    let nonce = hex_digits 16 x [] in
    (
      record i {
        id = stage_id x;
        name = text "restore-" ++ nonce;
        root_password = [];
        ssh_ready = false;
        image = none;
      },
      nonce,
    )

unfoldable pub without_passwords : Plan → Plan
without_passwords p = record p {
  original = record p.original { root_password = [] };
  incoming = record p.incoming { root_password = [] };
}

abbrev pub retired : Text → Instance → Instance
retired nonce original = record original { name = text "retained-" ++ nonce }

module _ {W : Type 0} (m : Machine W) where
  -- At most `fuel` numbers are drawn; `none` if all are rejected.
  unfoldable pub replacement_stage : ℕ → Instance → W → Option (Result (Instance × Text)) × W
  unfolding staged
  replacement_stage zero i w = (none, w)
  replacement_stage (suc fuel) i w =
      let (drawn, w1) = m.random w in
      let again = replacement_stage fuel i w1 in
      by_result drawn (λ e. (some (err e), w1))
        (λ x. if rejected i x then again else (some (ok (staged i x)), w1))

  unfoldable pub replacement_plan : Text → Plan → Attempt W Text
  unfolding without_passwords
  replacement_plan nonce plan = do
    let dir = path_in m.data_dir (text "retained-" ++ nonce)
    m.make_dirs dir
    temp ← m.write_plan dir (without_passwords plan)
    deferring (m.drop_temp temp) (m.rename temp (path_in dir (text "recovery.json")))
    succeed dir

  abbrev removal : Removal → Result (Unit {0})
  removal removed = ok tt
  removal missing = err (text "no such file or directory")
  removal (kept e) = err e

  unfoldable pub remove_file : Text → Attempt W (Unit {0})
  remove_file path w = let (r, w') = m.remove path w in (removal r, w')

  -- A directory that is there is renamed.
  abbrev pub move_if : Entry → Text → Text → Attempt W (Unit {0})
  move_if (entry _ _) from to = m.rename from to
  move_if absent from to = succeed tt
  move_if (unknown e) from to = fail e

  unfoldable pub move_present : Text → Text → Attempt W (Unit {0})
  unfolding look
  move_present from to = do found ← look m from; move_if found from to

  unfoldable pub cut_over : Attempt W (Unit {0}) → Attempt W (Unit {0}) → Attempt W (Unit {0})
  cut_over switch undo w =
      let (r, w1) = switch w in
      by_result r (λ e. let (_, w2) = undo w1 in (err (text "cutover failed: " ++ e), w2))
        (λ u. (ok u, w1))

  -- The import under the staged instance; `none` where the fuel is out.
  unfoldable pub import_stage :
      (Instance → W → Result (Unit {0}) × Instance × W)
      → Option (Result (Instance × Text))
      → Attempt W (Instance × Text)
  import_stage import_ none w = (err (text "no usable number was drawn"), w)
  import_stage import_ (some (err e)) w = (err e, w)
  import_stage import_ (some (ok (stage, nonce))) w =
      let (imported, stage', w') = import_ stage w in
      by_result imported (λ e. (err e, w')) (λ _. (ok (stage', nonce), w'))

  unfoldable pub stage_import :
      ℕ → (Text → Call W (Unit {0})) → Text → Instance → Attempt W (Instance × Text)
  unfolding replacement_stage import_stage
  stage_import fuel import_ archive incoming w =
      let (drawn, w') = replacement_stage fuel incoming w in import_stage (import_ archive) drawn w'

  abbrev virsh : List Text → Attempt W (Unit {0})
  virsh args = m.run (text "virsh" ∷ args)

  abbrev incus : List Text → Attempt W (Unit {0})
  incus args = m.run (m.cli ∷ args)

  abbrev plan_of : Text → Text → Instance → Instance → Attempt W Text
  plan_of nonce phase original incoming =
      replacement_plan nonce
        (record { phase = phase; original = retired nonce original; incoming = incoming })

  -- Names and directories are switched, each step when the one before it has succeeded.
  unfoldable pub qemu_switch : Text → (original stage : Instance) → Attempt W Text
  unfolding replacement_plan cut_over move_present snapshot_dir
  qemu_switch nonce original stage = do
    let target = resource_name original
    let retained = resource_name (retired nonce original)
    dir ← plan_of nonce (text "staged") original stage
    require_stopped (qemu_status m) stage
    require_stopped (qemu_status m) original
    virsh (text "domrename" ∷ target ∷ retained ∷ [])
    cut_over (virsh (text "domrename" ∷ resource_name stage ∷ target ∷ []))
        (virsh (text "domrename" ∷ retained ∷ target ∷ []))
    move_present (snapshot_dir m original.id) (path_in dir (text "snapshots"))
    move_present (snapshot_dir m stage.id) (snapshot_dir m original.id)
    succeed dir

  -- The replacement is verified and recorded.
  unfoldable pub commit :
      (Instance → Attempt W Text) → Text → (original incoming : Instance) → Attempt W Text
  unfolding replacement_plan
  commit status nonce original incoming = do
    require_stopped status incoming
    plan_of nonce (text "committed") original incoming

  -- The old definition and its disk go.
  unfoldable pub qemu_retire : (retained old_disk dir : Text) → Attempt W (Unit {0})
  unfolding remove_file managed_image_path
  qemu_retire retained old_disk dir = do
    virsh (text "undefine" ∷ retained ∷ text "--nvram" ∷ [])
    managed_image_path m old_disk
    remove_file old_disk
    m.remove_all dir

  unfoldable pub qemu_cutover :
      Text → (original incoming stage : Instance) → (old_disk : Text) → Attempt W Instance
  unfolding qemu_switch commit qemu_retire
  qemu_cutover nonce original incoming stage old_disk = do
    dir ← qemu_switch nonce original stage
    let arrived = record incoming { image = stage.image }
    _ ← commit (qemu_status m) nonce original arrived
    qemu_retire (resource_name (retired nonce original)) old_disk dir
    succeed arrived

  unfoldable pub incus_switch : Text → (original stage : Instance) → Attempt W Text
  unfolding replacement_plan cut_over
  incus_switch nonce original stage = do
    let target = resource_name original
    let retained = resource_name (retired nonce original)
    let old_profile = text "virtualis-p-" ++ decimal original.id
    dir ← plan_of nonce (text "staged") original stage
    require_stopped (incus_status m) stage
    require_stopped (incus_status m) original
    incus (text "move" ∷ target ∷ retained ∷ [])
    cut_over (incus (text "move" ∷ resource_name stage ∷ target ∷ []))
        (incus (text "move" ∷ retained ∷ target ∷ []))
    incus (
        text "profile" ∷ text "rename" ∷ old_profile ∷ (text "virtualis-retained-p-" ++ nonce) ∷ [])
    incus (
        text "profile"
        ∷ text "rename"
        ∷ (text "virtualis-p-" ++ decimal stage.id)
        ∷ old_profile
        ∷ [])
    succeed dir

  unfoldable pub incus_retire : (retained nonce dir : Text) → Attempt W (Unit {0})
  incus_retire retained nonce dir = do
    incus (text "delete" ∷ retained ∷ [])
    incus (text "profile" ∷ text "delete" ∷ (text "virtualis-retained-p-" ++ nonce) ∷ [])
    m.remove_all dir

  unfoldable pub incus_cutover : Text → (original incoming stage : Instance) → Attempt W Instance
  unfolding incus_switch commit incus_retire
  incus_cutover nonce original incoming stage = do
    dir ← incus_switch nonce original stage
    _ ← commit (incus_status m) nonce original incoming
    incus_retire (resource_name (retired nonce original)) nonce dir
    succeed incoming

  -- An error before the switch is plain; every one after it is a ReplacementError of an uncertain
  -- outcome. The incoming instance is read only after a success.
  unfoldable pub settle :
      {A : Type 0}
      → (A → Attempt W Instance)
      → (original incoming : Instance) → Attempt W A
      → W
      → Replaced × Instance × Instance × W
  settle cutover original incoming prepare w =
      let (prepared, w1) = prepare w in
      by_result prepared (λ e. (failed e, original, incoming, w1))
        (λ a.
          let (switched, w2) = cutover a w1 in
          by_result switched (λ e. (needs_recovery e true, original, incoming, w2))
            (λ arrived. (replaced, original, arrived, w2)))

  module _ (fuel : ℕ) (import_ : Text → Call W (Unit {0})) where
    unfoldable pub qemu_prepare : Instance → Text → Instance → Attempt W (Text × Instance × Text)
    unfolding stage_import managed_image_path
    qemu_prepare original archive incoming = do
      require_stopped (qemu_status m) original
      old_disk ← system_disk m original
      managed_image_path m old_disk
      (stage, nonce) ← stage_import fuel import_ archive incoming
      succeed (old_disk, stage, nonce)

    unfoldable pub qemu_replace_import :
        Instance → Text → Instance → W → Replaced × Instance × Instance × W
    unfolding settle qemu_prepare qemu_cutover
    qemu_replace_import original archive incoming =
        settle (λ (old_disk, stage, nonce). qemu_cutover nonce original incoming stage old_disk)
          original incoming (qemu_prepare original archive incoming)

    unfoldable pub incus_prepare : Instance → Text → Instance → Attempt W (Instance × Text)
    unfolding stage_import
    incus_prepare original archive incoming = do
      require_stopped (incus_status m) original
      stage_import fuel import_ archive incoming

    unfoldable pub incus_replace_import :
        Instance → Text → Instance → W → Replaced × Instance × Instance × W
    unfolding settle incus_prepare incus_cutover
    incus_replace_import original archive incoming =
        settle (λ (stage, nonce). incus_cutover nonce original incoming stage) original incoming
          (incus_prepare original archive incoming)
