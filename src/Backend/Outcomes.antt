-- ===== src/Backend/Outcomes.antt =====
-- What a caller of internal/driver/replacement.go may conclude from its answer.
use virtualis_agent.Common.{
  ℕ, zero, suc, true, [], Option, none, some, Result, ok, err, Result-cases, Bool-cases, inl, inr,
  ◌≡◌, refl, sym, subst,
}
use virtualis_agent.Common.Text.{Text}
use virtualis_agent.Protocol.{Instance}
use virtualis_agent.Driver.{Call, Replaced, replaced, failed, needs_recovery}
use virtualis_agent.Backend.{Attempt, succeed, from_result, Machine}
use virtualis_agent.Backend.Disks.{system_disk}
use virtualis_agent.Backend.Journal.{
  Journal, journaled, beside, Meets, Keeps, Keeps-succeed, Keeps-from_result, Keeps-quiet,
  Meets-bind, Keeps-then, Outcome,
}
use virtualis_agent.Backend.Retention.{
  Committed, Careful, blank, Keeps-require_stopped, Keeps-qemu_status, Keeps-incus_status,
}
use virtualis_agent.Backend.Cutover.{
  Authorized, Meets-qemu_cutover, Meets-incus_cutover, Keeps-managed_image_path,
}
use virtualis_agent.Backend.Replacement.{
  replacement_stage, import_stage, stage_import, qemu_prepare, incus_prepare, qemu_replace_import,
  incus_replace_import, settle, rejected,
}

-- What the answer says of the journal: success comes with a committed plan, a plain error with an
-- untouched host, and every other error says that the outcome is uncertain.
abbrev pub Settled : Replaced → Journal → Type 0
Settled replaced l = Committed l
Settled (failed e) l = l ≡ []
Settled (needs_recovery e uncertain) l = uncertain ≡ true

module _ {W : Type 0} (m : Machine W) (P : Journal → Type 0) where
  pub Keeps-system_disk : (i : Instance) → Keeps P (system_disk (journaled m) i)
  unfolding system_disk journaled
  Keeps-system_disk i =
      Meets-bind _ _ (Keeps-quiet _)
        (λ raw. Meets-bind _ _ (Keeps-from_result _) (λ disks. Keeps-from_result _))

  -- No draw is noted.
  drawn_outcome :
      (fuel : ℕ) (i : Instance) (w : W) (l : Journal)
      → P l
      → P (replacement_stage (journaled m) fuel i (w, l)).1.1
  unfolding replacement_stage journaled
  drawn_outcome zero i w l h = h
  drawn_outcome (suc fuel) i w l h = elim (Result-cases (m.random w).0) [
    | inl (e, bad) ↦ rw bad h
    | inr (x, good) ↦ elim (Bool-cases (rejected i x)) [
      | inl again ↦ rw (good, again) (drawn_outcome fuel i (m.random w).1 l h)
      | inr usable ↦ rw (good, usable) h
    ]
  ]

  imported_outcome :
      (import_ : Text → Call W (Unit {0})) (archive : Text)
      (drawn : Option (Result (Instance × Text))) (w : W) (l : Journal)
      → P l
      → Outcome (λ _. P) P (import_stage (journaled m) (beside (import_ archive)) drawn (w, l))
  unfolding import_stage
  imported_outcome import_ archive none w l h = h
  imported_outcome import_ archive (some (err e)) w l h = h
  imported_outcome import_ archive (some (ok (stage, nonce))) w l h =
      elim (Result-cases (import_ archive stage w).0) [
        | inl (e, bad) ↦ rw bad h
        | inr (u, good) ↦ rw good h
      ]

  Keeps-stage_import :
      (fuel : ℕ) (import_ : Text → Call W (Unit {0})) (archive : Text) (incoming : Instance)
      → Keeps P (stage_import (journaled m) fuel (λ path. beside (import_ path)) archive incoming)
  unfolding stage_import
  Keeps-stage_import fuel import_ archive incoming = record {
    at = λ w l h.
        let (drawn, (w', l')) = replacement_stage (journaled m) fuel incoming (w, l) in
        imported_outcome import_ archive drawn w' l' (drawn_outcome fuel incoming w l h);
  }

  Keeps-qemu_prepare :
      (fuel : ℕ) (import_ : Text → Call W (Unit {0})) (original incoming : Instance)
      (archive : Text)
      → Keeps P (
          qemu_prepare (journaled m) fuel (λ path. beside (import_ path)) original archive incoming)
  unfolding qemu_prepare
  Keeps-qemu_prepare fuel import_ original incoming archive =
      Keeps-then _ _ (Keeps-require_stopped m P _ _ (Keeps-qemu_status m P original)) (
        Meets-bind _ _ (Keeps-system_disk original) (λ old_disk.
          Keeps-then _ _ (Keeps-managed_image_path m P old_disk) (
            Meets-bind _ _ (Keeps-stage_import fuel import_ archive incoming)
              (λ staged. Keeps-succeed _))))

  Keeps-incus_prepare :
      (fuel : ℕ) (import_ : Text → Call W (Unit {0})) (original incoming : Instance)
      (archive : Text)
      → Keeps P (
          incus_prepare
            (journaled m)
            fuel
            (λ path. beside (import_ path))
            original
            archive
            incoming)
  unfolding incus_prepare
  Keeps-incus_prepare fuel import_ original incoming archive =
      Keeps-then _ _ (Keeps-require_stopped m P _ _ (Keeps-incus_status m P original))
        (Keeps-stage_import fuel import_ archive incoming)

abbrev pub journal_of : {W : Type 0} → Replaced × Instance × Instance × (W × Journal) → Journal
journal_of (answer, original, arrived, (w, l)) = l

-- The answer and the journal.
abbrev Sound : {W : Type 0} → Replaced × Instance × Instance × (W × Journal) → Type 0
Sound r = Careful (journal_of r) × Settled r.0 (journal_of r)

module _ {W : Type 0} (m : Machine W) (original incoming : Instance) where
  switched :
      (r : Result Instance) (w : W) (l : Journal)
      → Outcome (λ _. Authorized) Careful (r, (w, l))
      → Sound (
          settle
            (journaled m)
            {A = Unit {0}}
            (λ _. from_result r)
            original
            incoming
            (succeed tt)
            (w, l))
  unfolding settle from_result succeed
  switched (ok arrived) w l h = h
  switched (err e) w l h = (h, refl)

  prepared :
      {A : Type 0} (cutover : A → Attempt (W × Journal) Instance) (r : Result A) (w : W)
      (l : Journal)
      → ((a : A) → Meets Careful (cutover a) (λ _. Authorized) Careful)
      → Outcome (λ _ j. j ≡ []) (λ j. j ≡ []) (r, (w, l))
      → Sound (settle (journaled m) cutover original incoming (from_result r) (w, l))
  unfolding settle from_result succeed
  prepared cutover (err e) w l k h = (subst Careful (sym h) blank, h)
  prepared cutover (ok a) w l k h =
      let (r, (w', l')) = cutover a (w, l) in
      switched r w' l' ((k a).at w l (subst Careful (sym h) blank))

  settle-Sound :
      {A : Type 0} (cutover : A → Attempt (W × Journal) Instance)
      (prepare : Attempt (W × Journal) A)
      → ((a : A) → Meets Careful (cutover a) (λ _. Authorized) Careful)
      → Keeps (λ j. j ≡ []) prepare
      → (w : W) → Sound (settle (journaled m) cutover original incoming prepare (w, []))
  unfolding settle from_result
  settle-Sound cutover prepare k kp w =
      let (r, (w', l')) = prepare (w, []) in prepared cutover r w' l' k (kp.at w [] refl)

module _ {W : Type 0} (m : Machine W) (fuel : ℕ) (import_ : Text → Call W (Unit {0})) where
  abbrev imports : Text → Call (W × Journal) (Unit {0})
  imports path = beside (import_ path)

  qemu-Sound :
      (original incoming : Instance) (archive : Text) (w : W)
      → Sound (qemu_replace_import (journaled m) fuel imports original archive incoming (w, []))
  unfolding qemu_replace_import
  qemu-Sound original incoming archive w =
      settle-Sound m original incoming _ _
        (λ (old_disk, stage, nonce). Meets-qemu_cutover m nonce original incoming stage old_disk)
        (Keeps-qemu_prepare m (λ j. j ≡ []) fuel import_ original incoming archive) w

  incus-Sound :
      (original incoming : Instance) (archive : Text) (w : W)
      → Sound (incus_replace_import (journaled m) fuel imports original archive incoming (w, []))
  unfolding incus_replace_import
  incus-Sound original incoming archive w =
      settle-Sound m original incoming _ _
        (λ (stage, nonce). Meets-incus_cutover m nonce original incoming stage)
        (Keeps-incus_prepare m (λ j. j ≡ []) fuel import_ original incoming archive) w

  -- With either backend, on any host and whatever its calls answer: outside of the import itself, a
  -- replacement deletes no definition of an instance, no profile and no file but temporary ones
  -- before a plan of the phase `committed` has been written and has taken its place.
  pub replace_import-Careful :
      (original incoming : Instance) (archive : Text) (w : W)
      → Careful (
          journal_of
            (qemu_replace_import (journaled m) fuel imports original archive incoming (w, [])))
        × Careful (
            journal_of
              (incus_replace_import (journaled m) fuel imports original archive incoming (w, [])))
  replace_import-Careful original incoming archive w =
      ((qemu-Sound original incoming archive w).0, (incus-Sound original incoming archive w).0)

  -- With either backend: a replacement that succeeds has published a committed plan; one that fails
  -- with a plain error has neither run a command that changes the host nor written, renamed or
  -- removed a file, outside of the import itself; and every other error is marked as uncertain.
  pub replace_import-Settled :
      (original incoming : Instance) (archive : Text) (w : W)
      → (let r = qemu_replace_import (journaled m) fuel imports original archive incoming (w, []) in
          Settled r.0 (journal_of r))
        × (let r =
              incus_replace_import (journaled m) fuel imports original archive incoming (w, []) in
            Settled r.0 (journal_of r))
  replace_import-Settled original incoming archive w =
      ((qemu-Sound original incoming archive w).1, (incus-Sound original incoming archive w).1)
