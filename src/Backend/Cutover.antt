-- ===== src/Backend/Cutover.antt =====
-- The order in which internal/driver/replacement.go switches, commits and retires, and what its
-- errors mean.
use virtualis_agent.Common.{true, false, List, ◌∷◌, Result, ok, err, is_ok, ◌≡◌, refl}
use virtualis_agent.Common.Sorting.{Among, here, there}
use virtualis_agent.Common.Text.{Text, text, ◌=ₜ◌}
use virtualis_agent.Protocol.{Instance}
use virtualis_agent.Backend.{Attempt, succeed, Machine, Plan, Entry, entry, absent, unknown}
use virtualis_agent.Backend.Disks.{managed_image_path, regular_file}
use virtualis_agent.Backend.Journal.{
  Event, ran, wrote, renamed, took, took_all, Journal, journaled, Meets, Keeps, Keeps-succeed,
  Keeps-fail, Keeps-from_result, Keeps-unless, Keeps-quiet, Keeps-noted, Meets-bind, Keeps-then,
  Meets-deferring, Meets-then, note_plan, from-Outcome, is_removed, Outcome,
}
use virtualis_agent.Backend.Retention.{
  Committed, Careful, harmless, authorized, later, Stable, retires, Keeps-look,
  Keeps-require_stopped, Keeps-qemu_status, Keeps-incus_status, Keeps-run, Keeps-replacement_plan,
  Keeps-move_present, Keeps-cut_over,
}
use virtualis_agent.Backend.Replacement.{
  replacement_plan, remove_file, qemu_switch, incus_switch, commit, qemu_retire, incus_retire,
  qemu_cutover, incus_cutover, retired, without_passwords,
}

module _ {W : Type 0} (m : Machine W) (P : Journal → Type 0) (stable : Stable P) where
  Keeps-qemu_switch :
      (nonce : Text) (original stage : Instance)
      → Keeps P (qemu_switch (journaled m) nonce original stage)
  unfolding qemu_switch retires text ◌=ₜ◌
  Keeps-qemu_switch nonce original stage =
      Meets-bind _ _
        (Keeps-replacement_plan m P stable nonce
          (record { phase = text "staged"; original = retired nonce original; incoming = stage }))
        (λ dir. Keeps-then _ _ (Keeps-require_stopped m P _ _ (Keeps-qemu_status m P stage)) (
          Keeps-then _ _ (Keeps-require_stopped m P _ _ (Keeps-qemu_status m P original)) (
            Keeps-then _ _ (Keeps-run m P stable _ (λ good. refl)) (
              Keeps-then _ _
                (Keeps-cut_over m P _ _ (Keeps-run m P stable _ (λ good. refl))
                  (Keeps-run m P stable _ (λ good. refl)))
                (Keeps-then _ _ (Keeps-move_present m P stable _ _)
                  (Keeps-then _ _ (Keeps-move_present m P stable _ _) (Keeps-succeed dir)))))))

  Keeps-incus_switch :
      (nonce : Text) (original stage : Instance)
      → Keeps P (incus_switch (journaled m) nonce original stage)
  unfolding incus_switch retires text ◌=ₜ◌
  Keeps-incus_switch nonce original stage =
      Meets-bind _ _
        (Keeps-replacement_plan m P stable nonce
          (record { phase = text "staged"; original = retired nonce original; incoming = stage }))
        (λ dir. Keeps-then _ _ (Keeps-require_stopped m P _ _ (Keeps-incus_status m P stage)) (
          Keeps-then _ _ (Keeps-require_stopped m P _ _ (Keeps-incus_status m P original)) (
            Keeps-then _ _ (Keeps-run m P stable _ (λ good. refl)) (
              Keeps-then _ _
                (Keeps-cut_over m P _ _ (Keeps-run m P stable _ (λ good. refl))
                  (Keeps-run m P stable _ (λ good. refl)))
                (Keeps-then _ _ (Keeps-run m P stable _ (λ good. refl))
                  (Keeps-then _ _ (Keeps-run m P stable _ (λ good. refl)) (Keeps-succeed dir)))))))

-- After a committed plan anything may go.
abbrev pub Authorized : Journal → Type 0
Authorized l = Careful l × Committed l

go_on : (e : Event) (l : Journal) → Authorized l → Authorized (e ∷ l)
go_on e l (careful, committed) = (authorized committed careful, later e l committed)

Careful-Stable : Stable Careful
Careful-Stable e l calm h = harmless calm h

module _ {W : Type 0} (m : Machine W) where
  written_outcome :
      (plan : Plan) (r : Result Text) (w : W) (l : Journal)
      → Careful l
      → Outcome
          (λ path j. Careful j × Among (wrote plan path) j)
          Careful
          (r, (w, note_plan plan r l))
  unfolding retires
  written_outcome plan (ok path) w l h = (harmless {e = wrote plan path} refl h, here)
  written_outcome plan (err e) w l h = h

  Meets-write_plan :
      (dir : Text) (plan : Plan)
      → Meets Careful
          ((journaled m).write_plan dir plan)
          (λ path l. Careful l × Among (wrote plan path) l)
          Careful
  unfolding journaled
  Meets-write_plan dir plan = record {
    at = λ w l h. let (r, w') = m.write_plan dir plan w in written_outcome plan r w' l h;
  }

  published_outcome :
      (plan : Plan) (path to : Text) (r : Result (Unit {0})) (w : W) (l : Journal)
      → plan.phase ≡ text "committed"
      → Careful l
      → Among (wrote plan path) l
      → Outcome (λ _. Authorized) Careful (r, (w, renamed path to (is_ok r) ∷ l))
  unfolding retires
  published_outcome plan path to (ok u) w l c h n = (
    harmless {e = renamed path to true} refl h,
    record {
      plan = plan;
      path = path;
      to = to;
      is_committed = c;
      written = there n;
      published = here;
    },
  )
  published_outcome plan path to (err e) w l c h n = harmless {e = renamed path to false} refl h

  Meets-publish :
      (plan : Plan) (path to : Text)
      → plan.phase ≡ text "committed"
      → Meets
          (λ l. Careful l × Among (wrote plan path) l)
          ((journaled m).rename path to)
          (λ _. Authorized)
          Careful
  unfolding journaled
  Meets-publish plan path to c = record {
    at = λ w l h.
        let (r, w') = m.rename path to w in published_outcome plan path to r w' l c h.0 h.1;
  }

  Meets-succeed :
      {A : Type 0} (P : A → Journal → Type 0) (E : Journal → Type 0) (a : A)
      → Meets {W = W} (P a) (succeed a) P E
  unfolding succeed
  Meets-succeed P E a = record { at = λ w l h. h }

  -- The plan of the phase `committed`.
  Meets-commit_plan :
      (nonce : Text) (original incoming : Instance)
      → Meets Careful
          (replacement_plan
            (journaled m)
            nonce
            (record { phase = text "committed"; original = original; incoming = incoming }))
          (λ _. Authorized)
          Careful
  unfolding replacement_plan journaled without_passwords
  Meets-commit_plan nonce original incoming = Meets-then _ _ (Keeps-quiet _) (
      Meets-bind _ _ (Meets-write_plan _ _) (λ temp.
        Meets-then _ _ (Meets-deferring (m.drop_temp temp) _ (Meets-publish _ temp _ refl))
          (Meets-succeed (λ _. Authorized) Careful _)))

  Keeps-run_any : (args : List Text) → Keeps Authorized ((journaled m).run args)
  unfolding journaled
  Keeps-run_any args = Keeps-noted _ _ (λ r l h. go_on (ran args (is_ok r)) l h)

  Keeps-remove_all : (path : Text) → Keeps Authorized ((journaled m).remove_all path)
  unfolding journaled
  Keeps-remove_all path = Keeps-noted _ _ (λ r l h. go_on (took_all path (is_ok r)) l h)

  weaker :
      {A : Type 0} (r : Result A) (w : W) (l : Journal)
      → Outcome (λ _. Authorized) Authorized (r, (w, l))
      → Outcome (λ _. Authorized) Careful (r, (w, l))
  weaker (ok a) w l h = h
  weaker (err e) w l h = h.0

  Meets-weaken :
      {A : Type 0} (k : Attempt (W × Journal) A)
      → Keeps Authorized k
      → Meets Authorized k (λ _. Authorized) Careful
  Meets-weaken k h = record {
    at = λ w l g. let (r, (w', l')) = k (w, l) in weaker r w' l' (h.at w l g);
  }

  Keeps-eval : (P : Journal → Type 0) (path : Text) → Keeps P ((journaled m).eval_symlinks path)
  unfolding journaled
  Keeps-eval P path = Keeps-quiet _

  Keeps-regular_file :
      (P : Journal → Type 0) (found : Entry) → Keeps P (regular_file (journaled m) found)
  Keeps-regular_file P (entry regular size) = Keeps-unless _ _
  Keeps-regular_file P absent = Keeps-fail _
  Keeps-regular_file P (unknown e) = Keeps-fail _

  pub Keeps-managed_image_path :
      (P : Journal → Type 0) (path : Text) → Keeps P (managed_image_path (journaled m) path)
  unfolding managed_image_path
  Keeps-managed_image_path P path = Meets-bind _ _ (Keeps-from_result _) (λ root.
      Meets-bind _ _ (Keeps-from_result _) (λ absolute. Keeps-then _ _ (Keeps-unless _ _) (
        Meets-bind _ _ (Keeps-eval P _) (λ resolved_root.
          Meets-bind _ _ (Keeps-eval P _) (λ resolved_parent.
            Keeps-then _ _ (Keeps-unless _ _)
              (Meets-bind _ _ (Keeps-look m P _) (λ found. Keeps-regular_file P found)))))))

  Keeps-remove_file : (path : Text) → Keeps Authorized (remove_file (journaled m) path)
  unfolding remove_file journaled
  Keeps-remove_file path = record {
    at = λ w l h.
        let (r, w') = m.remove path w in
        from-Outcome Authorized _ w' (took path (is_removed r) ∷ l)
          (go_on (took path (is_removed r)) l h);
  }

  Keeps-qemu_retire :
      (retained old_disk dir : Text)
      → Keeps Authorized (qemu_retire (journaled m) retained old_disk dir)
  unfolding qemu_retire
  Keeps-qemu_retire retained old_disk dir = Keeps-then _ _ (Keeps-run_any _) (
      Keeps-then _ _ (Keeps-managed_image_path Authorized old_disk)
        (Keeps-then _ _ (Keeps-remove_file old_disk) (Keeps-remove_all dir)))

  Keeps-incus_retire :
      (retained nonce dir : Text) → Keeps Authorized (incus_retire (journaled m) retained nonce dir)
  unfolding incus_retire
  Keeps-incus_retire retained nonce dir =
      Keeps-then _ _ (Keeps-run_any _) (Keeps-then _ _ (Keeps-run_any _) (Keeps-remove_all dir))

  Meets-commit :
      (status : Instance → Attempt (W × Journal) Text) (nonce : Text) (original incoming : Instance)
      → Keeps Careful (status incoming)
      → Meets Careful
          (commit (journaled m) status nonce original incoming)
          (λ _. Authorized)
          Careful
  unfolding commit
  Meets-commit status nonce original incoming k =
      Meets-then _ _ (Keeps-require_stopped m Careful status incoming k)
        (Meets-commit_plan nonce (retired nonce original) incoming)

  pub Meets-qemu_cutover :
      (nonce : Text) (original incoming stage : Instance) (old_disk : Text)
      → Meets Careful
          (qemu_cutover (journaled m) nonce original incoming stage old_disk)
          (λ _. Authorized)
          Careful
  unfolding qemu_cutover
  Meets-qemu_cutover nonce original incoming stage old_disk =
      Meets-bind _ _ (Keeps-qemu_switch m Careful Careful-Stable nonce original stage) (λ dir.
        Meets-bind _ _ (Meets-commit _ nonce original _ (Keeps-qemu_status m Careful _)) (λ _.
          Meets-then _ _ (Meets-weaken _ (Keeps-qemu_retire _ old_disk dir))
            (Meets-succeed (λ _. Authorized) Careful _)))

  pub Meets-incus_cutover :
      (nonce : Text) (original incoming stage : Instance)
      → Meets Careful
          (incus_cutover (journaled m) nonce original incoming stage)
          (λ _. Authorized)
          Careful
  unfolding incus_cutover
  Meets-incus_cutover nonce original incoming stage =
      Meets-bind _ _ (Keeps-incus_switch m Careful Careful-Stable nonce original stage) (λ dir.
        Meets-bind _ _ (Meets-commit _ nonce original _ (Keeps-incus_status m Careful _)) (λ _.
          Meets-then _ _ (Meets-weaken _ (Keeps-incus_retire _ nonce dir))
            (Meets-succeed (λ _. Authorized) Careful _)))
