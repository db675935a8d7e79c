-- ===== src/Backend/Retention.antt =====
-- What internal/driver/replacement.go does to the original instance: its definition and its disk go
-- only when the replacement is recorded as committed.
use virtualis_agent.Common.{
  ℕ, Bool, true, false, ◌&&◌, ◌||◌, List, [], ◌∷◌, Result, ok, err, is_ok, ◌≡◌, refl, get_elem?,
  by_option,
}
use virtualis_agent.Common.Sorting.{Among, there}
use virtualis_agent.Common.Text.{Text, text, ◌=ₜ◌}
use virtualis_agent.Protocol.{Instance}
use virtualis_agent.Backend.{
  Attempt, from_result, Machine, Plan, Entry, entry, absent, unknown, require_stopped, qemu_status,
  incus_status,
}
use virtualis_agent.Backend.Disks.{look, qcow_virtual_size}
use virtualis_agent.Backend.Journal.{
  Event, ran, wrote, renamed, took, took_all, Journal, journaled, Keeps, Keeps-succeed, Keeps-fail,
  Keeps-from_result, Keeps-unless, Keeps-quiet, Keeps-noted, Meets-bind, Keeps-then,
  Meets-deferring, note_plan, still, Outcome,
}
use virtualis_agent.Backend.Replacement.{replacement_plan, move_if, move_present, cut_over}

abbrev is_at : List Text → ℕ → Text → Bool
is_at args n w = by_option (get_elem? args n) false (λ t. t =ₜ w)

-- virsh undefine, incus delete and incus profile delete, and the removal of files.
unfoldable pub retires : Event → Bool
retires (ran args good) =
    is_at args 1 (text "undefine")
    || is_at args 1 (text "delete")
    || (is_at args 1 (text "profile") && is_at args 2 (text "delete"))
retires (wrote plan path) = false
retires (renamed from to good) = false
retires (took path good) = true
retires (took_all path good) = true

-- A plan of the phase `committed` was written and took its place.
pub record Committed (l : Journal) : Type 0 where
  pub plan : Plan
  pub path : Text
  pub to : Text
  pub is_committed : plan.phase ≡ text "committed"
  pub written : Among (wrote plan path) l
  pub published : Among (renamed path to true) l

-- Whatever retires something comes after a committed plan.
pub data Careful : Journal → Type 0 where
  blank : Careful []
  harmless : {e : Event} {l : Journal} → retires e ≡ false → Careful l → Careful (e ∷ l)
  authorized : {e : Event} {l : Journal} → Committed l → Careful l → Careful (e ∷ l)

pub later : (e : Event) (l : Journal) → Committed l → Committed (e ∷ l)
later e l c = record {
  plan = c.plan;
  path = c.path;
  to = c.to;
  is_committed = c.is_committed;
  written = there c.written;
  published = there c.published;
}

-- A predicate that no harmless event breaks.
abbrev pub Stable : (Journal → Type 0) → Type 0
Stable P = (e : Event) (l : Journal) → retires e ≡ false → P l → P (e ∷ l)

module _ {W : Type 0} (m : Machine W) (P : Journal → Type 0) where
  pub Keeps-look : (path : Text) → Keeps P (look (journaled m) path)
  unfolding look journaled
  Keeps-look path = record { at = λ w l h. h }

  pub Keeps-require_stopped :
      (status : Instance → Attempt (W × Journal) Text) (i : Instance)
      → Keeps P (status i)
      → Keeps P (require_stopped status i)
  unfolding require_stopped
  Keeps-require_stopped status i k = Meets-bind (status i) _ k (λ s. Keeps-unless _ _)

  pub Keeps-qemu_status : (i : Instance) → Keeps P (qemu_status (journaled m) i)
  unfolding qemu_status journaled
  Keeps-qemu_status i = Meets-bind _ _ (Keeps-quiet _) (λ out. Keeps-from_result _)

  pub Keeps-incus_status : (i : Instance) → Keeps P (incus_status (journaled m) i)
  unfolding incus_status journaled
  Keeps-incus_status i = Meets-bind _ _ (Keeps-quiet _) (λ out. Keeps-from_result _)

  pub Keeps-qcow_virtual_size : (path : Text) → Keeps P (qcow_virtual_size (journaled m) path)
  unfolding qcow_virtual_size journaled
  Keeps-qcow_virtual_size path =
      Meets-bind _ _ (Keeps-quiet _)
        (λ raw. Meets-bind _ _ (Keeps-from_result _) (λ info. Keeps-from_result _))

module _ {W : Type 0} (m : Machine W) (P : Journal → Type 0) (stable : Stable P) where
  pub Keeps-run :
      (args : List Text)
      → ((good : Bool) → retires (ran args good) ≡ false)
      → Keeps P ((journaled m).run args)
  unfolding journaled
  Keeps-run args calm = Keeps-noted _ _ (λ r l h. stable (ran args (is_ok r)) l (calm _) h)

  pub Keeps-rename : (from to : Text) → Keeps P ((journaled m).rename from to)
  unfolding journaled retires
  Keeps-rename from to = Keeps-noted _ _ (λ r l h. stable (renamed from to (is_ok r)) l refl h)

  note_plan-stable : (plan : Plan) (r : Result Text) (l : Journal) → P l → P (note_plan plan r l)
  unfolding retires
  note_plan-stable plan (ok path) l h = stable (wrote plan path) l refl h
  note_plan-stable plan (err e) l h = h

  Keeps-plan : (dir : Text) (plan : Plan) → Keeps P ((journaled m).write_plan dir plan)
  unfolding journaled retires
  Keeps-plan dir plan = Keeps-noted (note_plan plan) _ (note_plan-stable plan)

  pub Keeps-replacement_plan :
      (nonce : Text) (plan : Plan) → Keeps P (replacement_plan (journaled m) nonce plan)
  unfolding replacement_plan journaled
  Keeps-replacement_plan nonce plan = Keeps-then _ _ (Keeps-quiet _) (
      Meets-bind _ _ (Keeps-plan _ _) (λ temp.
        Keeps-then _ _ (Meets-deferring (m.drop_temp temp) _ (Keeps-rename _ _)) (Keeps-succeed _)))

  Keeps-move_if : (found : Entry) (from to : Text) → Keeps P (move_if (journaled m) found from to)
  Keeps-move_if (entry regular size) from to = Keeps-rename from to
  Keeps-move_if absent from to = Keeps-succeed tt
  Keeps-move_if (unknown e) from to = Keeps-fail e

  pub Keeps-move_present : (from to : Text) → Keeps P (move_present (journaled m) from to)
  unfolding move_present
  Keeps-move_present from to =
      Meets-bind _ _ (Keeps-look m P from) (λ found. Keeps-move_if found from to)

module _ {W : Type 0} (m : Machine W) (P : Journal → Type 0) where
  undone :
      (undo : Attempt (W × Journal) (Unit {0})) (r : Result (Unit {0})) (w : W) (l : Journal)
      → Keeps P undo
      → Outcome (λ _. P) P (r, (w, l))
      → Outcome (λ _. P) P (cut_over (journaled m) (from_result r) undo (w, l))
  unfolding cut_over from_result
  undone undo (ok u) w l k h = h
  undone undo (err e) w l k h = still P (undo (w, l)) (k.at w l h)

  pub Keeps-cut_over :
      (switch undo : Attempt (W × Journal) (Unit {0}))
      → Keeps P switch
      → Keeps P undo
      → Keeps P (cut_over (journaled m) switch undo)
  unfolding cut_over from_result
  Keeps-cut_over switch undo ks ku = record {
    at = λ w l h. let (r, (w', l')) = switch (w, l) in undone undo r w' l' ku (ks.at w l h);
  }
