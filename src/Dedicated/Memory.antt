-- ===== src/Dedicated/Memory.antt =====
-- A directory in memory that keeps every promise of `Directory`.
use virtualis_agent.Common.{
  true, false, List, [], ◌∷◌, Option, none, some, ok, err, is_some, ◌≡◌, refl, sym, ap, ◌∙◌, inl,
  inr, Bool-cases, arith,
}
use virtualis_agent.Common.Map.{Map, lookup, insert, delete, lookup-insert, lookup-delete, eq_Text}
use virtualis_agent.Common.Sorting.{Among, here, there}
use virtualis_agent.Common.Text.{Text, text, ◌=ₜ◌, text_eq_iff, text_eq_refl, cut_suffix}
use virtualis_agent.Backend.{Attempt}
use virtualis_agent.Dedicated.Records.{Records, drop_temp}
use virtualis_agent.Dedicated.Directory.{Files, put, is_json, Agree, Directory}
use virtualis_agent.Dedicated.Triples.{After}

abbrev pub Disk : Type 0
Disk = Map Text Text

abbrev stored : Disk → Files
stored disk name = lookup name disk

abbrev names_of : Disk → List Text
names_of [] = []
names_of ((name, raw) ∷ rest) = name ∷ names_of rest

abbrev temp_name : Text
temp_name = text ".network-1"

move : Option Text → Text → Text → Attempt Disk (Unit {0})
move none temp name disk = (err (text "no such file"), disk)
move (some raw) temp name disk = (ok tt, insert name raw (delete temp disk))

unfoldable pub memory : Records Disk
unfolding move
memory = record {
  make_dir = λ disk. (ok tt, disk);
  names = λ disk. (ok (names_of disk), disk);
  read = λ name disk. (ok (lookup name disk), disk);
  create_temp = λ disk. (ok temp_name, disk);
  write_temp = λ temp raw disk. (ok tt, insert temp raw disk);
  rename = λ temp name disk. move (lookup temp disk) temp name disk;
  remove = λ name disk. (ok tt, delete name disk);
}

names_of-Among :
    (name : Text) (disk : Disk) → is_some (lookup name disk) ≡ true → Among name (names_of disk)
unfolding lookup
names_of-Among name [] h = absurd (ground (arith, h))
names_of-Among name ((at, raw) ∷ rest) h = elim (Bool-cases (at =ₜ name)) [
  | inl same ↦ rw ((text_eq_iff at name).0 same) here
  | inr other ↦ there (names_of-Among name rest (rw other at h))
]

not_temp : (temp name : Text) → is_json temp ≡ false → is_json name ≡ true → (temp =ₜ name) ≡ false
not_temp temp name t json = elim (Bool-cases (temp =ₜ name)) [
  | inl same ↦ absurd (ground (arith, sym t ∙ ap is_json ((text_eq_iff temp name).0 same) ∙ json))
  | inr other ↦ other
]

insert-Agree :
    (v : Files) (temp raw : Text) (disk : Disk)
    → is_json temp ≡ false
    → Agree v (stored disk)
    → Agree v (stored (insert temp raw disk))
insert-Agree v temp raw disk t h name json =
    lookup-insert temp name raw disk ∙ rw (not_temp temp name t json) (h name json)

delete-Agree :
    (v : Files) (temp : Text) (disk : Disk)
    → is_json temp ≡ false
    → Agree v (stored disk)
    → Agree v (stored (delete temp disk))
delete-Agree v temp disk t h name json =
    lookup-delete temp name disk ∙ rw (not_temp temp name t json) (h name json)

-- A file that is there takes the name.
move-put :
    (v : Files) (temp name raw : Text) (found : Option Text) (disk : Disk)
    → is_json temp ≡ false
    → found ≡ some raw
    → Agree v (stored disk)
    → After
        (λ _ w. Agree (put v name raw) (stored w) × (is_json temp ≡ false))
        (λ w. Agree v (stored w) × (is_json temp ≡ false))
        (move found temp name disk)
unfolding move
move-put v temp name raw none disk t e h = (h, t)
move-put v temp name raw (some found) disk t e h = (
  λ other json.
      lookup-insert name other found (delete temp disk) ∙ elim (Bool-cases (name =ₜ other)) [
        | inl same ↦ rw same e
        | inr differ ↦ rw differ (delete-Agree v temp disk t h other json)
      ],
  t,
)

pub memory_directory : Directory memory
unfolding memory drop_temp cut_suffix text ◌=ₜ◌
memory_directory = record {
  files = stored;
  made = λ v. record { from = λ w h. h };
  listed = λ v. record {
    from = λ w h. (h, λ name json e. names_of-Among name w (ap is_some (h name json) ∙ e));
  };
  was_read = λ v name json. record { from = λ w h. (h, h name json) };
  created = λ v. record { from = λ w h. (h, refl) };
  written = λ v temp raw. record {
    from = λ w (h, t). (
      insert-Agree v temp raw w t h,
      lookup-insert temp temp raw w ∙ rw (text_eq_refl temp) refl,
      t,
    );
  };
  moved = λ v temp name raw. record {
    from = λ w (h, e, t). move-put v temp name raw (lookup temp w) w t e h;
  };
  dropped = λ v temp w h t. delete-Agree v temp w t h;
}

pub memory_directory-files :
    (disk : Disk) (name : Text) → memory_directory.files disk name ≡ lookup name disk
unfolding memory_directory
memory_directory-files disk name = refl
