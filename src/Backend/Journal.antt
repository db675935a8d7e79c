-- ===== src/Backend/Journal.antt =====
-- A record of what the methods of Backend do to the host, newest first: each command that is run
-- for its effect, each plan written and each renaming or removal, with whether it succeeded. Not
-- noted: queries, new directories, and temporary files other than plans. And the rules by which
-- an attempt meets a precondition and a postcondition on that record.
use virtualis_agent.Common.{Bool, true, false, List, ◌∷◌, Result, ok, err, is_ok}
use virtualis_agent.Common.Text.{Text}
use virtualis_agent.Driver.{Host, Call}
use virtualis_agent.Backend.{
  Attempt, ◌>>=◌, ◌>>◌, succeed, fail, from_result, unless, deferring, Machine, Plan, Removal,
  removed, missing, kept,
}

pub data Event : Type 0 where
  ran : List Text → (good : Bool) → Event
  wrote : Plan → (path : Text) → Event
  renamed : (from to : Text) → (good : Bool) → Event
  took : Text → (good : Bool) → Event
  took_all : Text → (good : Bool) → Event

abbrev pub Journal : Type 0
Journal = List Event

-- Only a plan that was written has a path.
abbrev pub note_plan : Plan → Result Text → Journal → Journal
note_plan plan (ok path) l = wrote plan path ∷ l
note_plan plan (err e) l = l

abbrev pub is_removed : Removal → Bool
is_removed removed = true
is_removed missing = false
is_removed (kept e) = false

module _ {W : Type 0} where
  abbrev pub quiet : {A : Type 0} → Host W A → Host (W × Journal) A
  quiet f (w, l) = let (a, w') = f w in (a, (w', l))

  abbrev noted :
      {A : Type 0} → (Result A → Journal → Journal) → Attempt W A → Attempt (W × Journal) A
  noted note f (w, l) = let (r, w') = f w in (r, (w', note r l))

  -- The machine that keeps a journal of another.
  unfoldable pub journaled : Machine W → Machine (W × Journal)
  journaled m = record {
    cli = m.cli;
    data_dir = m.data_dir;
    run = λ args. noted (λ r l. ran args (is_ok r) ∷ l) (m.run args);
    output = λ args. quiet (m.output args);
    random = quiet m.random;
    lstat = λ path. quiet (m.lstat path);
    stat = λ path. quiet (m.stat path);
    read_head = λ path n. quiet (m.read_head path n);
    rename = λ from to. noted (λ r l. renamed from to (is_ok r) ∷ l) (m.rename from to);
    remove =
        λ path. λ (w, l). let (r, w') = m.remove path w in (r, (w', took path (is_removed r) ∷ l));
    remove_all = λ path. noted (λ r l. took_all path (is_ok r) ∷ l) (m.remove_all path);
    make_dirs = λ path. quiet (m.make_dirs path);
    eval_symlinks = λ path. quiet (m.eval_symlinks path);
    qemu_ownership = m.qemu_ownership;
    chown = λ path owner. quiet (m.chown path owner);
    chmod = λ path mode. quiet (m.chmod path mode);
    make_temp = λ dir pattern. quiet (m.make_temp dir pattern);
    write_plan = λ dir plan. noted (note_plan plan) (m.write_plan dir plan);
    drop_temp = λ path. λ (w, l). (m.drop_temp path w, l);
    parse_domain = m.parse_domain;
    parse_image = m.parse_image;
    parse_extensions = m.parse_extensions;
    absolute = m.absolute;
    relative = m.relative;
  }

  -- A method that is not journaled, such as the import of a backup.
  abbrev pub beside : {A : Type 0} → Call W A → Call (W × Journal) A
  beside f i (w, l) = let (r, i', w') = f i w in (r, i', (w', l))

-- A predicate on the result and the journal, another on the journal after an error.
abbrev pub Outcome :
    {W A : Type 0} → (A → Journal → Type 0) → (Journal → Type 0) → Result A × (W × Journal) → Type 0
Outcome Q E (ok a, (w, l)) = Q a l
Outcome Q E (err e, (w, l)) = E l

pub record Meets {W A : Type 0} (P : Journal → Type 0) (m : Attempt (W × Journal) A)
    (Q : A → Journal → Type 0) (E : Journal → Type 0) : Type 0 where
  pub at : (w : W) (l : Journal) → P l → Outcome Q E (m (w, l))

abbrev pub Keeps : {W A : Type 0} → (Journal → Type 0) → Attempt (W × Journal) A → Type 0
Keeps P m = Meets P m (λ _. P) P

pub from-Outcome :
    {W A : Type 0} (P : Journal → Type 0) (r : Result A) (w : W) (l : Journal)
    → P l
    → Outcome (λ _. P) P (r, (w, l))
from-Outcome P (ok a) w l h = h
from-Outcome P (err e) w l h = h

module _ {W : Type 0} {P : Journal → Type 0} where
  pub Keeps-succeed : {A : Type 0} (a : A) → Keeps {W = W} P (succeed a)
  unfolding succeed
  Keeps-succeed a = record { at = λ w l h. h }

  pub Keeps-fail : {A : Type 0} (e : Text) → Keeps {W = W} {A = A} P (fail e)
  unfolding fail
  Keeps-fail e = record { at = λ w l h. h }

  pub Keeps-from_result : {A : Type 0} (r : Result A) → Keeps {W = W} P (from_result r)
  unfolding from_result
  Keeps-from_result r = record { at = λ w l h. from-Outcome P r w l h }

  pub Keeps-unless : (b : Bool) (e : Text) → Keeps {W = W} P (unless b e)
  unfolding unless
  Keeps-unless true e = Keeps-succeed tt
  Keeps-unless false e = Keeps-fail e

  pub Keeps-quiet : {A : Type 0} (f : Attempt W A) → Keeps P (quiet f)
  Keeps-quiet f = record { at = λ w l h. let (r, w') = f w in from-Outcome P r w' l h }

  pub Keeps-noted :
      {A : Type 0} (note : Result A → Journal → Journal) (f : Attempt W A)
      → ((r : Result A) (l : Journal) → P l → P (note r l))
      → Keeps P (noted note f)
  Keeps-noted note f stable = record {
    at = λ w l h. let (r, w') = f w in from-Outcome P r w' (note r l) (stable r l h);
  }

after-Outcome :
    {W A B : Type 0} (Q : A → Journal → Type 0) (R : B → Journal → Type 0) (E : Journal → Type 0)
    (r : Result A) (w : W) (l : Journal) (f : A → Attempt (W × Journal) B)
    → ((a : A) → Meets (Q a) (f a) R E)
    → Outcome Q E (r, (w, l))
    → Outcome R E ((from_result r >>= f) (w, l))
unfolding ◌>>=◌ from_result
after-Outcome Q R E (ok a) w l f k h = (k a).at w l h
after-Outcome Q R E (err e) w l f k h = h

module _ {W A B : Type 0} {P : Journal → Type 0} {Q : A → Journal → Type 0}
    {R : B → Journal → Type 0} {E : Journal → Type 0} where
  pub Meets-bind :
      (m : Attempt (W × Journal) A) (f : A → Attempt (W × Journal) B)
      → Meets P m Q E
      → ((a : A) → Meets (Q a) (f a) R E)
      → Meets P (m >>= f) R E
  unfolding ◌>>=◌ from_result
  Meets-bind m f km kf = record {
    at = λ w l h. let (r, (w', l')) = m (w, l) in after-Outcome Q R E r w' l' f kf (km.at w l h);
  }

module _ {W : Type 0} {P : Journal → Type 0} where
  pub Keeps-then :
      {B : Type 0} (m : Attempt (W × Journal) (Unit {0})) (k : Attempt (W × Journal) B)
      → Keeps P m
      → Keeps P k
      → Keeps P (m >> k)
  unfolding ◌>>◌
  Keeps-then m k km kk = Meets-bind m (λ _. k) km (λ _. kk)

other-state :
    {W A : Type 0} (Q : A → Journal → Type 0) (E : Journal → Type 0) (r : Result A) (w w' : W)
    (l : Journal)
    → Outcome Q E (r, (w, l))
    → Outcome Q E (r, (w', l))
other-state Q E (ok a) w w' l h = h
other-state Q E (err e) w w' l h = h

module _ {W A : Type 0} {P : Journal → Type 0} {Q : A → Journal → Type 0}
    {E : Journal → Type 0} where
  -- A deferred call that the journal does not note.
  pub Meets-deferring :
      (f : W → W) (m : Attempt (W × Journal) A)
      → Meets P m Q E
      → Meets P (deferring (λ (w, l). (f w, l)) m) Q E
  unfolding deferring
  Meets-deferring f m k = record {
    at = λ w l h. let (r, (w', l')) = m (w, l) in other-state Q E r w' (f w') l' (k.at w l h);
  }

pub still :
    {W A : Type 0} (P : Journal → Type 0) (x : Result A × (W × Journal))
    → Outcome (λ _. P) P x
    → P x.1.1
still P (ok a, (w, l)) h = h
still P (err e, (w, l)) h = h

module _ {W B : Type 0} {P R : Journal → Type 0} {Q : B → Journal → Type 0}
    {E : Journal → Type 0} where
  pub Meets-then :
      (m : Attempt (W × Journal) (Unit {0})) (k : Attempt (W × Journal) B)
      → Meets P m (λ _. R) E
      → Meets R k Q E
      → Meets P (m >> k) Q E
  unfolding ◌>>◌
  Meets-then m k km kk = Meets-bind m (λ _. k) km (λ _. kk)

weaker_error :
    {W A : Type 0} (Q : A → Journal → Type 0) (E E' : Journal → Type 0)
    (x : Result A × (W × Journal))
    → ((l : Journal) → E l → E' l)
    → Outcome Q E x
    → Outcome Q E' x
weaker_error Q E E' (ok a, (w, l)) f h = h
weaker_error Q E E' (err e, (w, l)) f h = f l h

module _ {W A : Type 0} {P : Journal → Type 0} {Q : A → Journal → Type 0}
    {E E' : Journal → Type 0} where
  -- Less is said of the journal after an error.
  pub Meets-weaken :
      (m : Attempt (W × Journal) A) → ((l : Journal) → E l → E' l) → Meets P m Q E → Meets P m Q E'
  Meets-weaken m f k = record { at = λ w l h. weaker_error Q E E' (m (w, l)) f (k.at w l h) }
