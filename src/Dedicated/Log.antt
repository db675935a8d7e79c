-- ===== src/Dedicated/Log.antt =====
-- A log of what the code of internal/driver/dedicated.go and dedicated_state.go asks of the host and
-- changes, newest first, and what leaves the log as it has to be: queries, the scripts for
-- iptables-restore, which touch chains of the instance, and commands other than `ip`.
use virtualis_agent.Common.{Bool, false, List, [], ◌∷◌, Result, ok, err, ◌≡◌}
use virtualis_agent.Common.Text.{Text, text, ◌=ₜ◌}
use virtualis_agent.Driver.{Host}
use virtualis_agent.Shell.{Shell}
use virtualis_agent.Backend.{Attempt}
use virtualis_agent.Firewall.Script.{words}
use virtualis_agent.Dedicated.Records.{Records}
use virtualis_agent.Dedicated.Triples.{Preserves, After}

pub data Step : Type 0 where
  asked : List Text → Result Text → Step
  ran : List Text → Step
  restored : Text → Step

abbrev pub Log : Type 0
Log = List Step

-- A command of `ip`, run for its effect.
abbrev pub is_change : Step → Bool
is_change (asked args answer) = false
is_change (ran []) = false
is_change (ran (word ∷ words)) = word =ₜ text "ip"
is_change (restored script) = false

module _ {W : Type 0} where
  abbrev pub besides : {A : Type 0} → Host W A → (A → Log → Log) → Host (W × Log) A
  besides f note (w, l) = let (a, w') = f w in (a, (w', note a l))

  abbrev pub quiet : {A : Type 0} → Host W A → Host (W × Log) A
  quiet f (w, l) = let (a, w') = f w in (a, (w', l))

  -- The host that keeps a log.
  unfoldable pub observed : Shell W → Shell (W × Log)
  observed shell = record {
    available = λ name. quiet (shell.available name);
    run = λ args. besides (shell.run args) (λ _ l. ran args ∷ l);
    output = λ args. besides (shell.output args) (λ answer l. asked args answer ∷ l);
    restore = λ script. besides (shell.restore script) (λ _ l. restored script ∷ l);
  }

  unfoldable pub unobserved : Records W → Records (W × Log)
  unobserved records = record {
    make_dir = quiet records.make_dir;
    names = quiet records.names;
    read = λ name. quiet (records.read name);
    create_temp = quiet records.create_temp;
    write_temp = λ temp raw. quiet (records.write_temp temp raw);
    rename = λ temp name. quiet (records.rename temp name);
    remove = λ name. quiet (records.remove name);
  }

-- A predicate on the log, as one on the state.
abbrev pub On : {W : Type 0} → (Log → Type 0) → W × Log → Type 0
On L (w, l) = L l

logged :
    {W A : Type 0} (L : Log → Type 0) (r : Result A) (w : W) (l : Log)
    → L l
    → After (λ _. On L) (On L) (r, (w, l))
logged L (ok a) w l h = h
logged L (err e) w l h = h

abbrev pub Stable : (Log → Type 0) → Type 0
Stable L = (e : Step) (l : Log) → is_change e ≡ false → L l → L (e ∷ l)

module _ {W : Type 0} (L : Log → Type 0) where
  pub Preserves-besides :
      {A : Type 0} (f : Attempt W A) (note : Result A → Log → Log)
      → ((r : Result A) (l : Log) → L l → L (note r l))
      → Preserves (On L) (besides f note)
  Preserves-besides f note stable = record {
    from = λ s h. let (r, w') = f s.0 in logged L r w' (note r s.1) (stable r s.1 h);
  }

  pub Preserves-quiet : {A : Type 0} (f : Attempt W A) → Preserves (On L) (quiet f)
  Preserves-quiet f = record { from = λ s h. let (r, w') = f s.0 in logged L r w' s.1 h }
