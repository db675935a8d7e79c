-- ===== src/Tests/Backend.antt =====
-- The backends' shared methods at concrete inputs.
use virtualis_agent.Common.{ℕ, ◌≤◌, true, [], ◌∷◌, none, some, Result, ok, err, ◌≡◌, refl}
use virtualis_agent.Common.Text.{Text, text}
use virtualis_agent.Protocol.{Instance}
use virtualis_agent.Driver.{Call}
use virtualis_agent.Backend.{Machine, entry, removed}
use virtualis_agent.Backend.Replacement.{
  replacement_stage, qemu_replace_import, incus_replace_import,
}
use virtualis_agent.Backend.Journal.{journaled, beside}
use virtualis_agent.Backend.Retention.{Careful}
use virtualis_agent.Backend.Outcomes.{
  Settled, journal_of, replace_import-Careful, replace_import-Settled,
}
use virtualis_agent.Backend.Staging.{Arrives, now, Usable, replacement_stage-Arrives}
use virtualis_agent.Tests.Host.{U, web, done_host, done_call}

abbrev pub machine : Machine U
machine = record {
  cli = text "incus";
  data_dir = text "/data";
  run = λ args. done_host;
  output = λ args w. (ok (text "shut off"), w);
  random = λ w. (ok 5, w);
  lstat = λ path w. (entry true 5, w);
  stat = λ path w. (entry true 5, w);
  read_head = λ path n w. (ok [], w);
  rename = λ from to. done_host;
  remove = λ path w. (removed, w);
  remove_all = λ path. done_host;
  make_dirs = λ path. done_host;
  eval_symlinks = λ path w. (ok path, w);
  qemu_ownership = none;
  chown = λ path owner. done_host;
  chmod = λ path mode. done_host;
  make_temp = λ dir pattern w. (ok (text "/data/images/.restore-1.qcow2"), w);
  write_plan = λ dir plan w. (ok (text "/data/plan-1"), w);
  drop_temp = λ path w. w;
  parse_domain = λ raw. ok (
      record { device = text "disk"; file = text "/data/images/a.qcow2"; target = text "vda" }
      ∷ []);
  parse_image = λ raw. err (text "not JSON");
  parse_extensions = λ raw. ok [];
  absolute = λ path. ok path;
  relative = λ root path. ok (text "a.qcow2");
}

abbrev imports : Text → Call U (Unit {0})
imports path = done_call

abbrev incoming : Instance
incoming = record web { name = text "backup" }

replace_import-Careful_example :
    Careful (
      journal_of (
        qemu_replace_import
          (journaled machine)
          1
          (λ path. beside (imports path))
          web
          (text "/a.tar")
          incoming
          (tt, [])))
    × Careful (
        journal_of (
          incus_replace_import
            (journaled machine)
            1
            (λ path. beside (imports path))
            web
            (text "/a.tar")
            incoming
            (tt, [])))
replace_import-Careful_example =
    replace_import-Careful machine 1 imports web incoming (text "/a.tar") tt

replace_import-Settled_example :
    (let r =
        qemu_replace_import
          (journaled machine)
          1
          (λ path. beside (imports path))
          web
          (text "/a.tar")
          incoming
          (tt, []) in
      Settled r.0 (journal_of r))
    × (let r =
          incus_replace_import
            (journaled machine)
            1
            (λ path. beside (imports path))
            web
            (text "/a.tar")
            incoming
            (tt, []) in
        Settled r.0 (journal_of r))
replace_import-Settled_example =
    replace_import-Settled machine 1 imports web incoming (text "/a.tar") tt

arrives : Arrives machine web 1 tt
arrives = now refl

replacement_stage-Arrives_example :
    (r : Result (Instance × Text)) × (w : U) × ((fuel : ℕ)
      → 1 ≤ fuel
      → replacement_stage machine fuel web tt ≡ (some r, w))
    × Usable web r
replacement_stage-Arrives_example = replacement_stage-Arrives machine web 1 tt arrives

abbrev full : Machine U
full = record machine { run = λ args w. (err (text "no space left"), w) }
