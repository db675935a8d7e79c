-- ===== src/Server/Quiet/Steps.antt =====
-- The steps that the handlers of cmd/agent share leave the store alone.
use virtualis_agent.Common.{
  ℕ, refl, arith, Bool, Option, none, some, Result, ok, err, Option-cases, inl, inr,
}
use virtualis_agent.Common.Text.{Text}
use virtualis_agent.Protocol.{Instance, Image, NetworkStatus}
use virtualis_agent.Driver.{Driver}
use virtualis_agent.Server.{
  AgentServer, Environment, Handler, Upload, Body, ◌>>◌, resolve_driver, requested_or_stored,
  modify, write,
}
use virtualis_agent.Server.Images.{write_through, save_image, attach_image, attach_extra}
use virtualis_agent.Operations.{try_operation}
use virtualis_agent.Server.Recovery.{needs}
use virtualis_agent.Server.Leases.{
  with_lease, leave_boot, apply_or_clear_nat, apply_firewall_if_running,
}
use virtualis_agent.Server.Create.{require}
use virtualis_agent.Server.Configure.{stage}
use virtualis_agent.Server.Quiet.{
  view, Quiet, Atomic, quiet, Quiet-pure, Quiet-modify, Atomic-modify,
}

module _ {W : Type 0} (env : Environment W) where
  pub Quiet-resolve_driver : (name : Text) → Quiet {W = W} (resolve_driver name)
  Quiet-resolve_driver name = search quiet depth 9

  pub Quiet-save_image : (upload : Upload) → Quiet (save_image env upload)
  unfolding save_image
  Quiet-save_image upload = search quiet depth 9

  Quiet-not_through : (image : Image) → Quiet {W = W} (modify (write_through none image))
  unfolding write_through
  Quiet-not_through image = Quiet-modify _ (λ s. refl)

  pub Quiet-attach_image :
      (upload : Option Upload) (fresh : Image) (i : Instance)
      → Quiet (attach_image env none upload fresh i)
  unfolding attach_image
  Quiet-attach_image none fresh i = Quiet-pure i
  Quiet-attach_image (some upload) fresh i =
      search (quiet, Quiet-save_image, Quiet-not_through) depth 12

  pub Quiet-apply_or_clear_nat :
      (d : Driver W) (fast : Bool) (i : Instance) → Quiet (apply_or_clear_nat env d fast i)
  unfolding apply_or_clear_nat
  Quiet-apply_or_clear_nat d fast i = search quiet depth 9

  pub Quiet-attach_extra :
      (upload : Option Upload) (i : Instance) → Quiet (attach_extra env none upload i)
  unfolding attach_extra
  Quiet-attach_extra none i = Quiet-pure i
  Quiet-attach_extra (some upload) i = search (quiet, Quiet-save_image, Quiet-not_through) depth 12

  pub Quiet-apply_firewall_if_running :
      (d : Driver W) (i : Instance) → Quiet (apply_firewall_if_running env d i)
  unfolding apply_firewall_if_running
  Quiet-apply_firewall_if_running d i = search quiet depth 9

module _ {W : Type 0} where
  pub Quiet-requested_or_stored :
      (id : ℕ) (payload : Result Instance) → Quiet {W = W} (requested_or_stored id payload)
  unfolding requested_or_stored
  Quiet-requested_or_stored id payload = search quiet depth 9

  pub Quiet-leave_boot :
      (d : Driver W) (l : ℕ) (rules : Bool) (i : Instance) → Quiet (modify (leave_boot d l rules i))
  unfolding leave_boot
  Quiet-leave_boot d l rules i = Quiet-modify _ (λ s. refl)

  pub Quiet-require :
      (b : Bool) (code : ℕ) (message : Text) → Quiet {W = W} (require b code message)
  Quiet-require b code message = search quiet

  pub Quiet-needs : {A : Type 0} (o : Option A) (message : Text) → Quiet {W = W} (needs o message)
  Quiet-needs none message = search quiet
  Quiet-needs (some a) message = search quiet

  pub Quiet-stage :
      {A : Type 0} (step status ip : Text) (network : NetworkStatus) (r : Result A)
      → Quiet {W = W} (stage step status ip network r)
  Quiet-stage step status ip network (ok a) = search quiet
  Quiet-stage step status ip network (err e) = search quiet

  pub Atomic-modify_200 :
      (f : AgentServer W → AgentServer W) (body : Body)
      → Atomic {W = W} {A = Unit {0}} (modify f >> write 200 body)
  Atomic-modify_200 f body = Atomic-modify f 200 body (omega arith)

  pub Atomic-with_lease :
      (id : ℕ) (body : ℕ → Handler W (Unit {0}))
      → ((l : ℕ) → Atomic (body l))
      → Atomic (with_lease id body)
  unfolding with_lease write
  Atomic-with_lease id body a = record {
    at = λ s r e h. elim (Option-cases (try_operation id s.operations).0) [
      | inl refused ↦ rw (refused, with_lease) refl
      | inr (l, given) ↦
          rw (given, with_lease)
            ((a l).at (record s { operations = (try_operation id s.operations).1 }) r
              (rw (given, with_lease) at e) h)
    ];
  }

pub ruleset quiet_steps = (
  quiet, Quiet-resolve_driver, Quiet-save_image, Quiet-attach_image, Quiet-attach_extra,
  Quiet-apply_or_clear_nat, Quiet-apply_firewall_if_running, Quiet-requested_or_stored,
  Quiet-leave_boot, Quiet-require, Quiet-needs, Quiet-stage,
)
