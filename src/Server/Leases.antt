-- ===== src/Server/Leases.antt =====
-- How cmd/agent/main.go runs a request under its instance's lease, and the work on a host's
-- rules that several handlers share.
use virtualis_agent.Common.{
  ℕ, Bool, true, false, ◌&&◌, not, [], ◌∷◌, ◌++◌, none, some, is_ok, if◌then◌else◌,
}
use virtualis_agent.Common.Text.{text, is, is_empty}
use virtualis_agent.Protocol.{Instance}
use virtualis_agent.Operations.{try_operation, done, retain_operation}
use virtualis_agent.Driver.{Driver}
use virtualis_agent.Server.{
  AgentServer, Environment, Handler, Boot, ◌>>=◌, ◌>>◌, pure, when, modify, on_host_, call,
  write_error, mark_boot_ready,
}
use virtualis_agent.Server.Ownership.{without_password}

module _ {W : Type 0} where
  -- `defer lease.done()` runs when the body has answered, whatever it answered.
  unfoldable pub with_lease : ℕ → (ℕ → Handler W (Unit {0})) → Handler W (Unit {0})
  with_lease id body s =
      let (lease, operations) = try_operation id s.operations in
      elim lease [
        | none ↦ write_error 409 (text "instance operation in progress") s
        | some l ↦
            let (flow, t) = body l (record s { operations = operations }) in
            (flow, record t { operations = done l t.operations })
      ]

  module _ (env : Environment W) where
    -- Errors are logged only.
    unfoldable pub apply_or_clear_nat : Driver W → Bool → Instance → Handler W Instance
    apply_or_clear_nat d quick i =
        if is i.status "running"
        then (do
          (_, j) ← call (env.apply_nat_rules d (if quick then 1 else 5) (if quick then 1 else 3)) i
          pure j)
        else (do on_host_ (env.clear_nat_rules i.id); pure i)

    unfoldable pub apply_firewall_if_running : Driver W → Instance → Handler W Instance
    apply_firewall_if_running d i =
        if is i.status "running"
        then (do (_, j) ← call (env.reconcile_firewall d none) i; pure j)
        else pure i

    -- The goroutine of a creation or a reinstallation, up to its release of the lease.
    unfoldable pub set_boot_password : Boot W → Instance → Handler W (Unit {0})
    set_boot_password b i =
        if not (is_empty i.root_password) && not (is b.driver.name "qemu")
        then (do
          modify (mark_boot_ready i.id false)
          (r, _) ← call (b.driver.set_root_password i.root_password) i
          when (is_ok r) (modify (mark_boot_ready i.id true)))
        else pure tt

    unfoldable pub boot : Boot W → Handler W (Unit {0})
    unfolding set_boot_password apply_or_clear_nat apply_firewall_if_running
    boot b = do
      set_boot_password b b.instance_
      when (b.rules && is b.instance_.status "running") do
        i ← apply_or_clear_nat b.driver false (without_password b.instance_)
        _ ← apply_firewall_if_running b.driver i
        pure tt
      modify λ s. record s { operations = (retain_operation b.lease s.operations).1 s.operations }

  -- Start the goroutine: the lease is retained first.
  unfoldable pub leave_boot : Driver W → ℕ → Bool → Instance → AgentServer W → AgentServer W
  leave_boot d l rules i s = record s {
    operations = (retain_operation (some l) s.operations).0;
    boots = s.boots ++ record { lease = some l; driver = d; instance_ = i; rules = rules } ∷ [];
  }
