-- ===== src/Server/Queries.antt =====
-- The handlers of cmd/agent/main.go that ask the driver about an instance: statusInstance,
-- metricsInstance, networkInstance, vncInstance, and setPassword.
use virtualis_agent.Common.{
  ℕ, true, ◌&&◌, not, [], Option, none, some, Result, if◌then◌else◌, ◌==◌, leb, ◌-◌, by_result,
}
use virtualis_agent.Common.Text.{Text, text, is_empty}
use virtualis_agent.Common.Map.{lookup, insert, eq_ℕ}
use virtualis_agent.Protocol.{Instance, Metrics, Rate}
use virtualis_agent.Server.{
  Environment, Handler, done_, instance_of, metrics_of, network_of, vnc_of, ◌>>=◌, ◌>>◌, pure,
  modify, get_state, on_host, call, or_error, write, write_error, resolve_driver, store,
  stored_instance, requested_or_stored, boot_ready_of, apply_boot_ready,
}
use virtualis_agent.Server.Ownership.{without_password}
use virtualis_agent.Server.Leases.{apply_or_clear_nat, apply_firewall_if_running}
use virtualis_agent.Server.Create.{require}

abbrev pub or_stored : {A : Type 0} → Option A → A → A
or_stored none a = a
or_stored (some b) a = b

-- The bandwidth since the sample before, if the driver gives none and the counter has not fallen.
unfoldable pub bandwidth : Rate → (now before nanoseconds : ℕ) → Rate
bandwidth given now before nanoseconds =
    if given.bytes == 0 && leb before now
    then record { bytes = now - before; nanoseconds = nanoseconds }
    else given

unfoldable pub add_bandwidth : Metrics → Option Metrics → Metrics
unfolding bandwidth
add_bandwidth m none = m
add_bandwidth m (some previous) =
    let passed = m.collected_at - previous.collected_at in
    if passed == 0 then m else record m {
      bandwidth_rx_bps =
          bandwidth m.bandwidth_rx_bps m.network_rx_bytes previous.network_rx_bytes passed;
      bandwidth_tx_bps =
          bandwidth m.bandwidth_tx_bps m.network_tx_bytes previous.network_tx_bytes passed;
    }

module _ {W : Type 0} (env : Environment W) where
  -- The sample is stored as it was measured.
  unfoldable pub add_bandwidth_sample : ℕ → Metrics → Handler W Metrics
  unfolding add_bandwidth
  add_bandwidth_sample id m = do
    now ← on_host env.now
    let stamped = record m { collected_at = if m.collected_at == 0 then now else m.collected_at }
    s ← get_state
    let previous = lookup id s.metrics
    modify λ t. record t { metrics = insert id stamped t.metrics }
    pure (add_bandwidth stamped previous)

  unfoldable pub status_instance : ℕ → Result Instance → Handler W (Unit {0})
  status_instance id payload = do
    i ← requested_or_stored id payload
    d ← resolve_driver i.driver
    (asked, j) ← call d.status i
    status ← or_error 502 asked
    k ← apply_or_clear_nat env d true (record j { driver = d.name; status = status })
    m ← apply_firewall_if_running env d k
    (_, n) ← call (env.reconcile_network_resources d) m
    s ← get_state
    let answer = record n { ssh_ready = boot_ready_of id s }
    modify (store id answer)
    write 200 (instance_of answer)

  unfoldable pub metrics_instance : ℕ → Result Instance → Handler W (Unit {0})
  unfolding add_bandwidth_sample
  metrics_instance id payload = do
    i ← requested_or_stored id payload
    d ← resolve_driver i.driver
    (asked, _) ← call d.metrics i
    measured ← or_error 502 asked
    metrics ← add_bandwidth_sample id measured
    write 200 (metrics_of metrics)

  unfoldable pub network_instance : ℕ → Result Instance → Handler W (Unit {0})
  network_instance id payload = do
    i ← requested_or_stored id payload
    d ← resolve_driver i.driver
    (asked, j) ← call d.network i
    network ← or_error 502 asked
    (stated, k) ← call d.status j
    status ← or_error 502 stated
    (applied, m) ←
        call (env.reconcile_firewall d (some network))
          (record k { driver = d.name; status = status; observed_ip = [] })
    _ ← or_error 502 applied
    s ← get_state
    let answer = apply_boot_ready s (without_password m)
    modify (store id answer)
    write 200 (network_of network answer.observed_ip)

  unfoldable pub vnc_instance : ℕ → Text → Result Instance → Handler W (Unit {0})
  vnc_instance id request_host payload = do
    i ← requested_or_stored id payload
    d ← resolve_driver i.driver
    (asked, _) ← call (d.vnc request_host) i
    vnc ← or_error 502 asked
    write 200 (vnc_of vnc)

  unfoldable pub set_password : ℕ → Result (Instance × Text) → Handler W (Unit {0})
  set_password id payload =
      by_result payload (λ _. write_error 400 (text "invalid payload"))
        (λ (sent, password). do
          require (sent.id == id) 400 (text "invalid payload")
          require (not (is_empty password)) 400 (text "password required")
          s ← get_state
          let i = or_stored (stored_instance id s) sent
          d ← resolve_driver i.driver
          (done, _) ← call (d.set_root_password password) i
          _ ← or_error 502 done
          write 200 done_)
