-- ===== src/Tests/Host.antt =====
-- A host without state on which every call succeeds, one driver, and an instance.
use virtualis_agent.Common.{true, false, [], ◌∷◌, none, Result, ok}
use virtualis_agent.Common.Int.{pos}
use virtualis_agent.Common.Text.{text}
use virtualis_agent.Protocol.{Instance, Metrics, NetworkStatus, VncInfo, no_instance}
use virtualis_agent.Driver.{Driver, Call, Host}
use virtualis_agent.Server.{AgentServer, Environment, holding}

abbrev pub U : Type 0
U = Unit {0}

abbrev pub done_call : {W : Type 0} → Call W (Unit {0})
done_call i w = (ok tt, i, w)

abbrev pub done_host : {W : Type 0} → Host W (Result (Unit {0}))
done_host w = (ok tt, w)

abbrev pub no_metrics : Metrics
no_metrics = record {
  memory_used_mb = pos 0;
  memory_total_mb = pos 0;
  network_rx_bytes = 0;
  network_tx_bytes = 0;
  bandwidth_rx_bps = record { bytes = 0; nanoseconds = 1 };
  bandwidth_tx_bps = record { bytes = 0; nanoseconds = 1 };
  collected_at = 0;
  traffic_used_bytes = 0;
  traffic_quota_exceeded = false;
}

abbrev quiet_network : NetworkStatus
quiet_network = record { reachable = true; interfaces = []; error = [] }

abbrev no_console : VncInfo
no_console = record {
  available = false;
  protocol = [];
  host = [];
  port = pos 0;
  display = [];
  url = [];
  web_url = [];
  message = [];
}

abbrev pub any_driver : {W : Type 0} → Driver W
any_driver = record {
  name = text "qemu";
  probe = done_host;
  create = done_call;
  delete = done_call;
  start = done_call;
  stop = done_call;
  restart = done_call;
  hard_start = done_call;
  hard_stop = done_call;
  hard_restart = done_call;
  reinstall = done_call;
  status = λ i w. (ok (text "running"), i, w);
  metrics = λ i w. (ok no_metrics, i, w);
  network = λ i w. (ok quiet_network, i, w);
  configure_network = done_call;
  vnc = λ host i w. (ok no_console, i, w);
  set_root_password = λ password. done_call;
  create_network = λ spec. done_host;
  delete_network = λ name. done_host;
  recovery = none;
  validate_import = none;
  replace_import = none;
  resize = none;
  traffic = none;
}

abbrev pub qemu : Driver U
qemu = any_driver

abbrev pub any_host : {W : Type 0} → Environment W
any_host = record {
  write_owner_temp = done_host;
  rename_owner_temp = done_host;
  remove_owner_file = done_host;
  create_image = λ extension w. (ok (text "/images/a"), w);
  create_recovery_file = λ w. (ok (text "/recovery/a"), w);
  create_export_dir = λ w. (ok (text "/exports/a"), w);
  copy_upload = λ upload path limit w. (ok 5, w);
  file_size = λ path w. (ok 5, w);
  remove = λ path w. w;
  prepare_disk_file = λ path w. w;
  apply_nat_rules = λ d retries interval i w. (ok 0, i, w);
  clear_nat_rules = λ id w. w;
  reconcile_firewall = λ d status. done_call;
  clear_firewall = λ id w. w;
  reconcile_network_resources = λ d. done_call;
  now = λ w. (0, w);
  is_ip = λ ip. true;
}

abbrev pub host : Environment U
host = any_host

abbrev pub web : Instance
web = record no_instance {
  id = 7;
  name = text "web";
  driver = text "qemu";
  root_password = text "secret";
}

abbrev pub agent : AgentServer U
agent = record {
  registry = record { drivers = (text "qemu", qemu) ∷ [] };
  instances = [];
  operations = record { busy = []; leases = [] };
  metrics = [];
  boot_ready = [];
  owned = [];
  boots = [];
  world = tt;
}

-- The same agent, which knows the instance.
abbrev pub owning : AgentServer U
owning = record agent {
  instances = (7, record web { root_password = [] }) ∷ [];
  owned = (7, holding (record web { root_password = [] })) ∷ [];
}
