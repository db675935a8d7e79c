-- ===== src/Protocol.antt =====
-- internal/protocol/protocol.go: the messages of the master. A slice that the code compares with
-- nil is an `Option`; the percentage of the processor and the latency, which are floating-point
-- numbers, are left out.
use virtualis_agent.Common.{ℕ, Bool, false, List, [], ◌∷◌, Option, none, some}
use virtualis_agent.Common.Int.{ℤ, pos}
use virtualis_agent.Common.Text.{Text}

pub record InstanceSpec : Type 0 where
  pub cpu : ℤ
  pub memory_mb : ℤ
  pub disk_gb : ℤ
  pub arch : Text
  pub cpu_milli : ℤ

pub record NetworkConfig : Type 0 where
  pub mode : Text
  pub dedicated_mode : Text
  pub bridge : Text
  pub mac : Text
  pub ipv4 : Text
  pub gateway : Text
  pub dns : Option (List Text)
  pub bandwidth_mbps : ℤ
  pub traffic_gb : ℤ

pub record Image : Type 0 where
  pub id : ℕ
  pub name : Text
  pub display_name : Text
  pub driver : Text
  pub type : Text
  pub original_name : Text
  pub size_bytes : ℤ
  pub checksum : Text
  pub path : Text
  pub extra_path : Text

pub record NatMapping : Type 0 where
  pub protocol : Text
  pub host_port : ℤ
  pub guest_port : ℤ

pub record FirewallRule : Type 0 where
  pub id : ℕ
  pub direction : Text
  pub action : Text
  pub protocol : Text
  pub port_start : ℤ
  pub port_end : ℤ
  pub cidr : Text
  pub priority : ℤ
  pub enabled : Bool
  pub remark : Text

pub record NetworkSpec : Type 0 where
  pub name : Text
  pub driver : Text
  pub subnet : Text
  pub gateway : Text
  pub dhcp_start : Text
  pub dhcp_end : Text
  pub nat : Bool
  pub dns : List Text

pub record FirewallPolicy : Type 0 where
  pub ingress : Text
  pub egress : Text

pub record Instance : Type 0 where
  pub id : ℕ
  pub name : Text
  pub display_name : Text
  pub driver : Text
  pub type : Text
  pub status : Text
  pub image_id : Option ℕ
  pub spec : InstanceSpec
  pub network : NetworkConfig
  pub observed_ip : Text
  pub image : Option Image
  pub nat_mappings : Option (List NatMapping)
  pub firewall : List FirewallRule
  pub firewall_policy : Option FirewallPolicy
  pub root_password : Text
  pub ssh_ready : Bool

-- A slice with `omitempty`, written as JSON and read back: an empty one is left out, and comes back
-- as nil.
unfoldable pub omit_empty {ℓ} : {A : Type ℓ} → Option (List A) → Option (List A)
omit_empty none = none
omit_empty (some []) = none
omit_empty (some (x ∷ xs)) = some (x ∷ xs)

-- A configuration, and an instance, written as JSON and read back.
abbrev pub rewritten_network : NetworkConfig → NetworkConfig
rewritten_network n = record n { dns = omit_empty n.dns }

abbrev pub rewritten : Instance → Instance
rewritten i = record i {
  network = rewritten_network i.network;
  nat_mappings = omit_empty i.nat_mappings;
}

-- A quotient of bytes by nanoseconds, for a floating-point number of bytes per second; it is 0 if
-- there are no bytes.
pub record Rate : Type 0 where
  pub bytes : ℕ
  pub nanoseconds : ℕ

-- `collected_at` counts nanoseconds, and 0 is the zero time.
pub record Metrics : Type 0 where
  pub memory_used_mb : ℤ
  pub memory_total_mb : ℤ
  pub network_rx_bytes : ℕ
  pub network_tx_bytes : ℕ
  pub bandwidth_rx_bps : Rate
  pub bandwidth_tx_bps : Rate
  pub collected_at : ℕ
  pub traffic_used_bytes : ℕ
  pub traffic_quota_exceeded : Bool

pub record NetworkInterface : Type 0 where
  pub name : Text
  pub mac : Text
  pub state : Text
  pub ipv4 : List Text
  pub ipv6 : List Text
  pub rx_bytes : ℕ
  pub tx_bytes : ℕ

pub record NetworkStatus : Type 0 where
  pub reachable : Bool
  pub interfaces : List NetworkInterface
  pub error : Text

pub record VncInfo : Type 0 where
  pub available : Bool
  pub protocol : Text
  pub host : Text
  pub port : ℤ
  pub display : Text
  pub url : Text
  pub web_url : Text
  pub message : Text

-- The zero values that Go gives to an unset structure.
abbrev pub no_image : Image
no_image = record {
  id = 0;
  name = [];
  display_name = [];
  driver = [];
  type = [];
  original_name = [];
  size_bytes = pos 0;
  checksum = [];
  path = [];
  extra_path = [];
}

abbrev pub no_spec : InstanceSpec
no_spec = record { cpu = pos 0; memory_mb = pos 0; disk_gb = pos 0; arch = []; cpu_milli = pos 0 }

abbrev pub no_network : NetworkConfig
no_network = record {
  mode = [];
  dedicated_mode = [];
  bridge = [];
  mac = [];
  ipv4 = [];
  gateway = [];
  dns = none;
  bandwidth_mbps = pos 0;
  traffic_gb = pos 0;
}

abbrev pub no_instance : Instance
no_instance = record {
  id = 0;
  name = [];
  display_name = [];
  driver = [];
  type = [];
  status = [];
  image_id = none;
  spec = no_spec;
  network = no_network;
  observed_ip = [];
  image = none;
  nat_mappings = none;
  firewall = [];
  firewall_policy = none;
  root_password = [];
  ssh_ready = false;
}
