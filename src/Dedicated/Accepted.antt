-- ===== src/Dedicated/Accepted.antt =====
-- resolveDedicated of internal/driver/dedicated.go: the attachments that it accepts.
use virtualis_agent.Common.{ℕ, true, false, ◌||◌, List, if◌then◌else◌, ◌≡◌}
use virtualis_agent.Common.Text.{Text, text, ◌=ₜ◌, is, is_empty, trim_space}
use virtualis_agent.Common.Sorting.{Among}
use virtualis_agent.Firewall.Script.{mem_text}
use virtualis_agent.Protocol.{NetworkConfig}
use virtualis_agent.Firewall.{Address, Addresses, usable}
use virtualis_agent.Dedicated.{DedicatedAttachment, HostAddress, Formats}
use virtualis_agent.Dedicated.Records.{is_own_record}
use virtualis_agent.Dedicated.Attach.{is_taken}

-- What the request asks of the uplink: the interface of that name, or without a name a physical one
-- that has an address; in either case one that is up and not the loopback.
pub record Fitting (name : Text) (h : HostAddress) : Type 0 where
  pub up : mem_text (text "UP") h.flags ≡ true
  pub not_loopback : is h.name "lo" ≡ false
  pub named : is_empty name ≡ false → (h.name =ₜ name) ≡ true
  pub physical : is_empty name ≡ true → (is_empty h.kind ≡ true) × (is_empty h.locals ≡ false)

-- The attachment is through that interface, and in the mode that was asked for or that fits it.
pub record Through (n : NetworkConfig) (a : DedicatedAttachment) (h : HostAddress) : Type 0 where
  pub fitting : Fitting (trim_space n.bridge) h
  pub uplink : a.uplink ≡ h.name
  pub bridge : a.bridge ≡ h.name
  pub routed : is (trim_space n.dedicated_mode) "routed" ≡ true → a.mode ≡ text "routed"
  pub bridged :
      is (trim_space n.dedicated_mode) "bridge" ≡ true
      → (a.mode ≡ text "bridge") × (is h.kind "bridge" ≡ true)
  pub chosen :
      (is_empty (trim_space n.dedicated_mode) || is (trim_space n.dedicated_mode) "auto") ≡ true
      → a.mode ≡ text (if is h.kind "bridge" then "bridge" else "routed")

-- An attachment as its record and its use need it.
pub record Accepted (net : Addresses) (formats : Formats) (n : NetworkConfig) (ip : Address)
    (hosts : List HostAddress) (a : DedicatedAttachment) : Type 0 where
  pub usable_ip : usable ip ≡ true
  pub spelled : a.ip ≡ ip.spelling
  pub through : (h : HostAddress) × Among h hosts × Through n a h
  pub free : is_taken net formats ip hosts ≡ false
  pub recordable :
      (id : ℕ) (driver : Text)
      → is_own_record id (record { id = id; driver = driver; attachment = a; network = n }) ≡ true
  pub bridge_gateway : is a.mode "bridge" ≡ true → is_empty n.gateway ≡ false
