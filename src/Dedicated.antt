-- ===== src/Dedicated.antt =====
-- internal/driver/dedicated.go, dedicated_state.go, dedicated_firewall.go and dedicated_reconcile.go:
-- an instance with an address of its own, which the host routes or bridges to it. `Formats` stands
-- for the packages encoding/json, net and strconv.
pub mod Triples
pub mod Records
pub mod Attach
pub mod Accepted
pub mod Ensure
pub mod Cleanup
pub mod Directory
pub mod Saving
pub mod Unique
pub mod Log
pub mod Calm
pub mod Evidence
pub mod Foreign
pub mod Memory
use virtualis_agent.Common.{
  ℕ, zero, suc, ◌+◌, ◌-◌, ◌/◌, ◌%◌, Bool, true, false, ◌&&◌, ◌||◌, List, [], ◌∷◌, ◌++◌, Option,
  Result, if◌then◌else◌, ltb, leb, ◌==◌, length, all,
}
use virtualis_agent.Common.Text.{Text, text, ◌=ₜ◌, is, to_lower, contains, decimal}
use virtualis_agent.Protocol.{NetworkConfig}
use virtualis_agent.Firewall.{Address}

pub record DedicatedAttachment : Type 0 where
  pub uplink : Text
  pub mode : Text
  pub ip : Text
  pub bridge : Text

pub record DedicatedRecord : Type 0 where
  pub id : ℕ
  pub driver : Text
  pub attachment : DedicatedAttachment
  pub network : NetworkConfig

-- What `ip -j` prints of an interface; of its addresses only the local one is read.
pub record HostAddress : Type 0 where
  pub name : Text
  pub flags : List Text
  pub alias : Text
  pub kind : Text
  pub locals : List Text

-- `protocol` is the JSON text, which may stand in quotes.
pub record Route : Type 0 where
  pub dev : Text
  pub protocol : Text

pub record Formats : Type 0 where
  pub decode_links : Text → Result (List HostAddress)
  pub decode_routes : Text → Result (List Route)
  pub encode_record : DedicatedRecord → Result Text
  pub decode_record : Text → Result DedicatedRecord
  -- strconv.ParseUint(s, 10, 64)
  pub parse_uint : Text → Result ℕ
  -- net.ParseMAC, `none` for an error
  pub parse_mac : Text → Option (List ℕ)
  pub same_ip : Address → Address → Bool

abbrev pub routed_gateway : Text
routed_gateway = text "169.254.0.1"

abbrev pub owned_route_protocol : Text
owned_route_protocol = text "186"

abbrev digit36 : ℕ → ℕ
digit36 d = if ltb d 10 then b'0' + d else b'a' + (d - 10)

-- The digits, by recursion on a bound for their number.
digits36_below : ℕ → ℕ → Text → Text
digits36_below zero n acc = acc
digits36_below (suc f) n acc =
    let rest = digits36_below f (n / 36) (digit36 (n % 36) ∷ acc) in
    if ltb n 36 then digit36 n ∷ acc else rest

-- strconv.FormatUint(n, 36)
unfoldable pub base36 : ℕ → Text
unfolding digits36_below
base36 n = digits36_below (suc n) n []

unfoldable pub owned_bridge : ℕ → Text
unfolding base36
owned_bridge id = text "vb" ++ base36 id

unfoldable pub owned_nic : ℕ → Text
unfolding base36
owned_nic id = text "vt" ++ base36 id

unfoldable pub dedicated_owner : ℕ → Text
dedicated_owner id = text "virtualis:" ++ decimal id

unfoldable pub anti_spoof_chain : ℕ → Text
anti_spoof_chain id = text "VIRTIS-AS-" ++ decimal id

abbrev is_interface_char : ℕ → Bool
is_interface_char c =
    (leb b'a' c && leb c b'z')
    || (leb b'A' c && leb c b'Z')
    || (leb b'0' c && leb c b'9')
    || c == b'_'
    || c == b'.'
    || c == b':'
    || c == b'-'

-- ^[a-zA-Z0-9_.:-]{1,15}$
unfoldable pub host_interface_name : Text → Bool
host_interface_name name = leb 1 (length name) && leb (length name) 15 && all is_interface_char name

-- `contains` of driver.go does not look at the case.
unfoldable pub absent_network_error : Text → Bool
absent_network_error e =
    let says = λ (part : Text). contains (to_lower e) (to_lower part) in
    says (text "Cannot find device")
    || says (text "does not exist")
    || says (text "No such process")
    || says (text "No such file or directory")

-- The interface carries the mark of the instance.
unfoldable pub is_owned_link : ℕ → HostAddress → Bool
unfolding dedicated_owner
is_owned_link id h = h.alias =ₜ dedicated_owner id && is h.kind "bridge"
