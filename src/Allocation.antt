-- ===== src/Allocation.antt =====
-- internal/driver/nat_allocation.go: the table of the addresses on the NAT bridges, kept in a file.
-- Reading back a table that was written gives it unchanged, and the rename of its file is atomic.
-- `Net` stands for the package net of the standard library.
pub mod Validity
pub mod Unique
pub mod Promise
pub mod Guarantees
pub mod Exclusive
use virtualis_agent.Common.{
  ℕ, zero, suc, ◌+◌, ◌-◌, ◌*◌, ◌/◌, ◌^◌, Bool, true, false, ◌&&◌, ◌||◌, not, List, [], ◌∷◌, ◌++◌,
  Option, none, some, Result, ok, err, if◌then◌else◌, ◌==◌, by_result, by_option, is_some,
}
use virtualis_agent.Common.Text.{Text, text, ◌=ₜ◌, is_empty, before, decimal}
use virtualis_agent.Common.Map.{Map, lookup, insert, delete, eq_Text}
use virtualis_agent.Protocol.{Instance}

-- An IPv4 address by its number, or another that net.ParseIP reads.
pub data Ip : Type 0 where
  v4 : ℕ → Ip
  v6 : Text → Ip

pub record Net : Type 0 where
  pub parse_ip : Text → Option Ip
  pub show_ip : Ip → Text

-- What bridgeIPv4 finds: the bridge's own address and the length of its prefix.
pub record Subnet : Type 0 where
  pub gateway : ℕ
  pub prefix : ℕ

pub record NatAllocation : Type 0 where
  pub id : ℕ
  pub name : Text
  pub driver : Text
  pub bridge : Text
  pub ip : Text

-- The file: missing, unreadable or not parsed, or a table.
pub data TableFile : Type 0 where
  missing unreadable : TableFile
  table : Map Text NatAllocation → TableFile

-- The file, whether the agent has a directory for it, and whether the next write succeeds.
pub record TableDir : Type 0 where
  pub present : Bool
  pub writable : Bool
  pub file : TableFile

unfoldable pub key_of : Text → ℕ → Text
key_of driver id = driver ++ b'/' ∷ decimal id

abbrev block : Subnet → ℕ
block s = 2 ^ (32 - s.prefix)

-- gateway.Mask(subnet.Mask), which is subnet.IP too.
unfoldable pub base : Subnet → ℕ
base s = s.gateway / block s * block s

-- subnet.Contains
unfoldable pub in_subnet : Subnet → Ip → Bool
in_subnet s (v4 n) = n / block s == s.gateway / block s
in_subnet s (v6 _) = false

unfoldable pub mem : Text → List Text → Bool
mem t [] = false
mem t (u ∷ us) = u =ₜ t || mem t us

-- The addresses of the records on a bridge.
unfoldable pub used_on : Text → Map Text NatAllocation → List Text
used_on bridge [] = []
used_on bridge ((key, r) ∷ m) =
    let rest = used_on bridge m in if r.bridge =ₜ bridge then r.ip ∷ rest else rest

unfoldable pub save_nat_allocations :
    Map Text NatAllocation → TableDir → Result (Unit {0}) × TableDir
save_nat_allocations m dir =
    if not dir.present
    then (err (text "NAT allocation requires persistent agent storage"), dir)
    else if not dir.writable
    then (err (text "write failed"), dir)
    else (ok tt, record dir { file = table m })

unfoldable pub allocation : Text → Text → Instance → Text → NatAllocation
allocation driver bridge i ip = record {
  id = i.id;
  name = i.name;
  driver = driver;
  bridge = bridge;
  ip = ip;
}

module _ (net : Net) where
  -- The identities seen so far are those of `seen`.
  unfoldable pub valid_from : Map Text NatAllocation → Map Text NatAllocation → Bool
  unfolding mem used_on key_of
  valid_from seen [] = true
  valid_from seen ((key, r) ∷ m) =
      not (r.id == 0)
      && key =ₜ key_of r.driver r.id
      && is_some (net.parse_ip r.ip)
      && not (mem r.ip (used_on r.bridge seen))
      && valid_from ((key, r) ∷ seen) m

  unfoldable pub load_table : TableFile → Result (Map Text NatAllocation)
  unfolding valid_from
  load_table missing = ok []
  load_table unreadable = err (text "NAT allocation table is corrupt")
  load_table (table m) =
      if valid_from [] m
      then ok m
      else err (text "NAT allocation table contains conflicting identities")

  abbrev pub load_nat_allocations : TableDir → Result (Map Text NatAllocation)
  load_nat_allocations dir = load_table dir.file

  -- The first free address of as many slots, from a slot on; the empty text if there is none.
  unfoldable pub find_slot : Subnet → List Text → (count slot : ℕ) → Text
  unfolding mem in_subnet base
  find_slot s used zero slot = []
  find_slot s used (suc count) slot =
      let rest = find_slot s used count (suc slot) in
      let n = base s / 256 * 256 + slot in
      if in_subnet s (v4 n) && not (n == base s) && not (mem (net.show_ip (v4 n)) used)
      then net.show_ip (v4 n)
      else rest

  -- The address that the instance asks for, or else the first free one of the slots 100 to 239.
  unfoldable pub candidate : Subnet → List Text → Text → Result Text
  unfolding find_slot
  candidate s used requested =
      if is_empty requested
      then ok (find_slot s used 140 100)
      else by_option (net.parse_ip requested)
          (err (text "requested NAT address conflicts with an existing allocation"))
          (λ ip.
            if not (in_subnet s ip) || mem (net.show_ip ip) used
            then err (text "requested NAT address conflicts with an existing allocation")
            else ok (net.show_ip ip))

  abbrev contains_text : Subnet → Option Ip → Bool
  contains_text s none = false
  contains_text s (some ip) = in_subnet s ip

  -- A record that the table has already.
  unfoldable pub current_ip : Subnet → Text → Instance → NatAllocation → Result Text
  unfolding in_subnet
  current_ip s bridge i r =
      if not (r.name =ₜ i.name)
        || not (r.bridge =ₜ bridge)
        || not (contains_text s (net.parse_ip r.ip))
      then err (text "NAT identity conflicts with persisted allocation")
      else ok r.ip

  -- The new record is saved before its address is given out.
  unfoldable pub record_ip :
      Text → Text → Instance → Map Text NatAllocation → Text → TableDir → Result Text × TableDir
  unfolding allocation save_nat_allocations
  record_ip driver bridge i m ip dir =
      if is_empty ip
      then (err (text "NAT address slots exhausted (140-slot managed range)"), dir)
      else let m' = insert (key_of driver i.id) (allocation driver bridge i ip) m in
        let (saved, dir') = save_nat_allocations m' dir in (by_result saved err (λ _. ok ip), dir')

  unfoldable pub allocate_in :
      Subnet → Text → Text → Instance → Map Text NatAllocation → TableDir → Result Text × TableDir
  unfolding current_ip candidate record_ip used_on
  allocate_in s driver bridge i m dir =
      by_option (lookup (key_of driver i.id) m)
        (by_result
          (candidate s (net.show_ip (v4 s.gateway) ∷ used_on bridge m) (before b'/' i.network.ipv4))
          (λ e. (err e, dir)) (λ ip. record_ip driver bridge i m ip dir))
        (λ r. (current_ip s bridge i r, dir))

  -- `inspected` is the result of bridgeIPv4.
  unfoldable pub allocate_nat_ip :
      Result Subnet → Text → Text → Instance → TableDir → Result Text × TableDir
  unfolding load_table allocate_in
  allocate_nat_ip inspected driver bridge i dir =
      by_result inspected (λ e. (err e, dir))
        (λ s.
          by_result (load_nat_allocations dir) (λ e. (err e, dir))
            (λ m. allocate_in s driver bridge i m dir))

  unfoldable pub release_nat_allocation : Text → ℕ → TableDir → Result (Unit {0}) × TableDir
  unfolding load_table save_nat_allocations
  release_nat_allocation driver id dir =
      by_result (load_nat_allocations dir) (λ e. (err e, dir))
        (λ m.
          if is_some (lookup (key_of driver id) m)
          then save_nat_allocations (delete (key_of driver id) m) dir
          else (ok tt, dir))
