-- ===== src/Tests/Addresses.antt =====
-- The address table at concrete inputs. Package net is instantiated with a spelling of its own: an
-- IPv4 address is the text of its one number, and any longer text is another address.
use virtualis_agent.Common.{
  ℕ, ◌<◌, ◌≡◌, ◌≢◌, refl, ap, subst, true, false, [], ◌∷◌, Option, none, some, ok, arith,
}
use virtualis_agent.Common.Map.{Map, lookup, eq_Text, insert, delete}
use virtualis_agent.Common.Text.{Text, text, ◌=ₜ◌, decimal, before}
use virtualis_agent.Allocation.{
  Ip, v4, v6, Net, Subnet, NatAllocation, missing, table, TableDir, key_of, base, in_subnet, mem,
  used_on, valid_from, load_table, load_nat_allocations, save_nat_allocations, find_slot, candidate,
  allocation, record_ip, allocate_in, allocate_nat_ip, release_nat_allocation,
}
use virtualis_agent.Allocation.Unique.{IsNet}
use virtualis_agent.Allocation.Exclusive.{
  allocate_nat_ip-loads, allocate_nat_ip-exclusive, allocate_nat_ip-stable,
  release_nat_allocation-removes,
}
use virtualis_agent.Tests.Host.{web}

unfoldable parse : Text → Option Ip
parse [] = none
parse (n ∷ []) = some (v4 n)
parse (n ∷ m ∷ t) = some (v6 (n ∷ m ∷ t))

abbrev show : Ip → Text
show (v4 n) = n ∷ []
show (v6 t) = t

abbrev net : Net
net = record { parse_ip = parse; show_ip = show }

parse-show : (t : Text) (ip : Ip) → parse t ≡ some ip → parse (show ip) ≡ some ip
unfolding parse
parse-show [] ip e = absurd (ground arith)
parse-show (n ∷ []) (v4 m) e = refl
parse-show (n ∷ []) (v6 t) e = absurd (ground arith)
parse-show (n ∷ m ∷ t) (v4 k) e = absurd (ground arith)
parse-show (n ∷ m ∷ t) (v6 u) e =
    subst (λ x. parse x ≡ some (v6 x)) (ap (λ o. elim o [ some (v6 x) ↦ x | _ ↦ u ]) e) refl

parse-v4 : (n : ℕ) → n < 4294967296 → parse (show (v4 n)) ≡ some (v4 n)
unfolding parse
parse-v4 n h = refl

net-IsNet : IsNet net
net-IsNet = record { parse_show = parse-show; parse_v4 = parse-v4 }

-- 10.0.0.1/24
abbrev bridge : Subnet
bridge = record { gateway = 167772161; prefix = 24 }

abbrev empty : TableDir
empty = record { present = true; writable = true; file = missing }

abbrev row : NatAllocation
row = record {
  id = 7;
  name = text "web";
  driver = text "qemu";
  bridge = text "virbr0";
  ip = 167772260 ∷ [];
}

abbrev filled : TableDir
filled = record empty { file = table ((key_of (text "qemu") 7, row) ∷ []) }

first_slot :
    allocate_nat_ip net (ok bridge) (text "qemu") (text "virbr0") web empty
    ≡ (ok (167772260 ∷ []), filled)
unfolding allocate_nat_ip load_table allocate_in candidate find_slot in_subnet base mem used_on
    before lookup record_ip save_nat_allocations allocation insert ◌=ₜ◌
first_slot = refl

no_table : load_nat_allocations net empty ≡ ok []
unfolding load_table
no_table = refl

one_row : load_nat_allocations net filled ≡ ok ((key_of (text "qemu") 7, row) ∷ [])
unfolding load_table valid_from mem used_on ◌=ₜ◌ key_of text decimal parse
one_row = refl

allocate_nat_ip-loads_example :
    (m' : Map Text NatAllocation) × (load_nat_allocations net
        (allocate_nat_ip net (ok bridge) (text "qemu") (text "virbr0") web empty).1
      ≡ ok m')
    × ((key : Text)
        → key ≢ key_of (text "qemu") web.id
        → lookup key m' ≡ lookup {V = NatAllocation} key [])
allocate_nat_ip-loads_example =
    allocate_nat_ip-loads net-IsNet bridge (omega arith) (text "qemu") (text "virbr0") web [] empty
      refl no_table

allocate_nat_ip-exclusive_example :
    ((a : Ip) × (net.parse_ip (167772260 ∷ []) ≡ some a) × (in_subnet bridge a ≡ true))
    × ((m' : Map Text NatAllocation) × (load_nat_allocations net filled ≡ ok m')
        × ((key : Text) (r : NatAllocation)
            → lookup key m' ≡ some r
            → r.bridge ≡ text "virbr0"
            → r.ip ≡ 167772260 ∷ []
            → key ≡ key_of (text "qemu") web.id))
allocate_nat_ip-exclusive_example =
    allocate_nat_ip-exclusive net-IsNet bridge (omega arith) (text "qemu") (text "virbr0") web []
      empty filled (167772260 ∷ []) refl no_table first_slot

allocate_nat_ip-stable_example :
    allocate_nat_ip net
      (ok bridge)
      (text "qemu")
      (text "virbr0")
      web
      (record filled { writable = false })
    ≡ (ok (167772260 ∷ []), record filled { writable = false })
allocate_nat_ip-stable_example =
    allocate_nat_ip-stable net-IsNet bridge (omega arith) (text "qemu") (text "virbr0") web [] empty
      filled (record filled { writable = false }) (167772260 ∷ []) refl no_table first_slot refl

released :
    release_nat_allocation net (text "qemu") 7 filled ≡ (ok tt, record filled { file = table [] })
unfolding release_nat_allocation load_table valid_from mem used_on ◌=ₜ◌ key_of text decimal parse
    lookup delete save_nat_allocations
released = refl

release_nat_allocation-removes_example :
    (m' : Map Text NatAllocation) × (load_nat_allocations net (record filled { file = table [] })
      ≡ ok m')
    × (lookup (key_of (text "qemu") 7) m' ≡ none)
    × ((key : Text)
        → key ≢ key_of (text "qemu") 7
        → lookup key m' ≡ lookup key ((key_of (text "qemu") 7, row) ∷ []))
release_nat_allocation-removes_example =
    release_nat_allocation-removes net (text "qemu") 7 ((key_of (text "qemu") 7, row) ∷ []) filled
      (record filled { file = table [] }) one_row released
