-- ===== src/Allocation/Exclusive.antt =====
-- The addresses of a NAT bridge, as the callers of internal/driver/nat_allocation.go see them.
use virtualis_agent.Common.{
  ℕ, ◌<◌, ◌≡◌, ◌≢◌, refl, sym, ap, ◌∙◌, inl, inr, true, false, [], none, some, ok, arith, ◌==◌,
  Option-cases, subst, Bool-cases, err-ne-ok,
}
use virtualis_agent.Common.Text.{Text, text_eq_iff, text_eq_refl}
use virtualis_agent.Common.Map.{Map, lookup, delete, lookup-delete, eq_Text}
use virtualis_agent.Protocol.{Instance}
use virtualis_agent.Allocation.{
  Ip, Net, Subnet, NatAllocation, table, TableDir, key_of, in_subnet, load_table,
  load_nat_allocations, save_nat_allocations, current_ip, allocate_in, allocate_nat_ip,
  release_nat_allocation,
}
use virtualis_agent.Allocation.Validity.{valid_from-delete}
use virtualis_agent.Allocation.Unique.{IsNet, valid_from-alone}
use virtualis_agent.Allocation.Promise.{Recorded}
use virtualis_agent.Allocation.Guarantees.{allocate-Left, load-table, load-valid}

module _ {net : Net} (n : IsNet net) (s : Subnet) (small : s.gateway < 4294967296)
    (driver bridge : Text) (i : Instance) where
  -- If the table in the file is one that the agent accepts and the instance's id is not 0, then an
  -- allocation, whether it succeeds or fails, leaves a table that the agent accepts, with the records
  -- of all other instances as they were. `IsNet` is assumed of package net, and the gateway is below
  -- 2^32.
  pub allocate_nat_ip-loads :
      (m : Map Text NatAllocation) (dir : TableDir)
      → (i.id == 0) ≡ false
      → load_nat_allocations net dir ≡ ok m
      → (m' : Map Text NatAllocation) × (load_nat_allocations net
            (allocate_nat_ip net (ok s) driver bridge i dir).1
          ≡ ok m')
        × ((key : Text) → key ≢ key_of driver i.id → lookup key m' ≡ lookup key m)
  allocate_nat_ip-loads m dir z h =
      let l = allocate-Left n s small driver bridge i m dir z h in (l.after, l.loads, l.others)

  -- From an accepted table and for an id other than 0, an allocation that succeeds gives an address
  -- that package net reads as one of the bridge's subnet, and in the table that it leaves no other
  -- key has that address on that bridge. `IsNet` is assumed of package net, and the gateway is below
  -- 2^32.
  pub allocate_nat_ip-exclusive :
      (m : Map Text NatAllocation) (dir dir' : TableDir) (ip : Text)
      → (i.id == 0) ≡ false
      → load_nat_allocations net dir ≡ ok m
      → allocate_nat_ip net (ok s) driver bridge i dir ≡ (ok ip, dir')
      → ((a : Ip) × (net.parse_ip ip ≡ some a) × (in_subnet s a ≡ true))
        × ((m' : Map Text NatAllocation) × (load_nat_allocations net dir' ≡ ok m')
            × ((key : Text) (r : NatAllocation)
                → lookup key m' ≡ some r
                → r.bridge ≡ bridge
                → r.ip ≡ ip
                → key ≡ key_of driver i.id))
  allocate_nat_ip-exclusive m dir dir' ip z h e =
      let l = allocate-Left n s small driver bridge i m dir z h in
      let k = l.recorded ip (ap (λ x. x.0) e) in
      let loads = subst (λ d. load_nat_allocations net d ≡ ok l.after) (ap (λ x. x.1) e) l.loads in
      (
        (k.address, k.parsed, k.inside),
        (
          l.after,
          loads,
          λ key r f b j.
              valid_from-alone net [] l.after key (key_of driver i.id) r k.row
                (load-valid net dir'.file l.after loads) f k.found (b ∙ sym k.same_bridge)
                (j ∙ sym k.same_ip),
        ),
      )

  current_ip-again :
      (m : Map Text NatAllocation) (ip : Text) (k : Recorded net s driver bridge i ip m)
      → current_ip net s bridge i k.row ≡ ok ip
  unfolding current_ip
  current_ip-again m ip k =
      rw
        (
          k.same_name,
          k.same_bridge,
          k.same_ip,
          text_eq_refl i.name,
          text_eq_refl bridge,
          k.parsed,
          k.inside,
        )
        refl

  -- From an accepted table and for an id other than 0, once an allocation has succeeded the same one
  -- gives the same address again and writes nothing, on any directory with that file. `IsNet` is
  -- assumed of package net, and the gateway is below 2^32.
  pub allocate_nat_ip-stable :
      (m : Map Text NatAllocation) (dir dir' later : TableDir) (ip : Text)
      → (i.id == 0) ≡ false
      → load_nat_allocations net dir ≡ ok m
      → allocate_nat_ip net (ok s) driver bridge i dir ≡ (ok ip, dir')
      → later.file ≡ dir'.file
      → allocate_nat_ip net (ok s) driver bridge i later ≡ (ok ip, later)
  unfolding allocate_nat_ip allocate_in
  allocate_nat_ip-stable m dir dir' later ip z h e f =
      let l = allocate-Left n s small driver bridge i m dir z h in
      let k = l.recorded ip (ap (λ x. x.0) e) in
      let loads : load_nat_allocations net later ≡ ok l.after =
        ap (load_table net) f
        ∙ subst (λ d. load_nat_allocations net d ≡ ok l.after) (ap (λ x. x.1) e) l.loads in
      rw (loads, k.found, current_ip-again l.after ip k) refl

saved-file :
    (m : Map Text NatAllocation) (dir dir' : TableDir)
    → save_nat_allocations m dir ≡ (ok tt, dir')
    → dir'.file ≡ table m
unfolding save_nat_allocations
saved-file m dir dir' e = elim (Bool-cases dir.present) [
  | inr p ↦ absurd (err-ne-ok (ap (λ x. x.0) (rw p at e)))
  | inl p ↦ elim (Bool-cases dir.writable) [
    | inr w ↦ absurd (err-ne-ok (ap (λ x. x.0) (rw (p, w) at e)))
    | inl w ↦ sym (ap (λ x. x.1.file) (rw (p, w) at e))
  ]
]

-- A release that succeeds on an accepted table leaves one that the agent accepts, in which the
-- instance has no record and every other record is as it was.
pub release_nat_allocation-removes :
    (net : Net) (driver : Text) (id : ℕ) (m : Map Text NatAllocation) (dir dir' : TableDir)
    → load_nat_allocations net dir ≡ ok m
    → release_nat_allocation net driver id dir ≡ (ok tt, dir')
    → (m' : Map Text NatAllocation) × (load_nat_allocations net dir' ≡ ok m')
      × (lookup (key_of driver id) m' ≡ none)
      × ((key : Text) → key ≢ key_of driver id → lookup key m' ≡ lookup key m)
unfolding release_nat_allocation
release_nat_allocation-removes net driver id m dir dir' h e =
    elim (Option-cases (lookup (key_of driver id) m)) [
      | inl f ↦ (
        m,
        subst (λ d. load_nat_allocations net d ≡ ok m) (ap (λ x. x.1) (rw (h, f) at e)) h,
        f,
        λ key k. refl,
      )
      | inr (r, f) ↦ (
        delete (key_of driver id) m,
        ap (load_table net) (saved-file (delete (key_of driver id) m) dir dir' (rw (h, f) at e))
            ∙ load-table net (delete (key_of driver id) m)
                (valid_from-delete net (key_of driver id) [] m (load-valid net dir.file m h)),
        lookup-delete (key_of driver id) (key_of driver id) m
            ∙ rw (text_eq_refl (key_of driver id)) refl,
        λ key k.
            ground
              (arith, lookup-delete (key_of driver id) key m, text_eq_iff (key_of driver id) key),
      )
    ]
