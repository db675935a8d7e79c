-- ===== src/Allocation/Promise.antt =====
-- allocateNATIP and releaseNATAllocation of internal/driver/nat_allocation.go as a whole.
use virtualis_agent.Common.{
  ◌<◌, ◌≡◌, refl, ◌⊎◌, inl, inr, true, false, List, [], ◌∷◌, none, some, Result, ok, arith,
  Option-cases, Result-cases, subst, Bool-cases, is_ok,
}
use virtualis_agent.Common.Text.{Text, text_eq_iff, is_empty, before}
use virtualis_agent.Common.Map.{Map, lookup, insert, eq_Text}
use virtualis_agent.Protocol.{Instance}
use virtualis_agent.Allocation.{
  Ip, v4, Net, Subnet, NatAllocation, table, TableDir, key_of, in_subnet, used_on,
  save_nat_allocations, candidate, current_ip, allocation, record_ip, allocate_in,
}
use virtualis_agent.Allocation.Unique.{IsNet, Free, candidate-Free}

-- An instance's record, with an address of the subnet.
pub record Recorded (net : Net) (s : Subnet) (driver bridge : Text) (i : Instance) (ip : Text)
    (m : Map Text NatAllocation) : Type 0 where
  pub row : NatAllocation
  pub found : lookup (key_of driver i.id) m ≡ some row
  pub same_name : row.name ≡ i.name
  pub same_bridge : row.bridge ≡ bridge
  pub same_ip : row.ip ≡ ip
  pub address : Ip
  pub parsed : net.parse_ip ip ≡ some address
  pub inside : in_subnet s address ≡ true

module _ {net : Net} (n : IsNet net) (s : Subnet) (small : s.gateway < 4294967296)
    (driver bridge : Text) (i : Instance) where
  abbrev pub grown : Text → Map Text NatAllocation → Map Text NatAllocation
  grown ip m = insert (key_of driver i.id) (allocation driver bridge i ip) m

  abbrev pub in_use : Map Text NatAllocation → List Text
  in_use m = net.show_ip (v4 s.gateway) ∷ used_on bridge m

  -- The address and the table are new, or nothing is.
  abbrev pub Grows : Map Text NatAllocation → TableDir → TableDir → Text → Type 0
  Grows m dir dir' ip =
      (lookup (key_of driver i.id) m ≡ none)
      × Free net s (in_use m) ip
      × (dir' ≡ record dir { file = table (grown ip m) })

  record_ip-cases :
      (m : Map Text NatAllocation) (ip : Text) (dir : TableDir)
      → (((record_ip net driver bridge i m ip dir).1 ≡ dir)
          × (is_ok (record_ip net driver bridge i m ip dir).0 ≡ false))
        ⊎ ((is_empty ip ≡ false)
            × ((record_ip net driver bridge i m ip dir).1
                ≡ record dir { file = table (grown ip m) })
            × ((record_ip net driver bridge i m ip dir).0 ≡ ok ip))
  unfolding record_ip save_nat_allocations
  record_ip-cases m [] dir = inl (refl, refl)
  record_ip-cases m (c ∷ cs) dir = elim (Bool-cases dir.present) [
    | inl p ↦ elim (Bool-cases dir.writable) [
      | inl w ↦ inr (refl, rw (p, w) refl, rw (p, w) refl)
      | inr w ↦ inl (rw (p, w) refl, rw (p, w) refl)
    ]
    | inr p ↦ inl (rw p refl, rw p refl)
  ]

  current_ip-Recorded :
      (m : Map Text NatAllocation) (r : NatAllocation) (ip : Text)
      → lookup (key_of driver i.id) m ≡ some r
      → current_ip net s bridge i r ≡ ok ip
      → Recorded net s driver bridge i ip m
  unfolding current_ip
  current_ip-Recorded m r ip f e = elim (Option-cases (net.parse_ip r.ip)) [
    | inl bad ↦ absurd (ground arith)
    | inr (a, p) ↦
        let shown : r.ip ≡ ip = ground arith in
        record {
          row = r;
          found = f;
          same_name = ground (arith, text_eq_iff r.name i.name);
          same_bridge = ground (arith, text_eq_iff r.bridge bridge);
          same_ip = shown;
          address = a;
          parsed = subst (λ t. net.parse_ip t ≡ some a) shown p;
          inside = ground arith;
        }
  ]

  -- What allocateNATIP does with a table that was loaded.
  pub record Allocated (m : Map Text NatAllocation) (dir : TableDir) (r : Result Text × TableDir)
      : Type 0 where
    pub outcome :
        ((r.1 ≡ dir) × (is_ok r.0 ≡ false))
        ⊎ ((ip : Text) × (r ≡ (ok ip, dir)) × Recorded net s driver bridge i ip m)
        ⊎ ((ip : Text) × (r.0 ≡ ok ip) × Grows m dir r.1 ip)

  record_ip-Allocated :
      (m : Map Text NatAllocation) (ip : Text) (dir : TableDir)
      → lookup (key_of driver i.id) m ≡ none
      → candidate net s (in_use m) (before b'/' i.network.ipv4) ≡ ok ip
      → Allocated m dir (record_ip net driver bridge i m ip dir)
  record_ip-Allocated m ip dir f c = elim (record_ip-cases m ip dir) [
    | inl (same, bad) ↦ record { outcome = inl (same, bad) }
    | inr (full, new, good) ↦ record {
      outcome = inr (inr (ip, good, (f, candidate-Free n s small _ _ ip c full, new)));
    }
  ]

  pub allocate_in-Allocated :
      (m : Map Text NatAllocation) (dir : TableDir)
      → Allocated m dir (allocate_in net s driver bridge i m dir)
  unfolding allocate_in
  allocate_in-Allocated m dir = elim (Option-cases (lookup (key_of driver i.id) m)) [
    | inl f ↦ elim (Result-cases (candidate net s (in_use m) (before b'/' i.network.ipv4))) [
      | inl (e, bad) ↦ rw (f, bad) (record { outcome = inl (refl, refl) })
      | inr (ip, c) ↦ rw (f, c) (record_ip-Allocated m ip dir f c)
    ]
    | inr (r, f) ↦ elim (Result-cases (current_ip net s bridge i r)) [
      | inl (e, bad) ↦ rw (f, bad) (record { outcome = inl (refl, refl) })
      | inr (ip, c) ↦
          rw (f, c) (record { outcome = inr (inl (ip, refl, current_ip-Recorded m r ip f c)) })
    ]
  ]
