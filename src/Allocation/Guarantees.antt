-- ===== src/Allocation/Guarantees.antt =====
-- The guarantees of internal/driver/nat_allocation.go for every table that the agent accepts.
use virtualis_agent.Common.{
  ◌<◌, ◌≡◌, ◌≢◌, refl, sym, ap, ◌∙◌, inl, inr, true, false, [], none, Result, ok, arith, ◌==◌,
  subst, Bool-cases, ok-injective, err-ne-ok,
}
use virtualis_agent.Common.Text.{Text, text_eq_iff, text_eq_refl}
use virtualis_agent.Common.Map.{Map, lookup, lookup-insert, eq_Text}
use virtualis_agent.Protocol.{Instance}
use virtualis_agent.Allocation.{
  Net, Subnet, NatAllocation, TableFile, missing, unreadable, table, TableDir, key_of, mem, used_on,
  valid_from, load_table, load_nat_allocations, allocation, allocate_in, allocate_nat_ip,
}
use virtualis_agent.Allocation.Validity.{valid_from-insert}
use virtualis_agent.Allocation.Unique.{IsNet, Free}
use virtualis_agent.Allocation.Promise.{Recorded, Allocated, allocate_in-Allocated, grown, in_use}

pub load-valid :
    (net : Net) (file : TableFile) (m : Map Text NatAllocation)
    → load_table net file ≡ ok m
    → valid_from net [] m ≡ true
unfolding load_table valid_from
load-valid net missing m h = rw (sym (ok-injective h)) refl
load-valid net unreadable m h = absurd (err-ne-ok h)
load-valid net (table t) m h = elim (Bool-cases (valid_from net [] t)) [
  | inl v ↦ subst (λ x. valid_from net [] x ≡ true) (ok-injective (rw v at h)) v
  | inr v ↦ absurd (err-ne-ok (rw v at h))
]

pub load-table :
    (net : Net) (m : Map Text NatAllocation)
    → valid_from net [] m ≡ true
    → load_table net (table m) ≡ ok m
unfolding load_table
load-table net m v = rw v refl

module _ {net : Net} (n : IsNet net) (s : Subnet) (small : s.gateway < 4294967296)
    (driver bridge : Text) (i : Instance) where
  grown-valid :
      (m : Map Text NatAllocation) (ip : Text)
      → (i.id == 0) ≡ false
      → lookup (key_of driver i.id) m ≡ none
      → Free net s (in_use n s small driver bridge i m) ip
      → valid_from net [] m ≡ true
      → valid_from net [] (grown n s small driver bridge i ip m) ≡ true
  unfolding allocation mem used_on
  grown-valid m ip z f ((a, p, inside), fresh) v =
      valid_from-insert net _ _ [] m f z (text_eq_refl _) (rw p refl) refl (ground arith) v

  -- The table that stands in the file afterwards.
  pub record Left (m : Map Text NatAllocation) (dir' : TableDir) (answer : Result Text)
      : Type 0 where
    pub after : Map Text NatAllocation
    pub loads : load_nat_allocations net dir' ≡ ok after
    pub recorded : (ip : Text) → answer ≡ ok ip → Recorded net s driver bridge i ip after
    pub others : (key : Text) → key ≢ key_of driver i.id → lookup key after ≡ lookup key m

  grown-Recorded :
      (m : Map Text NatAllocation) (ip : Text)
      → Free net s (in_use n s small driver bridge i m) ip
      → Recorded net s driver bridge i ip (grown n s small driver bridge i ip m)
  unfolding allocation
  grown-Recorded m ip ((a, p, inside), fresh) = record {
    row = allocation driver bridge i ip;
    found =
        lookup-insert (key_of driver i.id) (key_of driver i.id) _ m
        ∙ rw (text_eq_refl (key_of driver i.id)) refl;
    same_name = refl;
    same_bridge = refl;
    same_ip = refl;
    address = a;
    parsed = p;
    inside = inside;
  }

  grown-others :
      (m : Map Text NatAllocation) (ip key : Text)
      → key ≢ key_of driver i.id
      → lookup key (grown n s small driver bridge i ip m) ≡ lookup key m
  grown-others m ip key h = ground (
    arith,
    lookup-insert (key_of driver i.id) key (allocation driver bridge i ip) m,
    text_eq_iff (key_of driver i.id) key,
  )

  allocation-Left :
      (m : Map Text NatAllocation) (dir : TableDir) (r : Result Text × TableDir)
      → (i.id == 0) ≡ false
      → load_nat_allocations net dir ≡ ok m
      → Allocated n s small driver bridge i m dir r
      → Left m r.1 r.0
  allocation-Left m dir r z h a = elim a.outcome [
    | inl (same, bad) ↦ record {
      after = m;
      loads = rw same h;
      recorded = λ ip e. absurd (ground arith);
      others = λ key k. refl;
    }
    | inr (inl (ip, same, k)) ↦ record {
      after = m;
      loads = rw same h;
      recorded = λ ip' e.
          subst (λ x. Recorded net s driver bridge i x m)
            (ok-injective (sym (ap (λ x. x.0) same) ∙ e)) k;
      others = λ key k. refl;
    }
    | inr (inr (ip, good, (f, free, new))) ↦ record {
      after = grown n s small driver bridge i ip m;
      loads = rw new (
          load-table net (grown n s small driver bridge i ip m)
            (grown-valid m ip z f free (load-valid net dir.file m h)));
      recorded = λ ip' e.
          subst (λ x. Recorded net s driver bridge i x (grown n s small driver bridge i ip m))
            (ok-injective (sym good ∙ e)) (grown-Recorded m ip free);
      others = grown-others m ip;
    }
  ]

  pub allocate-Left :
      (m : Map Text NatAllocation) (dir : TableDir)
      → (i.id == 0) ≡ false
      → load_nat_allocations net dir ≡ ok m
      → Left m
          (allocate_nat_ip net (ok s) driver bridge i dir).1
          (allocate_nat_ip net (ok s) driver bridge i dir).0
  unfolding allocate_nat_ip
  allocate-Left m dir z h = rw h (
      allocation-Left m dir (allocate_in net s driver bridge i m dir) z h
        (allocate_in-Allocated n s small driver bridge i m dir))
