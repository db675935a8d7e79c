-- ===== src/Firewall/Observation.antt =====
-- ObservedIPv4 of internal/driver/firewall_observed.go: which address it is.
use virtualis_agent.Common.{
  true, List, [], ◌∷◌, Option, none, some, if◌then◌else◌, by_option, ◌≡◌, refl, sym, subst, ap, ◌∙◌,
  ◌⊎◌, inl, inr, Bool-cases, Option-cases, arith, is_some, or_else,
}
use virtualis_agent.Common.Sorting.{
  Among, here, there, Among-cons, sort_by, IsSorted, sort_by-IsSorted, sort_by-Among, Among-sort_by,
  head-le, tail-IsSorted,
}
use virtualis_agent.Common.Text.{Text, before}
use virtualis_agent.Protocol.{NetworkStatus, NetworkInterface}
use virtualis_agent.Firewall.{Address, Addresses, usable}
use virtualis_agent.Firewall.Observed.{
  interface_le, is_observable, usable_spelling, first_usable, observed_in, observed_ipv4,
}
use virtualis_agent.Firewall.Precedence.{interface_le-total, interface_le_trans, interface_le_refl}

module _ (net : Addresses) where
  -- A usable address of a list, as it is spelled.
  pub record Usable (addresses : List Text) (t : Text) : Type 0 where
    pub listed : Text
    pub among : Among listed addresses
    pub address : Address
    pub read : net.parse_ip (before b'/' listed) ≡ some address
    pub good : usable address ≡ true
    pub spelled : address.spelling ≡ t

  spelling_of :
      (o : Option Address) (t : Text)
      → by_option o none (λ a. if usable a then some a.spelling else none) ≡ some t
      → (a : Address) × ((o ≡ some a) × (usable a ≡ true) × (a.spelling ≡ t))
  spelling_of none t h = absurd (ground (arith, h))
  spelling_of (some a) t h = elim (Bool-cases (usable a)) [
    | inl good ↦ (a, (refl, good, ap (λ o. or_else o []) (rw good at h)))
    | inr bad ↦ absurd (ground (arith, (rw bad at h)))
  ]

  usable_spelling-good :
      (x : Text) (t : Text)
      → usable_spelling net x ≡ some t
      → (a : Address) × ((net.parse_ip (before b'/' x) ≡ some a)
          × (usable a ≡ true)
          × (a.spelling ≡ t))
  unfolding usable_spelling
  usable_spelling-good x t h = spelling_of (net.parse_ip (before b'/' x)) t h

  first_usable-Usable :
      (addresses : List Text) (t : Text) → first_usable net addresses ≡ some t → Usable addresses t
  unfolding first_usable
  first_usable-Usable [] t h = absurd (ground (arith, h))
  first_usable-Usable (x ∷ rest) t h = elim (Option-cases (usable_spelling net x)) [
    | inl nothing ↦
        let later = first_usable-Usable rest t (rw (nothing, first_usable) at h) in
        record {
          listed = later.listed;
          among = there later.among;
          address = later.address;
          read = later.read;
          good = later.good;
          spelled = later.spelled;
        }
    | inr (u, e) ↦
        let same : u ≡ t = ap (λ o. or_else o []) (rw (e, first_usable) at h) in
        let (a, (read, good, spelled)) = usable_spelling-good x u e in
        record {
          listed = x;
          among = here;
          address = a;
          read = read;
          good = good;
          spelled = spelled ∙ same;
        }
  ]

  -- The address that is observed: of the first interface, by the order, that is observable and has
  -- one.
  pub record Chosen (mac : Text) (fs : List NetworkInterface) (t : Text) : Type 0 where
    pub interface : NetworkInterface
    pub listed : Among interface fs
    pub observable : is_observable mac interface ≡ true
    pub address : Usable interface.ipv4 t
    pub first :
        (g : NetworkInterface)
        → Among g fs
        → is_observable mac g ≡ true
        → is_some (first_usable net g.ipv4) ≡ true
        → interface_le mac interface g ≡ true

  -- No interface has one.
  abbrev pub Nothing : Text → List NetworkInterface → Type 0
  Nothing mac fs =
      (g : NetworkInterface)
      → Among g fs
      → is_observable mac g ≡ true
      → first_usable net g.ipv4 ≡ none

  skipped :
      (mac : Text) (f : NetworkInterface) (fs : List NetworkInterface)
      → (is_observable mac f ≡ true → first_usable net f.ipv4 ≡ none)
      → Nothing mac fs
      → Nothing mac (f ∷ fs)
  skipped mac f fs k rest g m = elim (Among-cons m) [
    | inl e ↦ subst (λ z. is_observable mac z ≡ true → first_usable net z.ipv4 ≡ none) (sym e) k
    | inr later ↦ rest g later
  ]

  passed_over :
      (mac : Text) (f : NetworkInterface) (fs : List NetworkInterface) (t : Text)
      → (is_observable mac f ≡ true → first_usable net f.ipv4 ≡ none)
      → Chosen mac fs t
      → Chosen mac (f ∷ fs) t
  passed_over mac f fs t k c = record {
    interface = c.interface;
    listed = there c.listed;
    observable = c.observable;
    address = c.address;
    first = λ g m seen has. elim (Among-cons m) [
      | inl e ↦ absurd (
          ground (
            arith,
            has,
            subst (λ z. is_observable mac z ≡ true → first_usable net z.ipv4 ≡ none) (sym e) k seen,
          ))
      | inr later ↦ c.first g later seen has
    ];
  }

  -- Either of the two, for a list.
  abbrev Decided : Text → List NetworkInterface → Option Text → Type 0
  Decided mac fs r = ((r ≡ none) × Nothing mac fs) ⊎ ((t : Text) × ((r ≡ some t) × Chosen mac fs t))

  without_head :
      (mac : Text) (f : NetworkInterface) (fs : List NetworkInterface) (r : Option Text)
      → (is_observable mac f ≡ true → first_usable net f.ipv4 ≡ none)
      → Decided mac fs r
      → Decided mac (f ∷ fs) r
  without_head mac f fs r k (inl (e, n)) = inl (e, skipped mac f fs k n)
  without_head mac f fs r k (inr (t, (e, c))) = inr (t, (e, passed_over mac f fs t k c))

  observed_in-Decided :
      (mac : Text) (fs : List NetworkInterface)
      → IsSorted (interface_le mac) fs
      → Decided mac fs (observed_in net mac fs)
  unfolding observed_in
  observed_in-Decided mac [] s = inl (refl, λ g m seen. elim m [ ])
  observed_in-Decided mac (f ∷ fs) s =
      let rest = observed_in-Decided mac fs (tail-IsSorted (interface_le mac) s) in
      elim (Bool-cases (is_observable mac f)) [
        | inl seen ↦ elim (Option-cases (first_usable net f.ipv4)) [
          | inl nothing ↦ rw (seen, nothing) (without_head mac f fs _ (λ _. nothing) rest)
          | inr (t, e) ↦
              rw (seen, e)
                (inr (
                  t,
                  (
                    refl,
                    record {
                      interface = f;
                      listed = here;
                      observable = seen;
                      address = first_usable-Usable f.ipv4 t e;
                      first = λ g m _ _. elim (Among-cons m) [
                        | inl same ↦
                            subst (λ z. interface_le mac f z ≡ true) (sym same)
                              (interface_le_refl mac f)
                        | inr later ↦ head-le (interface_le mac) s g later
                      ];
                    },
                  ),
                ))
        ]
        | inr unseen ↦
            rw unseen (without_head mac f fs _ (λ seen. absurd (ground (arith, seen, unseen))) rest)
      ]

  -- Either no interface of the configured hardware address that is up and not the loopback has a
  -- usable IPv4 address, and the address observed is empty; or it is a usable address of the first
  -- of these interfaces that has one, in the order by hardware address, the name eth0 and name.
  pub observed_ipv4-Chosen :
      (status : NetworkStatus) (mac : Text)
      → ((observed_ipv4 net status mac ≡ []) × Nothing mac status.interfaces)
        ⊎ Chosen mac status.interfaces (observed_ipv4 net status mac)
  unfolding observed_ipv4
  observed_ipv4-Chosen status mac =
      let fs = status.interfaces in
      let le = interface_le mac in
      let sorted = sort_by-IsSorted le (interface_le-total mac) (interface_le_trans mac) fs in
      elim (observed_in-Decided mac (sort_by le fs) sorted) [
        | inl (e, none_there) ↦ rw e (inl (refl, λ g m. none_there g (Among-sort_by le g fs m)))
        | inr (t, (e, c)) ↦ rw e (
            inr (record {
              interface = c.interface;
              listed = sort_by-Among le c.interface fs c.listed;
              observable = c.observable;
              address = c.address;
              first = λ g m. c.first g (Among-sort_by le g fs m);
            }))
      ]
