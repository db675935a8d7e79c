-- ===== src/Driver/Choice.antt =====
-- What the choice of a driver in internal/driver/driver.go guarantees.
use virtualis_agent.Common.{
  ◌<◌, ◌≡◌, refl, sym, ap, subst, inl, inr, true, false, ◌&&◌, not, List, [], ◌∷◌, ok, is_ok, arith,
  Result-cases, ok-injective, err-ne-ok,
}
use virtualis_agent.Common.Sorting.{
  Among, here, there, IsSorted, Among-cons, tail-IsSorted, head-le, sort_by-IsSorted, sort_by-Among,
  Among-sort_by,
}
use virtualis_agent.Common.Text.{Text, fold, is, is_empty}
use virtualis_agent.Common.Map.{eq_Text}
use virtualis_agent.Driver.{Driver}
use virtualis_agent.Driver.Registry.{
  Registry, driver_rank, by_rank, rank_le, first_available, resolve,
}

abbrev pub Entry : Type 0 → Type 0
Entry W = Text × Driver W

-- A probe of the driver that failed.
pub record Failed {W : Type 0} (d : Driver W) : Type 0 where
  pub at : W
  pub failed : is_ok (d.probe at).0 ≡ false

module _ {W : Type 0} where
  rank_le_total : (a b : Entry W) → rank_le a b ≡ false → rank_le b a ≡ true
  rank_le_total a b h = ground arith

  rank_le_trans : (a b c : Entry W) → rank_le a b ≡ true → rank_le b c ≡ true → rank_le a c ≡ true
  rank_le_trans a b c h k = ground arith

  -- The driver found, under its name, with those of a lower rank failed.
  pub record Picked (xs : List (Entry W)) (d : Driver W) : Type 0 where
    pub name : Text
    pub among : Among (name, d) xs
    pub probed_at : W
    pub available : is_ok (d.probe probed_at).0 ≡ true
    pub lower_failed : (y : Entry W) → Among y xs → driver_rank y.0 < driver_rank name → Failed y.1

  first_available-Picked :
      (xs : List (Entry W)) (w w' : W) (d : Driver W)
      → IsSorted rank_le xs
      → first_available xs w ≡ (ok d, w')
      → Picked xs d
  unfolding first_available
  first_available-Picked [] w w' d r e = absurd (err-ne-ok (ap (λ x. x.0) e))
  first_available-Picked ((name, c) ∷ xs) w w' d r e = elim (Result-cases (c.probe w).0) [
    | inr (u, good) ↦
        let same : c ≡ d = ok-injective (ap (λ x. x.0) (rw (good, first_available) at e)) in
        subst (λ z. Picked ((name, c) ∷ xs) z) same
          (record {
            name = name;
            among = here;
            probed_at = w;
            available = rw good refl;
            lower_failed = λ y m lt. elim (Among-cons m) [
              | inl first ↦ absurd (ground (arith, ap (λ z. driver_rank z.0) first))
              | inr rest ↦ absurd (ground (arith, head-le rank_le r y rest))
            ];
          })
    | inl (t, bad) ↦
        let p =
          first_available-Picked xs (c.probe w).1 w' d (tail-IsSorted rank_le r)
            (rw (bad, first_available) at e) in
        record {
          name = p.name;
          among = there p.among;
          probed_at = p.probed_at;
          available = p.available;
          lower_failed = λ y m lt. elim (Among-cons m) [
            | inl first ↦
                subst (λ z. Failed z.1) (sym first) (record { at = w; failed = rw bad refl })
            | inr rest ↦ p.lower_failed y rest lt
          ];
        }
  ]

-- If no driver is preferred, or `auto` is, then the driver that the resolution gives is a registered
-- one whose probe has succeeded, and a probe of every registered driver of a lower rank has failed.
pub resolve-Picked :
    {W : Type 0} (preferred : Text) (r : Registry W) (w w' : W) (d : Driver W)
    → (not (is_empty (fold preferred)) && not (is (fold preferred) "auto")) ≡ false
    → resolve preferred r w ≡ (ok d, w')
    → Picked r.drivers d
unfolding resolve by_rank
resolve-Picked preferred r w w' d auto e =
    let p =
      first_available-Picked (by_rank r.drivers) w w' d
        (sort_by-IsSorted rank_le rank_le_total rank_le_trans r.drivers)
        (rw (auto, resolve) at e) in
    record {
      name = p.name;
      among = sort_by-Among rank_le (p.name, d) r.drivers p.among;
      probed_at = p.probed_at;
      available = p.available;
      lower_failed = λ y m lt. p.lower_failed y (Among-sort_by rank_le y r.drivers m) lt;
    }
