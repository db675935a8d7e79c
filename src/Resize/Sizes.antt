-- ===== src/Resize/Sizes.antt =====
-- sizeBytes of internal/driver/resize.go: the size of a disk in the notation of Incus. Numbers are of 64
-- bits; `parse_int` stands for strconv.ParseInt.
use virtualis_agent.Common.{
  ℕ, ◌*◌, ◌/◌, ◌%◌, ◌≤◌, true, false, List, [], ◌∷◌, some, Result, ok, err, if◌then◌else◌, ltb,
  by_option, ◌≡◌, refl, sym, ◌∙◌, ◌⊎◌, inl, inr, arith, Option-cases, ok-injective, err-ne-ok,
  not_failed,
}
use virtualis_agent.Common.Int.{ℤ, pos, negsuc}
use virtualis_agent.Common.Sorting.{Among, here, there}
use virtualis_agent.Common.Text.{Text, text, cut_suffix}
use virtualis_agent.Backend.Snapshots.{signed}

-- In the order in which they are tried.
abbrev pub units : List (Text × ℕ)
units =
    (text "GiB", 1073741824)
    ∷ (text "MiB", 1048576)
    ∷ (text "TiB", 1099511627776)
    ∷ (text "GB", 1000000000)
    ∷ (text "MB", 1000000)
    ∷ (text "TB", 1000000000000)
    ∷ (text "G", 1073741824)
    ∷ (text "M", 1048576)
    ∷ (text "B", 1)
    ∷ []

module _ (parse_int : Text → Result ℤ) where
  -- A number of units, which may wrap if it is large enough.
  unfoldable pub scaled : Text → ℕ → Result ℤ
  scaled digits n = elim (parse_int digits) [
    | err e ↦ err (text "invalid disk size")
    | ok (negsuc v) ↦ err (text "invalid disk size")
    | ok (pos v) ↦
        if ltb (4611686018427387904 / n) v
        then err (text "invalid disk size")
        else ok (signed (v * n))
  ]

  unfoldable pub size_in : List (Text × ℕ) → Text → Result ℤ
  unfolding scaled
  size_in [] s = parse_int s
  size_in ((suffix, n) ∷ rest) s =
      let further = size_in rest s in
      by_option (cut_suffix s suffix) further (λ digits. scaled digits n)

  unfoldable pub size_bytes : Text → Result ℤ
  unfolding size_in
  size_bytes s = size_in units s

  -- The size of a text with one of the units, which is exact.
  pub record Sized (us : List (Text × ℕ)) (s : Text) (v : ℤ) : Type 0 where
    pub suffix : Text
    pub scale : ℕ
    pub digits : Text
    pub count : ℕ
    pub listed : Among (suffix, scale) us
    pub ending : cut_suffix s suffix ≡ some digits
    pub read : parse_int digits ≡ ok (pos count)
    pub exact : v ≡ pos (count * scale)
    pub bounded : count * scale ≤ 4611686018427387904

  -- Up to the quotient, multiples stay below the bound.
  abbrev Fits : ℕ → Type 0
  Fits n = (v : ℕ) → ltb (4611686018427387904 / n) v ≡ false → v * n ≤ 4611686018427387904

  data AllFit : List (Text × ℕ) → Type 0 where
    none_left : AllFit []
    one_fits :
        {suffix : Text} {n : ℕ} {us : List (Text × ℕ)}
        → Fits n
        → AllFit us
        → AllFit ((suffix, n) ∷ us)

  signed-small : (n : ℕ) → n ≤ 4611686018427387904 → signed n ≡ pos n
  signed-small n h =
      let whole : n % 18446744073709551616 ≡ n = omega arith in
      let small : ltb n 9223372036854775808 ≡ true = ground arith in rw (whole, small) refl

  later_unit :
      (u : Text × ℕ) (us : List (Text × ℕ)) (s : Text) (v : ℤ) → Sized us s v → Sized (u ∷ us) s v
  later_unit u us s v k = record {
    suffix = k.suffix;
    scale = k.scale;
    digits = k.digits;
    count = k.count;
    listed = there k.listed;
    ending = k.ending;
    read = k.read;
    exact = k.exact;
    bounded = k.bounded;
  }

  scaled-exact :
      (digits : Text) (n : ℕ) (r : Result ℤ) (v : ℤ)
      → Fits n
      → parse_int digits ≡ r
      → scaled digits n ≡ ok v
      → (count : ℕ) × (parse_int digits ≡ ok (pos count))
        × (v ≡ pos (count * n))
        × (count * n ≤ 4611686018427387904)
  unfolding scaled
  scaled-exact digits n (err e) v f e' h = absurd (err-ne-ok (rw (e', scaled) at h))
  scaled-exact digits n (ok (negsuc c)) v f e h = absurd (err-ne-ok (rw (e, scaled) at h))
  scaled-exact digits n (ok (pos c)) v f e h =
      let (fits, is_v) =
        not_failed (ltb (4611686018427387904 / n) c) (text "invalid disk size")
          (ok (signed (c * n))) v (rw (e, scaled) at h) in
      (c, e, sym (ok-injective is_v) ∙ signed-small (c * n) (f c fits), f c fits)

  size_in-Sized :
      (us : List (Text × ℕ)) (s : Text) (v : ℤ)
      → AllFit us
      → size_in us s ≡ ok v
      → Sized us s v ⊎ (parse_int s ≡ ok v)
  unfolding size_in
  size_in-Sized [] s v f h = inr h
  size_in-Sized ((suffix, n) ∷ us) s v (one_fits fits f) h =
      elim (Option-cases (cut_suffix s suffix)) [
        | inl other ↦ elim (size_in-Sized us s v f (rw (other, size_in) at h)) [
          | inl k ↦ inl (later_unit (suffix, n) us s v k)
          | inr plain ↦ inr plain
        ]
        | inr (digits, ending) ↦
            let (count, read, exact, bounded) =
              scaled-exact digits n (parse_int digits) v fits refl (rw (ending, size_in) at h) in
            inl (record {
              suffix = suffix;
              scale = n;
              digits = digits;
              count = count;
              listed = here;
              ending = ending;
              read = read;
              exact = exact;
              bounded = bounded;
            })
      ]

  units-AllFit : AllFit units
  units-AllFit =
      one_fits (λ v h. ground arith)
        (one_fits (λ v h. ground arith)
          (one_fits (λ v h. ground arith)
            (one_fits (λ v h. ground arith)
              (one_fits (λ v h. ground arith)
                (one_fits (λ v h. ground arith)
                  (one_fits (λ v h. ground arith)
                    (one_fits (λ v h. ground arith)
                      (one_fits (λ v h. ground arith) none_left))))))))

  -- A size that is read is either the number that the whole text is, or a text with one of the units
  -- and then exactly so many of the unit, at most 2^62 bytes: the product does not wrap.
  pub size_bytes-Sized :
      (s : Text) (v : ℤ) → size_bytes s ≡ ok v → Sized units s v ⊎ (parse_int s ≡ ok v)
  unfolding size_bytes
  size_bytes-Sized s v h = size_in-Sized units s v units-AllFit h
