-- ===== src/Dedicated/Unique.antt =====
-- saveDedicatedRecord of internal/driver/dedicated_state.go: no address is recorded for two instances.
use virtualis_agent.Common.{
  ℕ, ◌<◌, ◌^◌, Bool, true, false, Option, none, some, ok, err, ◌≡◌, ◌≢◌, refl, sym, subst, ap, ◌⊎◌,
  inl, inr, Bool-cases, Result-cases, if◌then◌else◌, or_else, arith, ok-injective, err-ne-ok, ◌∙◌,
}
use virtualis_agent.Common.Text.{
  Text, text, ◌=ₜ◌, text_eq_iff, text_eq_refl, decimal, cut_suffix-append,
}
use virtualis_agent.Dedicated.{DedicatedRecord, Formats}
use virtualis_agent.Dedicated.Records.{
  Records, record_name, record_in, conflicts, is_own_record, save_dedicated_record,
}
use virtualis_agent.Dedicated.Directory.{Files, put, Agree, Directory}
use virtualis_agent.Dedicated.Saving.{
  ReadsBack, Recorded, Written, number_read, record_name-is_json, save_dedicated_record-Written,
}
use virtualis_agent.Dedicated.Triples.{After, Triple-weaken}

module _ (formats : Formats) where
  abbrev pub Unique : Files → Type 0
  Unique v =
      (a b : ℕ) (p q : DedicatedRecord)
      → Recorded formats v a p
      → Recorded formats v b q
      → p.attachment.ip ≡ q.attachment.ip
      → a ≡ b

  Agree-Recorded :
      (u v : Files) (id : ℕ) (p : DedicatedRecord)
      → Agree u v
      → Recorded formats v id p
      → Recorded formats u id p
  Agree-Recorded u v id p agree k = record {
    in_range = k.in_range;
    holds =
        subst (λ c. record_in formats id c ≡ ok (some p))
          (agree (record_name id) (record_name-is_json formats id)) k.holds;
  }

  own_id : (id : ℕ) (q : DedicatedRecord) → is_own_record id q ≡ true → q.id ≡ id
  unfolding is_own_record
  own_id id q h = ground (arith, h)

  own_record :
      (b : Bool) (e : Text) (q p : DedicatedRecord)
      → (if b then ok (some q) else err e) ≡ ok (some p)
      → (b ≡ true) × (q ≡ p)
  own_record true e q p h = (refl, ap (λ o. or_else o q) (ok-injective h))
  own_record false e q p h = absurd (err-ne-ok h)

  record_id :
      (id : ℕ) (content : Option Text) (p : DedicatedRecord)
      → record_in formats id content ≡ ok (some p)
      → p.id ≡ id
  unfolding record_in
  record_id id none p h = absurd (ground (arith, ok-injective h))
  record_id id (some raw) p h = elim (Result-cases (formats.decode_record raw)) [
    | inl (e, bad) ↦ absurd (err-ne-ok (rw (bad, record_in) at h))
    | inr (q, good) ↦
        let (own, same) = own_record (is_own_record id q) _ q p (rw (good, record_in) at h) in
        subst (λ x. x.id ≡ id) same (own_id id q own)
  ]

  module _ (reads : ReadsBack formats) (r : DedicatedRecord) (range : r.id < 2 ^ 64) where
    -- The files of two instances have different names.
    same_name : (id : ℕ) → id < 2 ^ 64 → record_name r.id ≡ record_name id → r.id ≡ id
    unfolding record_name
    same_name id small e =
        number_read formats reads (record_name r.id) (decimal r.id) id r.id
          (cut_suffix-append (decimal r.id) (text ".json")) (reads r.id range) e small

    put-other :
        (v : Files) (raw : Text) (id : ℕ)
        → id < 2 ^ 64
        → r.id ≢ id
        → put v (record_name r.id) raw (record_name id) ≡ v (record_name id)
    put-other v raw id small other = elim (Bool-cases (record_name r.id =ₜ record_name id)) [
      | inl same ↦ absurd (other (same_name id small ((text_eq_iff _ _).0 same)))
      | inr differ ↦ rw differ refl
    ]

    record_in-own :
        (id : ℕ) (raw : Text)
        → formats.decode_record raw ≡ ok r
        → is_own_record id r ≡ true
        → record_in formats id (some raw) ≡ ok (some r)
    unfolding record_in
    record_in-own id raw decoded own = rw (decoded, record_in, own) refl

    -- Another instance's record, if it does not conflict, has another address.
    apart :
        (v : Files) (b : ℕ) (q : DedicatedRecord)
        → Recorded formats v b q
        → conflicts r (some q) ≡ false
        → r.id ≢ b
        → q.attachment.ip ≢ r.attachment.ip
    unfolding conflicts
    apart v b q k calm other e =
        let listed : q.id ≡ b = record_id b (v (record_name b)) q k.holds in
        let equal : (q.attachment.ip =ₜ r.attachment.ip) ≡ true = (text_eq_iff _ _).1 e in
        ground (arith, calm, equal, listed, other)

    -- A record after the file was written is the new one or an old one.
    Recorded-put :
        (v : Files) (raw : Text) (id : ℕ) (p : DedicatedRecord)
        → formats.decode_record raw ≡ ok r
        → is_own_record r.id r ≡ true
        → Recorded formats (put v (record_name r.id) raw) id p
        → ((r.id ≡ id) × (p ≡ r)) ⊎ ((r.id ≢ id) × Recorded formats v id p)
    Recorded-put v raw id p decoded own k = elim (Bool-cases (record_name r.id =ₜ record_name id)) [
      | inl new ↦
          let same = same_name id k.in_range ((text_eq_iff _ _).0 new) in
          inl (
            same,
            ap (λ o. or_else o r)
                (ok-injective (
                  sym (rw new at k.holds)
                  ∙ record_in-own id raw decoded (subst (λ i. is_own_record i r ≡ true) same own))),
          )
      | inr old ↦ inr (
        λ e. absurd (
            ground (
              arith,
              sym old
                  ∙ ap (λ i. record_name r.id =ₜ record_name i) (sym e)
                  ∙ text_eq_refl (record_name r.id),
            )),
        record { in_range = k.in_range; holds = rw old at k.holds },
      )
    ]

    put-Unique :
        (v : Files) (raw : Text)
        → formats.decode_record raw ≡ ok r
        → is_own_record r.id r ≡ true
        → ((id : ℕ) (old : DedicatedRecord)
            → Recorded formats v id old
            → conflicts r (some old) ≡ false)
        → Unique v
        → Unique (put v (record_name r.id) raw)
    put-Unique v raw decoded own clear unique a b p q kp kq e =
        elim (Recorded-put v raw a p decoded own kp) [
          | inl (ra, pr) ↦ elim (Recorded-put v raw b q decoded own kq) [
            | inl (rb, qr) ↦ sym ra ∙ rb
            | inr (nb, old) ↦
                absurd (apart v b q old (clear b q old) nb (sym e ∙ ap (λ x. x.attachment.ip) pr))
          ]
          | inr (na, old) ↦ elim (Recorded-put v raw b q decoded own kq) [
            | inl (rb, qr) ↦
                absurd (apart v a p old (clear a p old) na (e ∙ ap (λ x. x.attachment.ip) qr))
            | inr (nb, older) ↦ unique a b p q old older e
          ]
        ]

-- What a call that succeeds leaves: the record is there, no other changed, and no address is
-- recorded twice.
pub record Saved (formats : Formats) (v seen : Files) (r : DedicatedRecord) : Type 0 where
  pub unique : Unique formats seen
  pub recorded : Recorded formats seen r.id r
  pub others :
      (id : ℕ)
      → id < 2 ^ 64
      → r.id ≢ id
      → record_in formats id (seen (record_name id)) ≡ record_in formats id (v (record_name id))

module _ {W : Type 0} (formats : Formats) (records : Records W) (dir : Directory records)
    (reads : ReadsBack formats) (r : DedicatedRecord) where
  put-Saved :
      (v : Files) (w : W)
      → r.id < 2 ^ 64
      → is_own_record r.id r ≡ true
      → ((raw : Text) → formats.encode_record r ≡ ok raw → formats.decode_record raw ≡ ok r)
      → Unique formats v
      → Written formats records dir v reads r w
      → Saved formats v (dir.files w) r
  put-Saved v w range own inverse unique done =
      let name = record_name r.id in
      let u = put v name done.raw in
      let decoded = inverse done.raw done.encoded in
      let fresh : u name ≡ some done.raw = rw (text_eq_refl name) refl in
      record {
        unique = λ a b p q ka kb e.
            put-Unique formats reads r range v done.raw decoded own done.clear unique a b p q
              (Agree-Recorded formats u (dir.files w) a p done.stands ka)
              (Agree-Recorded formats u (dir.files w) b q done.stands kb) e;
        recorded = record {
          in_range = range;
          holds =
              ap (record_in formats r.id)
                (done.stands name (record_name-is_json formats r.id) ∙ fresh)
              ∙ record_in-own formats reads r range r.id done.raw decoded own;
        };
        others = λ id small other. ap (record_in formats id) (
            done.stands (record_name id) (record_name-is_json formats id)
            ∙ put-other formats reads r range v done.raw id small other);
      }

  -- saveDedicatedRecord, in a directory that keeps the promises of `os` and for a well-formed record of
  -- an id of 64 bits that survives its encoding, if no address is recorded for two instances: if it
  -- succeeds the record is in its file, no other instance's record has changed and still no address
  -- is recorded for two instances; if it fails no record has changed.
  pub save_dedicated_record-Unique :
      (w : W)
      → r.id < 2 ^ 64
      → is_own_record r.id r ≡ true
      → ((raw : Text) → formats.encode_record r ≡ ok raw → formats.decode_record raw ≡ ok r)
      → Unique formats (dir.files w)
      → After
          (λ _ w'. Saved formats (dir.files w) (dir.files w') r)
          (λ w'. Agree (dir.files w) (dir.files w'))
          (save_dedicated_record formats records r w)
  save_dedicated_record-Unique w range own inverse unique =
      (Triple-weaken _ (λ _ w' done. put-Saved (dir.files w) w' range own inverse unique done)
          (λ w' agree. agree)
          (save_dedicated_record-Written formats records dir (dir.files w) reads r)).from
        w (λ name json. refl)
