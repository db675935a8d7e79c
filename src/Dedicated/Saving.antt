-- ===== src/Dedicated/Saving.antt =====
-- saveDedicatedRecord of internal/driver/dedicated_state.go, step by step: what it leaves in the
-- directory of the records.
use virtualis_agent.Common.{
  ℕ, ◌<◌, ◌^◌, true, false, not, List, [], ◌∷◌, Option, none, some, ok, ◌≡◌, refl, sym, subst, ap,
  inl, inr, is_some, Option-cases, or_else, arith, ok-injective, ◌∙◌,
}
use virtualis_agent.Common.Sorting.{Among, Among-cons}
use virtualis_agent.Common.Text.{Text, text, decimal, cut_suffix, cut_suffix-append}
use virtualis_agent.Dedicated.{DedicatedRecord, Formats}
use virtualis_agent.Dedicated.Records.{
  Records, record_name, record_in, conflicts, load_dedicated_record, check_entry, check_entries,
  drop_temp, publish_record, save_dedicated_record,
}
use virtualis_agent.Dedicated.Directory.{Files, put, is_json, Agree, Directory}
use virtualis_agent.Dedicated.Triples.{
  Triple-from_result, Triple-unless, Triple-frame, Triple, Triple-bind, Triple-then, Triple-weaken,
  Triple-deferring, Preserves-succeed,
}

-- strconv.ParseUint reads what FormatUint writes, of the numbers of 64 bits.
abbrev pub ReadsBack : Formats → Type 0
ReadsBack formats = (id : ℕ) → id < 2 ^ 64 → formats.parse_uint (decimal id) ≡ ok id

module _ (formats : Formats) where
  -- The file of the instance holds that record.
  pub record Recorded (v : Files) (id : ℕ) (r : DedicatedRecord) : Type 0 where
    pub in_range : id < 2 ^ 64
    pub holds : record_in formats id (v (record_name id)) ≡ ok (some r)

  -- None of the listed files has a record that conflicts.
  abbrev Clear : Files → DedicatedRecord → List Text → Type 0
  Clear v r names =
      (id : ℕ) (old : DedicatedRecord)
      → Among (record_name id) names
      → Recorded v id old
      → conflicts r (some old) ≡ false

  pub record_name-is_json : (id : ℕ) → is_json (record_name id) ≡ true
  unfolding record_name
  record_name-is_json id = rw (cut_suffix-append (decimal id) (text ".json")) refl

  pub number_read :
      ReadsBack formats
      → (name digits : Text) (id n : ℕ) → cut_suffix name (text ".json") ≡ some digits
      → formats.parse_uint digits ≡ ok n
      → name ≡ record_name id
      → id < 2 ^ 64
      → n ≡ id
  unfolding record_name
  number_read reads name digits id n cut parsed e range =
      let written : digits ≡ decimal id =
        ap (λ o. or_else o [])
          (sym cut
            ∙ ap (λ n. cut_suffix n (text ".json")) e
            ∙ cut_suffix-append (decimal id) (text ".json")) in
      ok-injective (sym parsed ∙ ap formats.parse_uint written ∙ reads id range)

  module _ {W : Type 0} (records : Records W) (dir : Directory records) (v : Files) where
    abbrev Same : W → Type 0
    Same w = Agree v (dir.files w)

    load_dedicated_record-Recorded :
        (id : ℕ)
        → Triple Same
            (load_dedicated_record formats records id)
            (λ old w. Same w × (record_in formats id (v (record_name id)) ≡ ok old))
            Same
    unfolding load_dedicated_record
    load_dedicated_record-Recorded id =
        Triple-bind _ _ (dir.was_read v (record_name id) (record_name-is_json id)) (λ content.
          Triple-weaken _
            (λ old w (p, e). (p.0, subst (λ c. record_in formats id c ≡ ok old) p.1 e)) (λ w p. p.0)
            (Triple-from_result (record_in formats id content)))

    module _ (reads : ReadsBack formats) (r : DedicatedRecord) where
      -- The entry of that name is not the file of a record that conflicts.
      abbrev ClearEntry : Text → Type 0
      ClearEntry name =
          (id : ℕ) (old : DedicatedRecord)
          → name ≡ record_name id
          → Recorded v id old
          → conflicts r (some old) ≡ false

      not_record : (name : Text) → cut_suffix name (text ".json") ≡ none → ClearEntry name
      not_record name h id old e k =
          absurd (
            ground (arith, sym h ∙ ap (λ n. cut_suffix n (text ".json")) e, record_name-is_json id))

      entry_passed :
          (name digits : Text) (n : ℕ) (found : Option DedicatedRecord)
          → cut_suffix name (text ".json") ≡ some digits
          → formats.parse_uint digits ≡ ok n
          → record_in formats n (v (record_name n)) ≡ ok found
          → not (conflicts r found) ≡ true
          → ClearEntry name
      entry_passed name digits n found cut parsed loaded passed id old e k =
          let same : n ≡ id = number_read reads name digits id n cut parsed e k.in_range in
          let loaded' =
            subst (λ m. record_in formats m (v (record_name m)) ≡ ok found) same loaded in
          let is_old : found ≡ some old = ok-injective (sym loaded' ∙ k.holds) in
          ground (arith, subst (λ o. not (conflicts r o) ≡ true) is_old passed)

      check_entry-ClearEntry :
          (name : Text)
          → Triple Same (check_entry formats records r name) (λ _ w. Same w × ClearEntry name) Same
      unfolding check_entry
      check_entry-ClearEntry name = elim (Option-cases (cut_suffix name (text ".json"))) [
        | inl cut ↦
            rw cut (
              Triple-weaken _ (λ _ w h. (h, not_record name cut)) (λ w h. h) (Preserves-succeed tt))
        | inr (digits, cut) ↦ rw cut (
            Triple-bind _ _ (Triple-from_result (formats.parse_uint digits)) (λ n.
              Triple-bind _ _ (Triple-frame _ (load_dedicated_record-Recorded n)) (λ found.
                Triple-weaken _
                  (λ _ w (((same, loaded), parsed), passed).
                    (same, entry_passed name digits n found cut parsed loaded passed))
                  (λ w h. h.0.0) (Triple-unless _ _))))
      ]

      check_entries-Clear :
          (names : List Text)
          → Triple Same
              (check_entries formats records r names)
              (λ _ w. Same w × Clear v r names)
              Same
      unfolding check_entries
      check_entries-Clear [] =
          Triple-weaken _ (λ _ w h. (h, λ id old m k. elim m [ ])) (λ w h. h) (Preserves-succeed tt)
      check_entries-Clear (name ∷ names) = Triple-then _ _ (check_entry-ClearEntry name) (
          Triple-weaken _
            (λ _ w ((same, rest), first). (
              same,
              λ id old m k. elim (Among-cons m) [
                | inl e ↦ first id old (sym e) k
                | inr later ↦ rest id old later k
              ],
            ))
            (λ w h. h) (Triple-frame _ (check_entries-Clear names)))

      -- After the file was written and took its place.
      pub record Written (w : W) : Type 0 where
        pub raw : Text
        pub encoded : formats.encode_record r ≡ ok raw
        pub stands : Agree (put v (record_name r.id) raw) (dir.files w)
        pub clear :
            (id : ℕ) (old : DedicatedRecord) → Recorded v id old → conflicts r (some old) ≡ false

      publish_record-put :
          (name raw : Text)
          → Triple Same
              (publish_record records name raw)
              (λ _ w. Agree (put v name raw) (dir.files w))
              Same
      unfolding publish_record
      publish_record-put name raw = Triple-bind _ _ (dir.created v) (λ temp.
          Triple-weaken _ (λ _ w q. q.0) (λ w q. q.0)
            (Triple-deferring (drop_temp records temp) _
              (λ _ w (agree, t). (dir.dropped (put v name raw) temp w agree t, t))
              (λ w (agree, t). (dir.dropped v temp w agree t, t))
              (Triple-then _ _ (dir.written v temp raw) (dir.moved v temp name raw))))

      file_there :
          (id : ℕ) (old : DedicatedRecord) → Recorded v id old → is_some (v (record_name id)) ≡ true
      unfolding record_in
      file_there id old k = elim (Option-cases (v (record_name id))) [
        | inl gone ↦ absurd (
            ground (
              arith,
              ok-injective (subst (λ c. record_in formats id c ≡ ok (some old)) gone k.holds),
            ))
        | inr (raw, e) ↦ ap is_some e
      ]

      pub save_dedicated_record-Written :
          Triple Same (save_dedicated_record formats records r) (λ _. Written) Same
      unfolding save_dedicated_record
      save_dedicated_record-Written = Triple-then _ _ (dir.made v) (
          Triple-bind _ _ (dir.listed v) (λ names.
            Triple-then _ _ (Triple-frame _ (check_entries-Clear names)) (
              Triple-bind _ _
                (Triple-weaken _ (λ raw w h. h) (λ w h. h.0.0)
                  (Triple-from_result (formats.encode_record r)))
                (λ raw.
                  Triple-weaken _
                    (λ _ w (((agree, clear), listed), encoded). record {
                      raw = raw;
                      encoded = encoded;
                      stands = agree;
                      clear = λ id old k.
                          clear id old
                            (listed (record_name id) (record_name-is_json id) (file_there id old k))
                            k;
                    })
                    (λ w e. e)
                    (Triple-frame _ (
                      Triple-frame _
                        (Triple-frame _ (publish_record-put (record_name r.id) raw))))))))
