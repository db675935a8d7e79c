-- ===== src/Server/Outcome/Owners.antt =====
-- saveOwnedInstance of cmd/agent/ownership.go: the file of an instance after it.
use virtualis_agent.Common.{
  ℕ, ◌≡◌, ◌≢◌, refl, sym, ap, ◌∙◌, inl, inr, false, some, Result, ok, err, Result-cases, arith,
  ==_iff, Bool-cases, err-ne-ok,
}
use virtualis_agent.Common.Map.{lookup, insert, eq_ℕ, lookup-insert}
use virtualis_agent.Common.Text.{Text, is_empty}
use virtualis_agent.Protocol.{Instance, rewritten}
use virtualis_agent.Server.{
  AgentServer, Environment, holding, Flow, go, ◌>>=◌, ◌>>◌, modify, on_host, get_state, pure,
}
use virtualis_agent.Server.Ownership.{
  Owner, owner, absent, broken, owner_of, owned_instance, may_save, save_owned_instance,
  without_password, same_identity,
}
use virtualis_agent.Server.Quiet.{view}
use virtualis_agent.Server.Outcome.Deletion.{same_identity-eq}

owner-injective : {a b : Instance} → owner a ≡ owner b → a ≡ b
owner-injective {a = a} e = ap (λ o. elim o [ owner x ↦ x | _ ↦ a ]) e

module _ {W : Type 0} (env : Environment W) where
  -- Either the file is written and nothing else, or an error is returned and nothing has changed.
  pub data Saved (i : Instance) (s : AgentServer W) (flow : Flow (Result (Unit {0})))
      (t : AgentServer W) : Type 0 where
    saved :
        flow ≡ go (ok tt)
        → view t ≡ (
          s.instances,
          insert i.id (holding (rewritten (without_password i))) s.owned,
          s.boot_ready,
        )
        → may_save (owned_instance i.id s) i ≡ ok tt
        → Saved i s flow t
    kept : (e : Text) → flow ≡ go (err e) → view t ≡ view s → Saved i s flow t

  pub save_owned_instance-Saved :
      (i : Instance) (s : AgentServer W)
      → Saved i s (save_owned_instance env i s).0 (save_owned_instance env i s).1
  unfolding save_owned_instance ◌>>=◌ ◌>>◌ get_state modify on_host pure
  save_owned_instance-Saved i s = elim (Result-cases (may_save (owned_instance i.id s) i)) [
    | inl (e, bad) ↦ rw (bad, save_owned_instance) (kept e refl refl)
    | inr (tt, may) ↦ elim (Result-cases (env.write_owner_temp s.world).0) [
      | inl (e, bad) ↦ rw (may, bad, save_owned_instance) (kept e refl refl)
      | inr (tt, written) ↦
          elim (Result-cases (env.rename_owner_temp (env.write_owner_temp s.world).1).0) [
            | inl (e, bad) ↦ rw (may, written, bad, save_owned_instance) (kept e refl refl)
            | inr (tt, renamed) ↦
                rw (may, written, renamed, save_owned_instance) (saved refl refl may)
          ]
    ]
  ]

  may_save-same :
      (o : Owner) (i : Instance)
      → may_save o i ≡ ok tt
      → ((prior : Instance) → o ≡ owner prior → (prior.name ≡ i.name) × (prior.driver ≡ i.driver))
        × (o ≢ broken)
  unfolding may_save
  may_save-same (owner p) i h = elim (Bool-cases (same_identity p i)) [
    | inl same ↦ (
      λ prior e.
          let (a, b) = same_identity-eq p i same in
          let here = owner-injective e in
          (ap (λ x. x.name) (sym here) ∙ a, ap (λ x. x.driver) (sym here) ∙ b),
      λ e. absurd (ground arith),
    )
    | inr other ↦ absurd (err-ne-ok (rw other at h))
  ]
  may_save-same absent i h = (λ prior e. absurd (ground arith), λ e. absurd (ground arith))
  may_save-same broken i h = absurd (err-ne-ok h)

  owner_of-without :
      (i : Instance)
      → is_empty i.name ≡ false
      → is_empty i.driver ≡ false
      → owner_of i.id (some (holding (rewritten (without_password i))))
        ≡ owner (rewritten (without_password i))
  unfolding owner_of
  owner_of-without i n d = ground (arith, n, d, ==_iff i.id i.id)

  -- A save of an instance with a name and a driver that returns no error can be read back as the
  -- instance without its password, and with no DNS servers or forwarded ports where the list of them
  -- is empty; the file that stood there before, if any, showed the same name
  -- and driver, and was not one that does not parse or shows another id; and the files of other
  -- ids are as they were.
  pub save_owned_instance-saved :
      (i : Instance) (s : AgentServer W)
      → is_empty i.name ≡ false
      → is_empty i.driver ≡ false
      → (save_owned_instance env i s).0 ≡ go (ok tt)
      → (owned_instance i.id (save_owned_instance env i s).1
          ≡ owner (rewritten (without_password i)))
        × ((prior : Instance)
            → owned_instance i.id s ≡ owner prior
            → (prior.name ≡ i.name) × (prior.driver ≡ i.driver))
        × (owned_instance i.id s ≢ broken)
        × ((j : ℕ)
            → j ≢ i.id
            → owned_instance j (save_owned_instance env i s).1 ≡ owned_instance j s)
  unfolding owned_instance
  save_owned_instance-saved i s n d e = elim (save_owned_instance-Saved i s) [
    | kept t f _ ↦ absurd (ground arith)
    | saved f v may ↦
        let files = ap (λ x. x.1) v in
        let (same, sound) = may_save-same (owned_instance i.id s) i may in
        (
          ap (λ m. owner_of i.id (lookup i.id m)) files
              ∙ ap (owner_of i.id) {y = some (holding (rewritten (without_password i)))} (
                  lookup-insert i.id i.id (holding (rewritten (without_password i))) s.owned
                  ∙ ground arith)
              ∙ owner_of-without i n d,
          same,
          sound,
          λ j k.
              ap (λ m. owner_of j (lookup j m)) files
              ∙ ap (owner_of j) {y = lookup j s.owned} (
                  lookup-insert i.id j (holding (rewritten (without_password i))) s.owned
                  ∙ ground arith),
        )
  ]
