-- ===== src/Server/Outcome/Deletion.antt =====
-- What deleteInstance of cmd/agent/main.go requires and leaves behind.
use virtualis_agent.Common.{
  ℕ, ◌<◌, ◌≡◌, refl, sym, ap, ◌∙◌, inl, inr, true, Option, none, some, Result, ok, err, arith,
  Option-cases, Bool-cases, or_else, ok-injective, err-ne-ok,
}
use virtualis_agent.Common.Map.{lookup, delete, eq_ℕ}
use virtualis_agent.Common.Text.{text_eq_iff}
use virtualis_agent.Protocol.{Instance}
use virtualis_agent.Server.{
  AgentServer, Environment, OwnerFile, holding, unreadable, Response, reply, ◌>>=◌, ◌>>◌, write,
  modify, on_host_, get_state, no_content, request_instance,
}
use virtualis_agent.Server.Ownership.{
  Owner, owner, absent, broken, owner_of, owned_instance, same_identity,
}
use virtualis_agent.Server.Create.{delete_authorized, forget, delete_owned, delete_instance}
use virtualis_agent.Server.Quiet.{view}
use virtualis_agent.Server.Quiet.Steps.{quiet_steps}
use virtualis_agent.Server.Outcome.{View, Ensures, ensures}

-- The identity that the file of the instance shows, and the one that the request gives, if it gives
-- one for this id.
pub record Authorized (id : ℕ) (payload : Result Instance) (file : Option OwnerFile) : Type 0 where
  pub instance_ : Instance
  pub owns : file ≡ some (holding instance_)
  pub same_id : instance_.id ≡ id
  pub agrees :
      (q : Instance)
      → request_instance id payload ≡ ok q
      → (q.name ≡ instance_.name) × (q.driver ≡ instance_.driver)

owner_of-holding :
    (id : ℕ) (file : Option OwnerFile) (i : Instance)
    → owner_of id file ≡ owner i
    → (file ≡ some (holding i)) × (i.id ≡ id)
unfolding owner_of
owner_of-holding id none i e = absurd (ground arith)
owner_of-holding id (some unreadable) i e = absurd (ground arith)
owner_of-holding id (some (holding j)) i e = ground arith

pub same_identity-eq :
    (a b : Instance) → same_identity a b ≡ true → (a.name ≡ b.name) × (a.driver ≡ b.driver)
same_identity-eq a b h = ground (arith, text_eq_iff a.name b.name, text_eq_iff a.driver b.driver)

some-injective : {a b : Instance} → some a ≡ some b → a ≡ b
some-injective {a = a} e = ap (λ o. or_else o a) e

delete_authorized-owner :
    (r : Result Instance) (o : Owner) (i : Instance)
    → delete_authorized r o ≡ some i
    → (o ≡ owner i) × ((q : Instance) → r ≡ ok q → (q.name ≡ i.name) × (q.driver ≡ i.driver))
unfolding delete_authorized
delete_authorized-owner (ok q) (owner j) i e = elim (Bool-cases (same_identity q j)) [
  | inr other ↦ absurd (ground arith)
  | inl same ↦
      let here : j ≡ i = some-injective (rw same at e) in
      (
        ap owner here,
        λ q' f.
            let (a, b) = same_identity-eq q j same in
            let there = ok-injective f in
            (
              ap (λ x. x.name) (sym there) ∙ a ∙ ap (λ x. x.name) here,
              ap (λ x. x.driver) (sym there) ∙ b ∙ ap (λ x. x.driver) here,
            ),
      )
]
delete_authorized-owner (err t) (owner j) i e =
    (ap owner (some-injective e), λ q f. absurd (err-ne-ok f))
delete_authorized-owner (ok q) absent i e = absurd (ground arith)
delete_authorized-owner (ok q) broken i e = absurd (ground arith)
delete_authorized-owner (err t) absent i e = absurd (ground arith)
delete_authorized-owner (err t) broken i e = absurd (ground arith)

-- What is left of the three stores.
abbrev Deleted : ℕ → View → View → Type 0
Deleted id (instances, owned, ready) after =
    after ≡ (delete id instances, delete id owned, delete id ready)

module _ {W : Type 0} (env : Environment W) where
  cleanup-Deleted :
      (id : ℕ)
      → Ensures {W = W} {A = Unit {0}} (Deleted id) (do
        modify λ t. record t { owned = delete id t.owned }
        on_host_ (env.clear_nat_rules id)
        on_host_ (env.clear_firewall id)
        modify (forget id)
        write 204 no_content)
  unfolding ◌>>◌ ◌>>=◌ modify on_host_ forget write
  cleanup-Deleted id = record { at = λ s r e l. refl }

  delete_owned-Deleted : (id : ℕ) (i : Instance) → Ensures (Deleted id) (delete_owned env id i)
  unfolding delete_owned
  delete_owned-Deleted id i = search (ensures, quiet_steps, cleanup-Deleted) depth 14

  delete_instance-Deleted_by :
      (id : ℕ) (i : Instance) (payload : Result Instance) (s : AgentServer W) (r : Response)
      → delete_authorized (request_instance id payload) (owned_instance id s) ≡ some i
      → (delete_instance env id payload s).0 ≡ reply r
      → r.code < 400
      → Authorized id payload (lookup id s.owned)
        × Deleted id (view s) (view (delete_instance env id payload s).1)
  unfolding delete_instance ◌>>=◌ get_state owned_instance
  delete_instance-Deleted_by id i payload s r f e h =
      let (o, agrees) =
        delete_authorized-owner (request_instance id payload) (owned_instance id s) i f in
      let (owns, same) = owner_of-holding id (lookup id s.owned) i o in
      (
        record { instance_ = i; owns = owns; same_id = same; agrees = agrees },
        rw (f, delete_instance)
            ((delete_owned-Deleted id i).at s r (rw (f, delete_instance) at e) h),
      )

-- A deletion that is answered with success was of an instance whose file shows its id, and whose
-- name and driver are those of the request if the request names them for that id; it removes the
-- id from the instances in memory, from the files and from the readiness marks, and changes
-- nothing else of the three.
pub delete_instance-success :
    {W : Type 0} (env : Environment W) (id : ℕ) (payload : Result Instance) (s : AgentServer W)
    (r : Response)
    → (delete_instance env id payload s).0 ≡ reply r
    → r.code < 400
    → Authorized id payload (lookup id s.owned)
      × (view (delete_instance env id payload s).1
          ≡ (delete id s.instances, delete id s.owned, delete id s.boot_ready))
unfolding delete_instance ◌>>=◌ get_state write
delete_instance-success env id payload s r e h =
    elim (Option-cases (delete_authorized (request_instance id payload) (owned_instance id s))) [
      | inr (i, f) ↦ delete_instance-Deleted_by env id i payload s r f e h
      | inl f ↦ let refused = rw (f, delete_instance) at e in absurd (ground arith)
    ]
