-- ===== src/Server/Ownership.antt =====
-- cmd/agent/ownership.go: the files that say which instances this agent owns. A file is named
-- by its instance's id and holds the instance as JSON, in which an empty slice with `omitempty` is
-- left out. A file is modelled by what reading it gives.
-- `os.Rename` is atomic: until it succeeds, the file stands as it was.
use virtualis_agent.Common.{
  ℕ, Bool, ◌&&◌, ◌||◌, not, List, [], ◌∷◌, Option, none, some, Result, ok, err, if◌then◌else◌, ◌==◌,
}
use virtualis_agent.Common.Text.{text, is_empty, ◌=ₜ◌}
use virtualis_agent.Common.Map.{Map, lookup, insert, eq_ℕ}
use virtualis_agent.Protocol.{Instance, rewritten}
use virtualis_agent.Driver.Registry.{Registry}
use virtualis_agent.Server.{
  AgentServer, Environment, Handler, OwnerFile, holding, unreadable, ◌>>=◌, ◌>>◌, pure, modify,
  get_state, on_host,
}

-- The result of `ownedInstance`; `absent` is an error for which os.IsNotExist holds.
pub data Owner : Type 0 where
  owner : Instance → Owner
  absent broken : Owner

-- The identity that a file must show to be believed.
unfoldable pub owner_of : ℕ → Option OwnerFile → Owner
owner_of id none = absent
owner_of id (some unreadable) = broken
owner_of id (some (holding i)) =
    if not (i.id == id) || is_empty i.name || is_empty i.driver then broken else owner i

abbrev pub without_password : Instance → Instance
without_password i = record i { root_password = [] }

abbrev pub same_identity : Instance → Instance → Bool
same_identity a b = a.name =ₜ b.name && a.driver =ₜ b.driver

-- Whether the file found allows the instance to be saved.
unfoldable pub may_save : Owner → Instance → Result (Unit {0})
may_save (owner prior) i =
    if same_identity prior i
    then ok tt
    else err (text "instance identity conflicts with persisted owner")
may_save absent i = ok tt
may_save broken i = err (text "invalid persisted instance identity")

module _ {W : Type 0} where
  unfoldable pub owned_instance : ℕ → AgentServer W → Owner
  unfolding owner_of
  owned_instance id s = owner_of id (lookup id s.owned)

  abbrev pub lift :
      Result (Unit {0}) → Handler W (Result (Unit {0})) → Handler W (Result (Unit {0}))
  lift (ok _) k = k
  lift (err e) k = pure (err e)

  unfoldable pub save_owned_instance : Environment W → Instance → Handler W (Result (Unit {0}))
  unfolding owned_instance may_save
  save_owned_instance env i = do
    s ← get_state
    lift (may_save (owned_instance i.id s) i) do
      written ← on_host env.write_owner_temp
      lift written do
        renamed ← on_host env.rename_owner_temp
        lift renamed do
          modify λ t. record t {
            owned = insert i.id (holding (rewritten (without_password i))) t.owned;
          }
          pure (ok tt)

  -- The ids of the files, in the order of the directory.
  unfoldable pub load_owned_instances : List ℕ → AgentServer W → AgentServer W
  unfolding owned_instance
  load_owned_instances [] s = s
  load_owned_instances (id ∷ ids) s = load_owned_instances ids (elim (owned_instance id s) [
    | owner i ↦ record s { instances = insert i.id i s.instances }
    | _ ↦ s
  ])

  -- A restart keeps the files and nothing else.
  unfoldable pub new_agent_server : Registry W → Map ℕ OwnerFile → List ℕ → W → AgentServer W
  unfolding load_owned_instances
  new_agent_server registry owned ids w = load_owned_instances ids (record {
    registry = registry;
    instances = [];
    operations = record { busy = []; leases = [] };
    metrics = [];
    boot_ready = [];
    owned = owned;
    boots = [];
    world = w;
  })
