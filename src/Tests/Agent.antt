-- ===== src/Tests/Agent.antt =====
-- The agent's leases and handlers at concrete inputs.
use virtualis_agent.Common.{
  ℕ, ◌≡◌, ◌≢◌, ◌↔◌, refl, true, false, not, ◌&&◌, [], ◌∷◌, none, some, ok, err, arith,
}
use virtualis_agent.Common.Int.{pos}
use virtualis_agent.Common.Map.{lookup, insert, delete, eq_ℕ}
use virtualis_agent.Common.Text.{
  text, ◌=ₜ◌, is, has_prefix, trim_left, trim_space, is_space, fold, to_lower, lower, is_empty,
}
use virtualis_agent.Protocol.{Instance, rewritten}
use virtualis_agent.Operations.{Operations, is_busy, try_operation, retain}
use virtualis_agent.Operations.Sharing.{
  Shared, Holds, IsConsistent, Step, Reach, begin, fork, start, next,
}
use virtualis_agent.Operations.Sharing.Exclusion.{
  Step-IsConsistent, Reach-IsConsistent, Reach-exclusive, try_operation_refused_iff,
}
use virtualis_agent.Driver.Choice.{Picked, resolve-Picked}
use virtualis_agent.Driver.Registry.{resolve, get}
use virtualis_agent.Server.{
  Handler, Response, reply, go, no_content, instance_of, error, ◌>>=◌, ◌>>◌, write, pure, or_error,
  get_state, modify, on_host, on_host_, call, request_instance,
}
use virtualis_agent.Server.Ownership.{
  owner, broken, owner_of, owned_instance, without_password, save_owned_instance, may_save,
}
use virtualis_agent.Server.Leases.{with_lease}
use virtualis_agent.Server.Create.{
  Parsed, delete_, delete_instance, delete_owned, delete_authorized, forget,
}
use virtualis_agent.Server.Routes.{
  Request, handle, auth, body_limit, instance_route, route_parts, scan_first, takes_lease,
  under_lease,
}
use virtualis_agent.Server.Quiet.{view, Quiet-pure}
use virtualis_agent.Server.Quiet.Power.{fills_stored}
use virtualis_agent.Server.Atomicity.{handle-error_unchanged}
use virtualis_agent.Server.Outcome.Deletion.{Authorized, delete_instance-success}
use virtualis_agent.Server.Outcome.Owners.{save_owned_instance-saved}
use virtualis_agent.Tests.Host.{qemu, host, web, agent, owning}

-- A request that has begun, and its boot.
abbrev begun : Operations
begun = record { busy = (7, true) ∷ []; leases = record { id = 7; refs = pos 1 } ∷ [] }

abbrev at_work : Shared
at_work = record { ops = begun; holders = 0 ∷ [] }

begins : try_operation 7 (record { busy = []; leases = [] }) ≡ (some 0, begun)
unfolding try_operation is_busy lookup insert
begins = refl

at_work-Reach : Reach at_work
at_work-Reach = next start (begin 7 0 begun begins)

holds : Holds at_work 0 7
holds = record {
  lease = record { id = 7; refs = pos 1 };
  found = refl;
  named = refl;
  held = omega arith;
}

abbrev first : ℕ
first = 0

Reach-exclusive_example : first ≡ 0
Reach-exclusive_example = Reach-exclusive 0 0 7 at_work-Reach holds holds

try_operation_refused_iff_example :
    ((try_operation 7 at_work.ops).0 ≡ none) ↔ ((l : ℕ) × Holds at_work l 7)
try_operation_refused_iff_example = try_operation_refused_iff at_work 7 at_work-Reach

forks : Step at_work (record { ops = retain 0 begun; holders = 0 ∷ 0 ∷ [] })
forks = fork 0 (omega arith)

Step-IsConsistent_example : IsConsistent (record { ops = retain 0 begun; holders = 0 ∷ 0 ∷ [] })
Step-IsConsistent_example = Step-IsConsistent forks (Reach-IsConsistent at_work-Reach)

-- An instance that the agent knows is deleted.
deletion :
    (delete_instance host 7 (err []) owning).0 ≡ reply (record { code = 204; body = no_content })
unfolding delete_instance delete_owned delete_authorized request_instance owned_instance owner_of
    lookup ◌>>=◌ ◌>>◌ write pure or_error get_state modify on_host on_host_ call forget resolve get
    text ◌=ₜ◌ is fold to_lower trim_space trim_left is_space lower
deletion = refl

delete_instance-success_example :
    Authorized 7 (err []) (lookup 7 owning.owned)
    × (view (delete_instance host 7 (err []) owning).1
        ≡ (delete 7 owning.instances, delete 7 owning.owned, delete 7 owning.boot_ready))
delete_instance-success_example =
    delete_instance-success host 7 (err []) owning (record { code = 204; body = no_content })
      deletion (omega arith)

saving : (save_owned_instance host web agent).0 ≡ go (ok tt)
unfolding save_owned_instance may_save owned_instance owner_of lookup ◌>>=◌ ◌>>◌ get_state modify
    on_host pure
saving = refl

save_owned_instance-saved_example :
    (owned_instance 7 (save_owned_instance host web agent).1
      ≡ owner (rewritten (without_password web)))
    × ((prior : Instance)
        → owned_instance 7 agent ≡ owner prior
        → (prior.name ≡ web.name) × (prior.driver ≡ web.driver))
    × (owned_instance 7 agent ≢ broken)
    × ((j : ℕ)
        → j ≢ 7
        → owned_instance j (save_owned_instance host web agent).1 ≡ owned_instance j agent)
unfolding text
save_owned_instance-saved_example = save_owned_instance-saved host web agent refl refl saving

abbrev form : Parsed
form = record { instance_ = web; upload = none; extra_upload = none }

abbrev made : Response
made = record {
  code = 200;
  body = instance_of (record web { root_password = []; status = text "running" });
}

-- A deletion of an instance that the agent does not know.
abbrev request : Request
request = record {
  method = delete_;
  path = text "/api/instances/7";
  header_token = text "t";
  query_token = [];
  content_length = 0;
  host = [];
  replace = false;
  query_driver = [];
  as_parsed = err [];
  as_power = err [];
  as_instance = err [];
  as_snapshot = err [];
  as_resize = err [];
  as_configure = err [];
  as_rules = err [];
  as_mappings = err [];
  as_password = err [];
  as_network = err [];
}

abbrev no_console : ℕ → Request → Handler (Unit {0}) (Unit {0})
no_console id r = pure tt

abbrev unknown : Response
unknown = record {
  code = 409;
  body = error (text "instance identity is not registered on this agent");
}

refusal : (handle host no_console (text "t") request agent).0 ≡ reply unknown
unfolding handle auth body_limit instance_route route_parts scan_first takes_lease under_lease
    with_lease try_operation is_busy delete_instance delete_authorized request_instance
    owned_instance owner_of lookup ◌>>=◌ ◌>>◌ write pure get_state text ◌=ₜ◌ is has_prefix trim_left
    is_space
refusal = refl

handle-error_unchanged_example :
    view (handle host no_console (text "t") request agent).1 ≡ view agent
unfolding fills_stored
handle-error_unchanged_example =
    handle-error_unchanged host no_console (text "t") request agent unknown refl refl
      (λ id. Quiet-pure tt) refusal (omega arith)

resolution : resolve [] agent.registry tt ≡ (ok qemu, tt)
unfolding resolve fold to_lower trim_space trim_left
resolution = refl

no_preference : (not (is_empty (fold [])) && not (is (fold []) "auto")) ≡ false
unfolding fold to_lower trim_space trim_left
no_preference = refl

resolve-Picked_example : Picked agent.registry.drivers qemu
resolve-Picked_example = resolve-Picked [] agent.registry tt tt qemu no_preference resolution
