-- ===== src/Server/Routes.antt =====
-- auth, vpcRoute and instanceRoute of cmd/agent/main.go: who is let in, and which handler runs.
use mathlib.Core.List.{reverse}
use virtualis_agent.Common.{
  ℕ, ◌+◌, ◌-◌, ◌*◌, ◌^◌, ◌≡◌, refl, Bool, true, false, ◌&&◌, ◌||◌, not, List, [], ◌∷◌, Option, none,
  some, Result, ok, err, if◌then◌else◌, ◌==◌, ltb, leb, length, drop, by_result, by_option,
}
use virtualis_agent.Common.Text.{
  Text, split, text, is, is_empty, ◌=ₜ◌, has_prefix, trim_left, is_space,
}
use virtualis_agent.Protocol.{Instance, NetworkSpec, FirewallRule, NatMapping}
use virtualis_agent.Server.{
  Environment, Handler, no_content, network_named, ◌>>=◌, ◌>>◌, pure, on_host, or_error, write,
  write_error, resolve_driver,
}
use virtualis_agent.Server.Images.{max_image_size, has_suffix}
use virtualis_agent.Server.Leases.{with_lease}
use virtualis_agent.Server.Create.{
  Parsed, Method, get, post, delete_, is_post, require, create_instance, delete_instance,
}
use virtualis_agent.Server.Power.{power_instance}
use virtualis_agent.Server.Queries.{
  status_instance, metrics_instance, network_instance, vnc_instance, set_password,
}
use virtualis_agent.Server.Configure.{ConfigureRequest, configure_network_instance}
use virtualis_agent.Server.Updates.{update_firewall_rules, update_nat_mappings}
use virtualis_agent.Server.Recovery.{snapshot_instance, export_instance}
use virtualis_agent.Server.Import.{import_instance}
use virtualis_agent.Server.Resize.{ResizeRequest, resize_instance}

-- A request, with its body as each handler decodes it.
pub record Request : Type 0 where
  pub method : Method
  pub path : Text
  pub header_token : Text
  pub query_token : Text
  pub content_length : ℕ
  pub host : Text
  pub replace : Bool
  pub query_driver : Text
  pub as_parsed : Result Parsed
  pub as_power : Result (Parsed × Text)
  pub as_instance : Result Instance
  pub as_snapshot : Result (Instance × Text × Text)
  pub as_resize : Result ResizeRequest
  pub as_configure : Result ConfigureRequest
  pub as_rules : Result (Instance × List FirewallRule)
  pub as_mappings : Result (Instance × Option (List NatMapping))
  pub as_password : Result (Instance × Text)
  pub as_network : Result NetworkSpec

unfoldable pub body_limit : Text → ℕ
unfolding has_suffix
body_limit path =
    if path =ₜ text "/api/instances"
      || has_suffix path (text "/power")
      || has_suffix path (text "/import")
    then max_image_size + 2 ^ 20
    else 2 ^ 20

-- The token of the header, or of the query if there is none; then the size.
unfoldable pub auth : {W : Type 0} → Text → Request → Handler W (Unit {0}) → Handler W (Unit {0})
unfolding body_limit
auth token r next = do
  let provided = if is_empty r.header_token then r.query_token else r.header_token
  require (provided =ₜ token) 401 (text "agent token 无效")
  require (leb r.content_length (body_limit r.path)) 413 (text "request exceeds maximum size")
  next

strip : ℕ → Text → Text
strip sep [] = []
strip sep (c ∷ s) = if c == sep then strip sep s else c ∷ s

-- strings.TrimPrefix
unfoldable pub trim_prefix : Text → Text → Text
trim_prefix s prefix = if has_prefix s prefix then drop (length prefix) s else s

-- The parts of the path behind /api/instances/.
unfoldable pub route_parts : Text → List Text
unfolding split strip trim_prefix
route_parts path =
    let rest = trim_prefix path (text "/api/instances/") in
    split b'/' (reverse (strip b'/' (reverse (strip b'/' rest))))

scan_digits : ℕ → Text → ℕ
scan_digits n [] = n
scan_digits n (c ∷ s) =
    let rest = scan_digits (n * 10 + (c - b'0')) s in if leb b'0' c && leb c b'9' then rest else n

abbrev begins_with_digit : Text → Bool
begins_with_digit [] = false
begins_with_digit (c ∷ s) = leb b'0' c && leb c b'9'

-- fmt.Sscanf(part, "%d", &id): the digits that the part begins with, behind white space.
unfoldable pub scan_id : Text → Option ℕ
unfolding scan_digits
scan_id part =
    let digits = trim_left part in
    let n = scan_digits 0 digits in
    if begins_with_digit digits && ltb n (2 ^ 64) then some n else none

-- The one route that takes no lease: the console's socket stays open.
unfoldable pub takes_lease : Method → List Text → Bool
takes_lease get (id ∷ a ∷ b ∷ []) = not (is a "vnc" && is b "ws")
takes_lease _ _ = true

-- The id of the first part, which must be positive.
unfoldable pub scan_first : List Text → Result ℕ
unfolding scan_id
scan_first [] = err (text "instance id required")
scan_first (part ∷ parts) =
    if is_empty part
    then err (text "instance id required")
    else by_option (scan_id part) (err (text "invalid instance id"))
        (λ id. if id == 0 then err (text "invalid instance id") else ok id)

abbrev is_delete : Method → Bool
is_delete delete_ = true
is_delete _ = false

route_runs :
    (route_parts (text "/api/instances/12/power/") ≡ text "12" ∷ text "power" ∷ [])
    × (scan_first (text "12" ∷ []) ≡ ok 12)
    × (scan_first (text "0" ∷ []) ≡ err (text "invalid instance id"))
unfolding route_parts scan_first text has_prefix trim_left is_space
route_runs = (refl, refl, refl)

module _ {W : Type 0} (env : Environment W) where
  unfoldable pub not_found : Handler W (Unit {0})
  not_found = write_error 404 (text "not found")

  unfoldable pub post_action : ℕ → ℕ → Text → Request → Handler W (Unit {0})
  post_action l id action r =
      if is action "snapshots"
      then snapshot_instance id r.as_snapshot
      else if is action "export"
      then export_instance env id r.as_instance
      else if is action "import"
      then import_instance env id r.replace r.as_parsed
      else if is action "resize"
      then resize_instance id r.as_resize
      else if is action "power"
      then power_instance env l id r.as_power
      else if is action "status"
      then status_instance env id r.as_instance
      else if is action "metrics"
      then metrics_instance env id r.as_instance
      else if is action "network"
      then network_instance env id r.as_instance
      else if is action "vnc"
      then vnc_instance env id r.host r.as_instance
      else if is action "nat"
      then update_nat_mappings env id r.as_mappings
      else if is action "firewall"
      then update_firewall_rules env id r.as_rules
      else if is action "password"
      then set_password env id r.as_password
      else not_found

  -- The handler by the method and the number of parts.
  unfoldable pub under_lease : ℕ → ℕ → Method → List Text → Request → Handler W (Unit {0})
  unfolding post_action not_found
  under_lease l id delete_ (_ ∷ []) r = delete_instance env id r.as_instance
  under_lease l id post (_ ∷ action ∷ []) r = post_action l id action r
  under_lease l id post (_ ∷ a ∷ b ∷ []) r =
      if is a "network" && is b "configure"
      then configure_network_instance env id r.as_configure
      else not_found
  under_lease l id _ _ r = not_found

  -- `console` is vncWebSocket, which copies bytes between two sockets and changes no state here.
  unfoldable pub instance_route :
      (ℕ → Request → Handler W (Unit {0})) → Request → Handler W (Unit {0})
  unfolding route_parts scan_id takes_lease scan_first under_lease
  instance_route console r =
      let parts = route_parts r.path in
      by_result (scan_first parts) (λ e. write_error 400 e)
        (λ id.
          if takes_lease r.method parts
          then with_lease id (λ l. under_lease l id r.method parts r)
          else console id r)

  -- The two routes of a virtual network, and the driver's error in the answer.
  unfoldable pub vpc_route : Request → Handler W (Unit {0})
  unfolding not_found trim_prefix
  vpc_route r =
      if is_post r.method && r.path =ₜ text "/api/vpc"
      then (do
        decoded ← pure r.as_network
        spec ← or_error 400 decoded
        d ← resolve_driver spec.driver
        created ← on_host (d.create_network spec)
        _ ← or_error 502 created
        write 200 (network_named spec.name d.name))
      else if is_delete r.method && has_prefix r.path (text "/api/vpc/")
      then (do
        d ← resolve_driver r.query_driver
        deleted ← on_host (d.delete_network (trim_prefix r.path (text "/api/vpc/")))
        _ ← or_error 502 deleted
        write 204 no_content)
      else not_found

  -- The routes behind the token that change state.
  unfoldable pub handle :
      (ℕ → Request → Handler W (Unit {0})) → Text → Request → Handler W (Unit {0})
  unfolding vpc_route instance_route auth
  handle console token r = auth token r (
      if r.path =ₜ text "/api/instances"
      then create_instance env r.method r.as_parsed
      else if has_prefix r.path (text "/api/instances/")
      then instance_route console r
      else vpc_route r)
