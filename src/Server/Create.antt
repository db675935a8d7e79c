-- ===== src/Server/Create.antt =====
-- createInstance and deleteInstance of cmd/agent/main.go. The request has been decoded: parsing of
-- JSON and of multipart forms is the standard library's.
use virtualis_agent.Common.{
  ℕ, Bool, true, false, ◌||◌, not, Option, none, some, Result, ok, err, is_some, if◌then◌else◌,
  ◌==◌, by_result, by_option,
}
use virtualis_agent.Common.Text.{Text, text, is, is_empty, trim_space}
use virtualis_agent.Common.Map.{delete, eq_ℕ}
use virtualis_agent.Protocol.{Instance, Image, no_image}
use virtualis_agent.Driver.{Driver}
use virtualis_agent.Server.{
  AgentServer, Environment, Handler, Upload, no_content, instance_of, ◌>>=◌, ◌>>◌, pure, when,
  modify, get_state, on_host, on_host_, call, or_error, write, write_error, resolve_driver, store,
  request_instance,
}
use virtualis_agent.Server.Ownership.{
  Owner, owner, absent, owned_instance, save_owned_instance, without_password, same_identity,
}
use virtualis_agent.Server.Images.{attach_image, attach_extra}
use virtualis_agent.Server.Leases.{with_lease, leave_boot}

-- What parseInstance returns: the instance, and the files of the form.
pub record Parsed : Type 0 where
  pub instance_ : Instance
  pub upload : Option Upload
  pub extra_upload : Option Upload

pub data Method : Type 0 where
  get post delete_ other_method : Method

abbrev pub is_post : Method → Bool
is_post post = true
is_post _ = false

unfoldable pub names_host_path : Option Image → Bool
names_host_path none = false
names_host_path (some image) = not (is_empty image.path) || not (is_empty image.extra_path)

-- The image that an upload stands for where the request describes none.
unfoldable pub described : Option Upload → Instance → Instance
described none i = i
described (some upload) i = if is_some i.image then i else record i {
  image =
      some (record no_image {
        original_name = upload.filename;
        driver = i.driver;
        type = text "disk";
      });
}

-- The state that the driver reports, `stopped` where it reports none.
unfoldable pub real_status : Result Text → Text
real_status (ok status) = status
real_status (err _) = text "stopped"

abbrev pub require : {W : Type 0} → Bool → ℕ → Text → Handler W (Unit {0})
require b code message = if b then pure tt else write_error code message

abbrev pub is_absent : Owner → Bool
is_absent absent = true
is_absent _ = false

-- The body is read as far as it goes: one that does not parse, or names another id, is passed
-- over here, since the file decides.
unfoldable pub delete_authorized : Result Instance → Owner → Option Instance
delete_authorized (ok requested) (owner i) = if same_identity requested i then some i else none
delete_authorized (err _) (owner i) = some i
delete_authorized requested _ = none

unfoldable pub forget : {W : Type 0} → ℕ → AgentServer W → AgentServer W
forget id s = record s { instances = delete id s.instances; boot_ready = delete id s.boot_ready }

module _ {W : Type 0} (env : Environment W) where
  -- What the handler keeps of the new instance, once it is running or stopped.
  unfoldable pub register_created : Driver W → ℕ → Instance → Handler W (Unit {0})
  unfolding real_status
  register_created d l i = do
    (real, j) ← call d.status i
    let k = record j { status = real_status real }
    when (not (is_empty k.root_password) || is k.status "running") (modify (leave_boot d l true k))
    modify (store k.id (without_password k))
    write 200 (instance_of (without_password k))

  unfoldable pub create_absent : Parsed → ℕ → Handler W (Unit {0})
  unfolding described register_created
  create_absent p l = do
    i ← attach_image env none p.upload no_image (described p.upload p.instance_)
    j ← attach_extra env none p.extra_upload i
    d ← resolve_driver j.driver
    (created, k) ← call d.create j
    _ ← or_error 502 created
    let named = record k { driver = d.name }
    saved ← save_owned_instance env named
    by_result saved
        (λ _. write_error 500 (text "created runtime retained; ownership persistence failed"))
        (λ _. register_created d l named)

  unfoldable pub create_under_lease : Parsed → ℕ → Handler W (Unit {0})
  unfolding create_absent
  create_under_lease p l = do
    s ← get_state
    require (is_absent (owned_instance p.instance_.id s)) 409
        (text "instance identity already registered or ownership cannot be verified")
    create_absent p l

  unfoldable pub create_instance : Method → Result Parsed → Handler W (Unit {0})
  unfolding create_under_lease names_host_path
  create_instance method parsed = do
    require (is_post method) 405 (text "method not allowed")
    p ← or_error 400 parsed
    require (not (p.instance_.id == 0 || is_empty (trim_space p.instance_.name))) 400
        (text "instance id/name required")
    require (not (names_host_path p.instance_.image)) 400
        (text "image paths must be supplied as uploads, not host paths")
    with_lease p.instance_.id (create_under_lease p)

  -- The runtime's instance first, then the file, and the memory last.
  unfoldable pub delete_owned : ℕ → Instance → Handler W (Unit {0})
  unfolding forget
  delete_owned id i = do
    d ← resolve_driver i.driver
    (deleted, _) ← call d.delete i
    _ ← or_error 502 deleted
    removed ← on_host env.remove_owner_file
    by_result removed (λ _. write_error 500 (text "runtime removed; ownership cleanup failed"))
        (λ _. do
          modify λ t. record t { owned = delete id t.owned }
          on_host_ (env.clear_nat_rules id)
          on_host_ (env.clear_firewall id)
          modify (forget id)
          write 204 no_content)

  unfoldable pub delete_instance : ℕ → Result Instance → Handler W (Unit {0})
  unfolding request_instance delete_authorized delete_owned
  delete_instance id payload = do
    s ← get_state
    by_option (delete_authorized (request_instance id payload) (owned_instance id s))
        (write_error 409 (text "instance identity is not registered on this agent"))
        (delete_owned id)
