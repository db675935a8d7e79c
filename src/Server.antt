-- ===== src/Server.antt =====
-- cmd/agent/main.go: the state of the agent and the shape of its handlers. A handler is a program
-- over the state that ends early with a response (`writeError` and `return`) or goes on.
pub mod Ownership
pub mod Images
pub mod Leases
pub mod Create
pub mod Power
pub mod Queries
pub mod Configure
pub mod Updates
pub mod Recovery
pub mod Import
pub mod Resize
pub mod Enforce
pub mod Routes
pub mod Quiet
pub mod Atomicity
pub mod Outcome
use virtualis_agent.Common.{
  ℕ, Bool, false, true, List, [], ◌∷◌, Option, none, some, Result, ok, err, if◌then◌else◌, or_else,
  ◌==◌, by_result, by_option,
}
use virtualis_agent.Common.Int.{ℤ}
use virtualis_agent.Common.Text.{Text, text}
use virtualis_agent.Common.Map.{Map, lookup, insert, delete, eq_ℕ}
use virtualis_agent.Protocol.{Instance, NetworkStatus, Metrics, VncInfo}
use virtualis_agent.Operations.{Operations}
use virtualis_agent.Driver.{Driver, Call, Host}
use virtualis_agent.Driver.Registry.{Registry, resolve}

-- An uploaded file: its name, and the handle by which the host reads it.
pub record Upload : Type 0 where
  pub filename : Text
  pub handle : ℕ

-- The calls of the operating system and of the host's rules that the handlers make. The functions
-- of internal/driver for rules are in the second group; their instances are in and out.
pub record Environment (W : Type 0) : Type 0 where
  -- MkdirAll, CreateTemp, Write, Sync and Close on a new file beside the ownership file: all of
  -- saveOwnedInstance before Rename.
  pub write_owner_temp : Host W (Result (Unit {0}))
  pub rename_owner_temp : Host W (Result (Unit {0}))
  pub remove_owner_file : Host W (Result (Unit {0}))
  -- A new file of that extension under images; a copy into it, of at most a number of bytes.
  pub create_image : Text → Host W (Result Text)
  pub create_recovery_file : Host W (Result Text)
  pub create_export_dir : Host W (Result Text)
  pub copy_upload : Upload → Text → ℕ → Host W (Result ℕ)
  pub file_size : Text → Host W (Result ℕ)
  pub remove : Text → W → W
  pub prepare_disk_file : Text → W → W
  pub apply_nat_rules : Driver W → (retries interval : ℕ) → Call W ℕ
  pub clear_nat_rules : ℕ → W → W
  pub reconcile_firewall : Driver W → Option NetworkStatus → Call W (Unit {0})
  pub clear_firewall : ℕ → W → W
  pub reconcile_network_resources : Driver W → Call W (Unit {0})
  pub now : Host W ℕ
  -- net.ParseIP(ip) != nil
  pub is_ip : Text → Bool

-- What stands in the file of an instance's owner: an instance, or what does not parse.
pub data OwnerFile : Type 0 where
  holding : Instance → OwnerFile
  unreadable : OwnerFile

-- A goroutine that a handler left behind, with the lease that it retains.
pub record Boot (W : Type 0) : Type 0 where
  pub lease : Option ℕ
  pub driver : Driver W
  pub instance_ : Instance
  -- Whether it goes on to the rules, as after a creation.
  pub rules : Bool

pub record AgentServer (W : Type 0) : Type 0 where
  pub registry : Registry W
  pub instances : Map ℕ Instance
  pub operations : Operations
  pub metrics : Map ℕ Metrics
  pub boot_ready : Map ℕ Bool
  pub owned : Map ℕ OwnerFile
  pub boots : List (Boot W)
  pub world : W

pub data Body : Type 0 where
  no_content done_ : Body
  error : Text → Body
  instance_of : Instance → Body
  size_bytes : ℤ → Body
  metrics_of : Metrics → Body
  network_of : NetworkStatus → (observed_ip : Text) → Body
  vnc_of : VncInfo → Body
  file_at : Text → Body
  network_named : (name driver : Text) → Body
  configured :
      Instance → (status ip : Text) → NetworkStatus → (password ready : Bool) → (nat : ℕ) → Body
  not_configured : (step detail status ip : Text) → NetworkStatus → Body

pub record Response : Type 0 where
  pub code : ℕ
  pub body : Body

pub data Flow (A : Type 0) : Type 0 where
  reply : Response → Flow A
  go : A → Flow A

abbrev pub Handler : Type 0 → Type 0 → Type 0
Handler W A = AgentServer W → Flow A × AgentServer W

-- The instance of a decoded body, which must name the id of the path.
unfoldable pub request_instance : ℕ → Result Instance → Result Instance
request_instance id (err e) = err e
request_instance id (ok i) =
    if i.id == 0
    then err (text "instance missing")
    else if i.id == id
    then ok i
    else err (text "instance id mismatch")

module _ {W : Type 0} where
  infixl 5 ◌>>=◌ ◌>>◌
  unfoldable pub ◌>>=◌ : {A B : Type 0} → Handler W A → (A → Handler W B) → Handler W B
  ◌>>=◌ m f s = let (flow, s') = m s in elim flow [ reply r ↦ (reply r, s') | go a ↦ f a s' ]

  unfoldable pub ◌>>◌ : {B : Type 0} → Handler W (Unit {0}) → Handler W B → Handler W B
  unfolding ◌>>=◌
  m >> k = m >>= λ _. k

  unfoldable pub write : {A : Type 0} → ℕ → Body → Handler W A
  write code body s = (reply (record { code = code; body = body }), s)

  abbrev pub write_error : {A : Type 0} → ℕ → Text → Handler W A
  write_error code message = write code (error message)

  unfoldable pub pure : {A : Type 0} → A → Handler W A
  pure a s = (go a, s)

  unfoldable pub when : Bool → Handler W (Unit {0}) → Handler W (Unit {0})
  unfolding pure
  when b m = if b then m else pure tt

  -- The error of a step answers the request.
  unfoldable pub or_error : {A : Type 0} → ℕ → Result A → Handler W A
  unfolding pure write
  or_error code (ok a) = pure a
  or_error code (err e) = write_error code e

  unfoldable pub get_state : Handler W (AgentServer W)
  get_state s = (go s, s)

  unfoldable pub modify : (AgentServer W → AgentServer W) → Handler W (Unit {0})
  modify f s = (go tt, f s)

  unfoldable pub on_host : {A : Type 0} → (W → A × W) → Handler W A
  on_host f s = let (a, w) = f s.world in (go a, record s { world = w })

  unfoldable pub on_host_ : (W → W) → Handler W (Unit {0})
  on_host_ f s = (go tt, record s { world = f s.world })

  -- A deferred call runs when the rest has answered, whatever it answered.
  unfoldable pub deferred : {A : Type 0} → (W → W) → Handler W A → Handler W A
  deferred f m s = let (flow, t) = m s in (flow, record t { world = f t.world })

  -- A driver's method on the instance: its result and the instance after.
  unfoldable pub call :
      {A : Type 0} → (Instance → W → A × Instance × W) → Instance → Handler W (A × Instance)
  call f i s = let (a, i', w) = f i s.world in (go (a, i'), record s { world = w })

  -- s.registry.Resolve, with 400 for its error.
  abbrev pub resolve_driver : Text → Handler W (Driver W)
  resolve_driver name = do
    s ← get_state
    found ← on_host (resolve name s.registry)
    or_error 400 found

  unfoldable pub stored_instance : ℕ → AgentServer W → Option Instance
  stored_instance id s = lookup id s.instances

  unfoldable pub store : ℕ → Instance → AgentServer W → AgentServer W
  store id i s = record s { instances = insert id i s.instances }

  unfoldable pub mark_boot_ready : ℕ → Bool → AgentServer W → AgentServer W
  mark_boot_ready id ready s = record s { boot_ready = insert id ready s.boot_ready }

  unfoldable pub boot_ready_of : ℕ → AgentServer W → Bool
  boot_ready_of id s = or_else (lookup id s.boot_ready) false

  unfoldable pub apply_boot_ready : AgentServer W → Instance → Instance
  unfolding boot_ready_of
  apply_boot_ready s i = if i.id == 0 then i else record i { ssh_ready = boot_ready_of i.id s }

  -- The stored instance stands in where the body gives none.
  unfoldable pub requested_or_stored : ℕ → Result Instance → Handler W Instance
  unfolding request_instance stored_instance
  requested_or_stored id payload = do
    s ← get_state
    by_result (request_instance id payload)
        (λ _.
          by_option (stored_instance id s) (write_error 400 (text "instance not found on agent"))
            pure)
        pure
