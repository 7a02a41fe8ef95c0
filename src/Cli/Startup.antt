-- ===== src/Cli/Startup.antt =====
-- crates/microwaf/src/cli/daemon.rs: `run`, up to the start of its threads; crates/microwaf/src/iface.rs:
-- `is_any` and `ensure_exists`. What the system answers is given: whether an interface exists, how the
-- socket is bound, how the Redis server is opened, and whether the XDP object attaches.
use microwaf.Prelude.{ℕ, Bool, true, false, Option, none, some, [], ◌==◌, nat_eq, list_eq}
use microwaf.Prelude.{if◌then◌else◌}
use microwaf.Prelude.Text.{Text, codes, to_ascii_lowercase}
use microwaf.Prelude.Result.{Result, ok, err}
use microwaf.Time.{Instant}
use microwaf.Enforcer.{Mode, enforce, permissive, Enforcer, permissive_enforcer, bpf_enforcer}
use microwaf.State.{DaemonState, LiveConfig, new_state, set_enforcer}
use microwaf.Store.{ManualPolicyStore, MemoryStore, hydrate}
use microwaf.Files.{LoadError, Disk, load, resolve_config_dir}
use microwaf.Config.{DaemonConfig, SetsConfig, YamlRules}
use microwaf.Cli.Args.{Cli, DaemonArgs, daemon_options}

-- `is_any`
unfoldable pub is_any : Text → Bool
is_any name = to_ascii_lowercase name == codes "any"

-- `ensure_exists`
unfoldable pub ensure_exists : (Text → Bool) → Text → Bool
ensure_exists known name = if name == [] then false else if is_any name then true else known name

pub data StartError : Type 0 where
  load_failed : LoadError → StartError
  no_interface : Text → StartError
  bind_failed : StartError
  hydrate_failed : Text → StartError
  panicked : StartError

-- `StoreBackend`
pub data StoreBackend (D : Type 0) : Type 0 where
  redis : D → StoreBackend D
  memory : MemoryStore → StoreBackend D

pub record Started (P D : Type 0) : Type 0 where
  pub state : DaemonState P
  pub store : StoreBackend D

abbrev mode_or : Option Mode → Mode → Mode
mode_or none mode = mode
mode_or (some mode) old = mode

-- the interface: the flag, the configuration, or `any`
abbrev interface_or : Option Text → Option Text → Text
interface_or (some a) b = a
interface_or none (some b) = b
interface_or none none = codes "any"

-- the enforcer of a mode; without XDP the daemon falls back to the permissive one
unfoldable pub enforcer_for : Mode → Bool → Enforcer
enforcer_for enforce true = bpf_enforcer []
enforcer_for enforce false = permissive_enforcer []
enforcer_for permissive attached = permissive_enforcer []

module _ {P D : Type 0} (store : ManualPolicyStore D) where
  abbrev hydrated : D → Option (Result Text (DaemonState P)) → Result StartError (Started P D)
  hydrated d none = err panicked
  hydrated d (some (err e)) = err (hydrate_failed e)
  hydrated d (some (ok s)) = ok (record { state = s; store = redis d })

  -- Redis, whose policies are loaded, or the store in memory
  unfoldable pub open_store :
      Result Text D → DaemonState P → Instant → ℕ → Result StartError (Started P D)
  open_store (err e) s now now_sys = ok (record { state = s; store = memory [] })
  open_store (ok d) s now now_sys = hydrated d (hydrate store s d now now_sys)

  abbrev with_enforcer :
      Enforcer → Result StartError (Started P D) → Result StartError (Started P D)
  with_enforcer e (err x) = err x
  with_enforcer e (ok started) = ok (record started { state = set_enforcer started.state e })

  -- `run`, once the configuration is loaded
  unfoldable pub start :
      (Text → Bool)
      → Bool
      → Result Text D
      → Bool
      → DaemonArgs
      → LiveConfig P
      → Instant
      → ℕ
      → Result StartError (Started P D)
  start known bound opened attached options live now now_sys =
      let mode = mode_or options.mode live.daemon.mode in
      let interface = interface_or options.interface live.daemon.interface in
      if ensure_exists known interface
      then (if bound
          then with_enforcer (enforcer_for mode attached)
              (open_store opened (new_state mode interface live now) now now_sys)
          else err bind_failed)
      else err (no_interface interface)

module _ {P D : Type 0} (compile_cel : Text → Result Text P)
    (yaml_daemon : Text → Result Text DaemonConfig) (yaml_sets : Text → Result Text SetsConfig)
    (yaml_rules : Text → Result Text YamlRules) (store : ManualPolicyStore D) where
  abbrev start_loaded :
      (Text → Bool)
      → Bool
      → Result Text D
      → Bool
      → DaemonArgs
      → Instant
      → ℕ
      → Disk × Result LoadError (LiveConfig P)
      → Disk × Result StartError (Started P D)
  start_loaded known bound opened attached options now now_sys (d, err e) = (d, err (load_failed e))
  start_loaded known bound opened attached options now now_sys (d, ok live) =
      (d, start store known bound opened attached options live now now_sys)

  -- `run`; `env` is the environment
  unfoldable pub run_daemon :
      (Text → Option Text)
      → (Text → Bool)
      → Bool
      → Result Text D
      → Bool
      → Cli
      → Disk
      → Instant
      → ℕ
      → Disk × Result StartError (Started P D)
  run_daemon env known bound opened attached cli d now now_sys =
      let options = daemon_options cli in
      start_loaded known bound opened attached options now now_sys (
        load compile_cel yaml_daemon yaml_sets yaml_rules
          (resolve_config_dir env options.config_dir) d)
