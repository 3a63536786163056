-- ===== src/Boot/Reload.antt =====
-- boot/app.go: a change of the remote configuration while the program runs, which is the callback of
-- watchRemoteConfig. Configurations are not nil; reflect.DeepEqual on the startup fields is a
-- parameter, and so are the callbacks of OnConfigChange and OnConfigApplied. A configuration is a
-- value, so the copies of cloneConfig are the configuration itself.
pub mod Publishing
pub mod History
use dilu_go_kit.Base.{List, [], ◌∷◌, ◌++◌, Option, none, some, Bool, not, if◌then◌else◌}
use dilu_go_kit.Base.Float.{Float64}
use dilu_go_kit.Base.Result.{Result, ok, err}
use dilu_go_kit.Base.Text.{Text, codes}
use dilu_go_kit.Boot.Config.{
  ServerConfig, DatabaseConfig, GrpcConfig, RegistryConfig, PprofConfig, Config, Library,
}
use dilu_go_kit.Boot.Config.Checks.{validate}
use dilu_go_kit.Boot.Config.Environment.{Host, apply_env_overrides}
use dilu_go_kit.Boot.Remote.{RemoteError}
use dilu_go_kit.Boot.Remote.Layers.{Viper}
use dilu_go_kit.Boot.Remote.Sessions.{Session, merge_remote_config, merge_remote_config_optional}

-- The startup fields that validateRuntimeConfigChange compares, as far as Config has them.
pub record Static (f : Float64) : Type 0 where
  pub server : ServerConfig
  pub require_tls : Bool
  pub database : List (Text × DatabaseConfig)
  pub redis_addr : Text
  pub redis_tls : Bool
  pub grpc : GrpcConfig
  pub registry : RegistryConfig
  pub sample_ratio : f.F
  pub pprof : PprofConfig

unfoldable pub static_of : {f : Float64} → Config f → Static f
static_of c = record {
  server = c.server;
  require_tls = c.require_tls;
  database = c.database;
  redis_addr = c.redis_addr;
  redis_tls = c.redis_tls;
  grpc = c.grpc;
  registry = c.registry;
  sample_ratio = c.sample_ratio;
  pprof = c.pprof;
}

-- How a callback ends: with its error, `none` for nil, or with a panic.
pub data Outcome : Type 0 where
  returned : Option Text → Outcome
  panicked : Text → Outcome

-- What the reload logs.
pub data Report : Type 0 where
  merge_failed : RemoteError → Report
  static_changed : Report
  invalid refused apply_failed : Text → Report
  updated : Report

abbrev pub fault_of : Outcome → Option Text
fault_of (returned e) = e
fault_of (panicked message) = some (codes "panic: " ++ message)

-- ConfigChangeFunc, which gets a pointer: how it ends and the configuration as it leaves it.
abbrev pub Validator : Float64 → Type 0
Validator f = Config f → Outcome × Config f

-- ConfigAppliedFunc, which gets a copy: `some` is a panic.
abbrev pub Applied : Float64 → Type 0
Applied f = Config f → Option Text

-- An error ends the loop; else it goes on.
abbrev pub unless {ℓ} : {A : Type ℓ} → Option Text → Result Text A → Result Text A
unless none rest = rest
unless (some e) rest = err e

module _ {f : Float64} where
  -- callConfigValidator; `none` is nil.
  unfoldable pub call_config_validator : Option (Validator f) → Config f → Option Text × Config f
  call_config_validator none c = (none, c)
  call_config_validator (some fn) c = (fault_of (fn c).0, (fn c).1)

  -- callConfigApplied
  unfoldable pub call_config_applied : Option (Applied f) → Config f → Option Text
  call_config_applied none c = none
  call_config_applied (some fn) c = elim (fn c) [
    | none ↦ none
    | some message ↦ some (codes "panic: " ++ message)
  ]

  -- The loop over the callbacks of OnConfigChange, with the configuration that they leave.
  unfoldable pub run_validators : List (Option (Validator f)) → Config f → Result Text (Config f)
  unfolding call_config_validator
  run_validators [] c = ok c
  run_validators (fn ∷ fns) c =
      let (fault, left) = call_config_validator fn c in unless fault (run_validators fns left)

  -- The loop over the callbacks of OnConfigApplied.
  unfoldable pub run_applied : List (Option (Applied f)) → Config f → List Report
  unfolding call_config_applied
  run_applied [] c = []
  run_applied (fn ∷ fns) c = elim (call_config_applied fn c) [
    | none ↦ run_applied fns c
    | some e ↦ apply_failed e ∷ run_applied fns c
  ]

-- The configuration of the program: a.localConfig and a.Config.
pub record App (f : Float64) : Type 0 where
  pub local_config : Option (Config f)
  pub config : Config f

-- What a watch works with: the functions of Go and of the libraries, the registry and the service
-- name of the configuration at its start, and the callbacks.
pub record Watch (f : Float64) : Type 0 where
  pub library : Library f
  pub host : Host
  pub viper : Viper (Config f)
  pub deep_equal : Static f → Static f → Bool
  pub registry : RegistryConfig
  pub service_name : Text
  pub callbacks : List (Option (Validator f))
  pub applied_callbacks : List (Option (Applied f))

abbrev pub base_of : {f : Float64} → App f → Option (Config f) → Config f
base_of a none = a.config
base_of a (some c) = c

abbrev pub validity : Result Text (Unit {0}) → Result Report (Unit {0})
validity (err e) = err (invalid e)
validity (ok u) = ok tt

module _ {f : Float64} (w : Watch f) where
  -- validateRuntimeConfigChange
  unfoldable pub validate_runtime_config_change :
      (current next : Config f) → Result Report (Unit {0})
  unfolding static_of
  validate_runtime_config_change current next =
      if not (w.deep_equal (static_of current) (static_of next))
      then err static_changed
      else validity (validate f w.library next)

  unfoldable pub publish : App f → Result Text (Config f) → App f × List Report
  unfolding run_applied
  publish a (err e) = (a, refused e ∷ [])
  publish a (ok c) = (record a { config = c }, run_applied w.applied_callbacks c ++ updated ∷ [])

  unfoldable pub consider : App f → Config f → Result Report (Unit {0}) → App f × List Report
  unfolding publish run_validators
  consider a c (err r) = (a, r ∷ [])
  consider a c (ok u) = publish a (run_validators w.callbacks c)

  unfoldable pub merged : App f → Result RemoteError (Config f) → App f × List Report
  unfolding consider apply_env_overrides validate_runtime_config_change
  merged a (err e) = (a, merge_failed e ∷ [])
  merged a (ok c) =
      let next = apply_env_overrides w.host c in
      consider a next (validate_runtime_config_change a.config next)

  -- The callback that watchRemoteConfig passes on; the sessions answer for the remote keys.
  unfoldable pub reload : App f → Session → App f × List Report
  unfolding merged merge_remote_config
  reload a session = merged a (
      merge_remote_config_optional w.viper (w.host.getenv (codes "REMOTE_NODE")) session w.registry
        w.service_name (base_of a a.local_config))

  -- One reload after the other: reloadMu.
  unfoldable pub reload_all : App f → List Session → App f
  unfolding reload
  reload_all a [] = a
  reload_all a (s ∷ ss) = reload_all (reload a s).0 ss
