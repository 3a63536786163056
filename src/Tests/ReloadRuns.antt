-- ===== src/Tests/ReloadRuns.antt =====
-- A reload that changes the mode of CORS, and one that fails.
use native.Mathlib.Decide.{ℕ_discrete}
use dilu_go_kit.Base.{
  ◌≡◌, refl, [], ◌∷◌, Bool, true, false, some, none, inl, inr, if◌then◌else◌, All,
}
use dilu_go_kit.Base.Result.{ok, err}
use dilu_go_kit.Base.Text.{
  Text, beq, codes, len, contains, has_control, trim_space, is_space, to_lower,
}
use dilu_go_kit.Boot.Config.{Config}
use dilu_go_kit.Boot.Config.Environment.{Host, apply_env_overrides, env_name, env_runes}
use dilu_go_kit.Boot.Remote.Settings.{Settings, end, value, section, walk, is_sensitive_config_path}
use dilu_go_kit.Boot.Remote.Layers.{
  Viper, missing, stored, fetched, merge_config_layers, merge_layer,
}
use dilu_go_kit.Boot.Remote.Sessions.{Session, merge_remote_config, node_layer, fetch_remote_by_key}
use dilu_go_kit.Boot.Remote.{
  validate_remote_config_payload, validate_remote_config_inputs, resolve_config_key,
  resolve_config_node_key, config_key_prefix, config_format_of, drop_slashes,
}
use dilu_go_kit.Registry.Keys.Backends.{has_dots, trim_slashes}
use dilu_go_kit.Boot.Config.Checks.{
  validate, first_error, flatten, server_checks, registry_checks, notify_checks, pprof_checks,
  pprof_tls_checks, limit_checks, tls_checks, release_checks,
}
use dilu_go_kit.Boot.Reload.{
  App, Watch, Static, static_of, returned, call_config_validator, call_config_applied, merged,
  consider, publish, run_validators, run_applied, validate_runtime_config_change, reload,
  reload_all,
}
use dilu_go_kit.Boot.Reload.Publishing.{Harmless, Published, reload_all-Published}
use dilu_go_kit.Boot.Reload.History.{Agree, history_free}
use dilu_go_kit.Tests.Parameters.{float}
use dilu_go_kit.Tests.ConfigRuns.{library, config, valid}

static_discrete : Discrete (Static float)
static_discrete = hlevel ℕ_discrete

abbrev is_yes : {A : Type 0} → Dec A → Bool
is_yes (yes a) = true
is_yes (no a) = false

from_yes : {A : Type 0} (d : Dec A) → is_yes d ≡ true → A
from_yes (yes a) h = a
from_yes (no a) h = cc

abbrev from_env : Text → Text
from_env v = if beq v (codes "JWT_SECRET") then config.jwt.secret else []

abbrev host : Host
host = record { getenv = from_env; is_alnum = λ c. true; to_upper = λ c. c; parse_bool = λ s. none }

-- The remote layer holds one setting, the mode of CORS.
abbrev changed : Settings → Config float → Config float
changed (value k v s) c = record c { cors_mode = v }
changed end c = c
changed (section k n s) c = c

abbrev viper : Viper (Config float)
viper = record {
  read_config = λ format b. ok (value (codes "mode") b end);
  settings_of = λ c. ok end;
  merge_config = λ base layer. ok layer;
  unmarshal = λ s c. ok (changed s c);
}

abbrev same : Static float → Static float → Bool
same a b = is_yes (static_discrete a b)

same_sound : (a b : Static float) → same a b ≡ true → a ≡ b
same_sound a b h = from_yes (static_discrete a b) h

abbrev watch : Watch float
watch = record {
  library = library;
  host = host;
  viper = viper;
  deep_equal = same;
  registry = config.registry;
  service_name = codes "user";
  callbacks = some (λ c. (returned none, c)) ∷ none ∷ [];
  applied_callbacks = none ∷ [];
}

harmless : All (Harmless float) watch.callbacks
unfolding call_config_validator
harmless = ((λ c. refl), ((λ c. refl), tt))

abbrev app : App float
app = record { local_config = some config; config = config }

abbrev answers : Text → Session
answers mode key = if beq key (codes "/config/user") then ok (stored mode) else ok missing

start : Published watch (static_of app.config) app.config
unfolding beq
start = (valid, refl, (inr refl, inl refl))

reload_all-Published_example :
    Published watch
      (static_of app.config)
      (reload_all watch app (answers (codes "whitelist") ∷ (λ key. err []) ∷ [])).config
reload_all-Published_example =
    reload_all-Published watch same_sound harmless (static_of app.config) app
      (answers (codes "whitelist") ∷ (λ key. err []) ∷ []) start

history_free_example :
    let first = answers (codes "whitelist") in
    let b = reload_all watch app (first ∷ []) in
    let second = answers (codes "allow-all") in
    Agree watch app b (reload watch app second) (reload watch b second)
history_free_example =
    history_free watch same_sound harmless app config (answers (codes "whitelist") ∷ [])
      (answers (codes "allow-all")) refl start

abbrev mode_after : Session → Text
mode_after s = (reload watch app s).0.config.cors_mode

published_mode : mode_after (answers (codes "whitelist")) ≡ codes "whitelist"
unfolding reload merged consider publish run_validators run_applied call_config_validator
    call_config_applied validate_runtime_config_change static_of static_discrete merge_remote_config
    node_layer fetch_remote_by_key fetched merge_config_layers merge_layer
    validate_remote_config_payload validate_remote_config_inputs resolve_config_key
    resolve_config_node_key config_key_prefix config_format_of drop_slashes trim_slashes walk
    is_sensitive_config_path to_lower apply_env_overrides env_name env_runes validate first_error
    flatten server_checks registry_checks notify_checks pprof_checks pprof_tls_checks limit_checks
    tls_checks release_checks beq len contains has_control trim_space is_space has_dots ℕ_discrete
published_mode = refl
