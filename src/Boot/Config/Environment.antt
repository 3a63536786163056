-- ===== src/Boot/Config/Environment.antt =====
-- boot/config.go: the environment variables that override a configuration. The variables, unicode's
-- letters and digits and strconv.ParseBool are parameters. The fields that Config leaves out
-- (advertised addresses, user names, passwords and tokens of Redis, the registry and notify) are
-- left out here too.
use dilu_go_kit.Base.{
  ℕ, ◌≡◌, refl, ◌⊎◌, inl, inr, List, [], ◌∷◌, ◌++◌, Option, none, some, Bool, true, false,
  if◌then◌else◌, ◌==◌, Bool-cases,
}
use mathlib.Core.List.{reverse}
use dilu_go_kit.Base.Float.{Float64}
use dilu_go_kit.Base.Text.{Text, beq, beq_iff, codes, trim_space}
use dilu_go_kit.Boot.Config.{DatabaseConfig, Config}

-- `is_alnum` is unicode.IsLetter or unicode.IsDigit; `parse_bool` is strconv.ParseBool.
pub record Host : Type 0 where
  pub getenv : Text → Text
  pub is_alnum : ℕ → Bool
  pub to_upper : ℕ → ℕ
  pub parse_bool : Text → Option Bool

-- The loop of envName; `last` is lastUnderscore.
unfoldable pub env_runes : Host → (last : Bool) → Text → Text
env_runes h last [] = []
env_runes h last (c ∷ s) =
    let after_rune = env_runes h false s in
    let after_other = env_runes h true s in
    if h.is_alnum c
    then h.to_upper c ∷ after_rune
    else if last
    then after_other
    else b'_' ∷ after_other

abbrev pub drop_underscores : Text → Text
drop_underscores [] = []
drop_underscores (c ∷ s) = let rest = drop_underscores s in if c == b'_' then rest else c ∷ s

-- envName
unfoldable pub env_name : Host → Text → Text
unfolding env_runes
env_name h name = reverse (drop_underscores (reverse (drop_underscores (env_runes h false name))))

-- A variable that is not empty takes the place of the value.
abbrev pub override : (old value : Text) → Text
override old value = if beq value [] then old else value

abbrev pub override_dsn : Text → DatabaseConfig → DatabaseConfig
override_dsn value d = record d { dsn = override d.dsn value }

abbrev pub dsn_key : Host → Text → Text
dsn_key h name = codes "DATABASE_" ++ (env_name h name ++ codes "_DSN")

abbrev pub Databases : Type 0
Databases = List (Text × DatabaseConfig)

abbrev pub override_all : Host → Databases → Databases
override_all h [] = []
override_all h ((name, d) ∷ ds) =
    (name, override_dsn (h.getenv (codes "DATABASE_DSN")) d) ∷ override_all h ds

abbrev pub override_named : Host → Databases → Databases
override_named h [] = []
override_named h ((name, d) ∷ ds) =
    (name, override_dsn (h.getenv (dsn_key h name)) d) ∷ override_named h ds

abbrev pub parsed_or : Bool → Option Bool → Bool
parsed_or old none = old
parsed_or old (some b) = b

abbrev pub override_flag : Host → Bool → Text → Bool
override_flag h old value = if beq value [] then old else parsed_or old (h.parse_bool value)

-- A value that follows its variable, if the variable is set.
abbrev pub Follows : Host → (value variable : Text) → Type 0
Follows h value variable = (h.getenv variable ≡ []) ⊎ (value ≡ h.getenv variable)

override-Follows :
    (h : Host) (old variable : Text) → Follows h (override old (h.getenv variable)) variable
override-Follows h old variable = elim (Bool-cases (beq (h.getenv variable) [])) [
  | inl e ↦ inl ((beq_iff _ _).0 e)
  | inr e ↦ inr (rw e refl)
]

module _ {f : Float64} (h : Host) where
  -- applyEnvOverrides
  unfoldable pub apply_env_overrides : Config f → Config f
  unfolding env_name
  apply_env_overrides c = record c {
    server = record (c.server) { addr = override c.server.addr (h.getenv (codes "SERVER_ADDR")) };
    grpc = record (c.grpc) { addr = override c.grpc.addr (h.getenv (codes "GRPC_ADDR")) };
    registry = record (c.registry) {
      config_node = override c.registry.config_node (h.getenv (codes "REMOTE_NODE"));
    };
    database = override_named h (override_all h c.database);
    redis_addr = override c.redis_addr (h.getenv (codes "REDIS_ADDR"));
    jwt = record (c.jwt) { secret = override c.jwt.secret (h.getenv (codes "JWT_SECRET")) };
    notify = record (c.notify) {
      ws_url = override c.notify.ws_url (h.getenv (codes "NOTIFY_WS_URL"));
    };
    pprof = record (c.pprof) {
      auth_token = override c.pprof.auth_token (h.getenv (codes "PPROF_TOKEN"));
    };
    require_tls = override_flag h c.require_tls (trim_space (h.getenv (codes "REQUIRE_TLS")));
  }

  -- The secret and the notify URL, which may change while the program runs, are those of the
  -- environment.
  abbrev pub Pinned : Config f → Type 0
  Pinned c =
      Follows h c.jwt.secret (codes "JWT_SECRET")
      × Follows h c.notify.ws_url (codes "NOTIFY_WS_URL")

  pub apply_env_overrides-Pinned : (c : Config f) → Pinned (apply_env_overrides c)
  unfolding apply_env_overrides
  apply_env_overrides-Pinned c = (
    override-Follows h c.jwt.secret (codes "JWT_SECRET"),
    override-Follows h c.notify.ws_url (codes "NOTIFY_WS_URL"),
  )
