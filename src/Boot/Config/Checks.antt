-- ===== src/Boot/Config/Checks.antt =====
-- boot/config.go: Validate and validateTLSRequirements of a configuration that is not nil.
use dilu_go_kit.Base.{
  List, [], ◌∷◌, ◌++◌, Option, none, some, Bool, true, false, ◌&&◌, ◌||◌, not, if◌then◌else◌, ltb,
  all,
}
use dilu_go_kit.Base.Int.{ℤ, pos, ltb_ℤ}
use dilu_go_kit.Base.Float.{Float64}
use dilu_go_kit.Base.Result.{Result, ok, err}
use dilu_go_kit.Base.Text.{Text, beq, codes, len, trim_space, contains, has_control}
use dilu_go_kit.Registry.Keys.Backends.{has_dots}
use dilu_go_kit.Boot.Config.{
  ServerConfig, DatabaseConfig, GrpcConfig, RegistryConfig, NotifyConfig, PprofConfig, Config, Url,
  Library,
}

-- A check: the condition under which Validate returns the error.
abbrev pub Check : Type 0
Check = Bool × Text

unfoldable pub first_error : List Check → Result Text (Unit {0})
first_error [] = ok tt
first_error ((bad, message) ∷ cs) = let rest = first_error cs in if bad then err message else rest

unfoldable pub flatten : List (List Check) → List Check
flatten [] = []
flatten (g ∷ gs) = g ++ flatten gs

abbrev pub blank : Text → Bool
blank s = beq (trim_space s) []

abbrev pub is_release : Text → Bool
is_release mode = beq mode (codes "release") || beq mode (codes "production")

-- Below 0 or above the bound.
abbrev pub outside : ℤ → ℤ → Bool
outside hi v = ltb_ℤ v (pos 0) || ltb_ℤ hi v

abbrev pub negative : ℤ → Bool
negative v = ltb_ℤ v (pos 0)

abbrev pub over : ℤ → ℤ → Bool
over hi v = ltb_ℤ hi v

abbrev pub is_nil {ℓ} : {A : Type ℓ} → List A → Bool
is_nil [] = true
is_nil (x ∷ xs) = false

unfoldable pub server_checks : ServerConfig → List Check
server_checks s =
    (
      not (beq (trim_space s.mode) s.mode)
          || (not (beq s.mode []) && not (beq s.mode (codes "debug")) && not (is_release s.mode)),
      codes "server.mode must be debug, release, or production",
    )
    ∷ (blank s.name, codes "server.name is required")
    ∷ (
      ltb 128 (len s.name) || contains b'/' s.name || has_control s.name,
      codes "server.name is invalid",
    )
    ∷ (ltb 128 (len s.version) || has_control s.version, codes "server.version is invalid")
    ∷ (blank s.addr, codes "server.addr is required")
    ∷ []

abbrev pub database_name : Text → Text → Text
database_name name message = codes "database." ++ (name ++ message)

abbrev pub dsn_checks : List (Text × DatabaseConfig) → List Check
dsn_checks [] = []
dsn_checks ((name, d) ∷ ds) =
    (blank d.dsn, database_name name (codes ".dsn is required")) ∷ dsn_checks ds

unfoldable pub registry_checks : RegistryConfig → List Check
registry_checks r =
    (
      r.enable && is_nil r.endpoints && beq r.address [],
      codes "registry endpoint is required when registry is enabled",
    )
    ∷ (
      negative r.ttl || negative r.dial_timeout || negative r.deregister_critical_after,
      codes "registry timeout values cannot be negative",
    )
    ∷ (
      over (pos 86_400) r.ttl
          || over (pos 300) r.dial_timeout
          || over (pos 2_592_000) r.deregister_critical_after,
      codes "registry timeout values exceed safe bounds",
    )
    ∷ (
      ltb 256 (len r.prefix) || has_control r.prefix || has_dots r.prefix,
      codes "registry.prefix is invalid",
    )
    ∷ (
      ltb 256 (len r.config_key) || has_control r.config_key || has_dots r.config_key,
      codes "registry.configKey is invalid",
    )
    ∷ (
      not (beq r.config_node [])
          && (ltb 128 (len r.config_node)
              || contains b'/' r.config_node
              || has_control r.config_node),
      codes "registry.configNode is invalid",
    )
    ∷ []

abbrev pub ws_url_bad : Option Url → Bool
ws_url_bad none = true
ws_url_bad (some u) =
    (not (beq u.scheme (codes "http")) && not (beq u.scheme (codes "https")))
    || beq u.host []
    || u.has_user
    || not (beq u.raw_query [])
    || not (beq u.fragment [])

abbrev pub not_https : Option Url → Bool
not_https none = true
not_https (some u) = not (beq u.scheme (codes "https"))

abbrev pub host_or : Text → Option Text → Text
host_or addr none = addr
host_or addr (some h) = h

unfoldable pub limit_checks : ServerConfig → GrpcConfig → List Check
limit_checks s g =
    (
      outside (pos 268_435_456) s.max_body_bytes,
      codes "server.maxBodyBytes must be between 0 and 268435456",
    )
    ∷ (
      outside (pos 16_777_216) s.max_header_bytes,
      codes "server.maxHeaderBytes must be between 0 and 16777216",
    )
    ∷ (
      negative s.read_header_timeout
          || negative s.read_timeout
          || negative s.write_timeout
          || negative s.idle_timeout
          || negative s.shutdown_timeout,
      codes "server timeout values cannot be negative",
    )
    ∷ (
      outside (pos 67_108_864) g.max_recv_msg_size || outside (pos 67_108_864) g.max_send_msg_size,
      codes "grpc message sizes must be between 0 and 67108864",
    )
    ∷ (
      outside (pos 300) g.request_timeout,
      codes "grpc.requestTimeout must be between 0 and 300 seconds",
    )
    ∷ (
      outside (pos 1_000_000) g.max_concurrent,
      codes "grpc.maxConcurrent must be between 0 and 1000000",
    )
    ∷ []

unfoldable pub pprof_tls_checks : PprofConfig → List Check
pprof_tls_checks p =
    (
      p.tls.enable && not p.enabled,
      codes "diagnostics.pprof.tls requires diagnostics.pprof.enabled",
    )
    ∷ (p.tls.enable && blank p.addr, codes "diagnostics.pprof.tls requires a dedicated addr")
    ∷ (
      p.tls.enable && (beq p.tls.cert_file [] || beq p.tls.key_file []),
      codes "diagnostics.pprof.tls certFile and keyFile are required",
    )
    ∷ (
      p.tls.enable && p.tls.require_client_cert && beq p.tls.ca_file [],
      codes "diagnostics.pprof.tls caFile is required when requireClientCert is enabled",
    )
    ∷ []

abbrev pub pool_checks : List (Text × DatabaseConfig) → List Check
pool_checks [] = []
pool_checks ((name, d) ∷ ds) =
    (
      negative d.max_idle
          || negative d.max_open
          || negative d.max_lifetime
          || negative d.max_idle_time
          || negative d.slow_threshold,
      database_name name (codes " pool values cannot be negative"),
    )
    ∷ (
      over (pos 10_000) d.max_open
          || over (pos 10_000) d.max_idle
          || over (pos 604_800) d.max_lifetime
          || over (pos 604_800) d.max_idle_time
          || over (pos 86_400_000) d.slow_threshold,
      database_name name (codes " pool values exceed safe bounds"),
    )
    ∷ pool_checks ds

module _ (f : Float64) (l : Library f) where
  abbrev pub all_cidrs : Text → Bool
  all_cidrs s = all (λ c. l.is_cidr (trim_space c)) (l.split s)

  unfoldable pub notify_checks : NotifyConfig → List Check
  notify_checks n =
      (
        not (blank n.ws_url) && ws_url_bad (l.parse_url (trim_space n.ws_url)),
        codes "notify.wsUrl is invalid",
      )
      ∷ (outside (pos 300) n.timeout, codes "notify.timeout must be between 0 and 300 seconds")
      ∷ (
        outside (pos 16_777_216) n.max_payload_bytes,
        codes "notify.maxPayloadBytes must be between 0 and 16777216",
      )
      ∷ []

  abbrev pub ratio_bad : f.F → Bool
  ratio_bad r = l.is_special r || f.ltb r f.zero || f.ltb f.one r

  abbrev pub is_exposed : Text → Bool
  is_exposed addr =
      let host = host_or (trim_space addr) (l.split_host (trim_space addr)) in
      beq host [] || (not (l.equal_fold host (codes "localhost")) && not (l.is_loopback host))

  -- pprof in release mode.
  unfoldable pub pprof_checks : Bool → PprofConfig → List Check
  pprof_checks release p =
      (
        p.enabled && release && beq p.auth_token [] && blank p.allowed_cidrs && is_exposed p.addr,
        codes "diagnostics.pprof requires authToken or allowedCidrs when exposed beyond loopback",
      )
      ∷ (
        p.enabled && release && not (blank p.allowed_cidrs) && not (all_cidrs p.allowed_cidrs),
        codes "diagnostics.pprof.allowedCidrs contains invalid CIDR",
      )
      ∷ []

  unfoldable pub tls_checks : Config f → List Check
  tls_checks c =
      let r = c.registry in
      (
        c.grpc.tls.enable && (beq c.grpc.tls.cert_file [] || beq c.grpc.tls.key_file []),
        codes "grpc.tls certFile and keyFile are required when enabled",
      )
      ∷ (
        c.grpc.tls.enable && c.grpc.tls.require_client_cert && beq c.grpc.tls.ca_file [],
        codes "grpc.tls caFile is required when requireClientCert is enabled",
      )
      ∷ (
        c.require_tls && not (beq c.redis_addr []) && not c.redis_tls,
        codes "security.requireTLS requires redis.tls.enable",
      )
      ∷ (
        c.require_tls
            && (not (is_nil r.endpoints) || not (blank r.address))
            && (r.enable || not (blank r.config_key))
            && not r.tls_enable,
        codes "security.requireTLS requires registry.tls.enable",
      )
      ∷ (
        c.require_tls && c.grpc.enable && not c.grpc.tls.enable,
        codes "security.requireTLS requires grpc.tls.enable",
      )
      ∷ (
        c.require_tls && c.pprof.enabled && not c.pprof.tls.enable,
        codes "security.requireTLS requires diagnostics.pprof.tls.enable",
      )
      ∷ (
        c.require_tls
            && not (blank c.notify.ws_url)
            && not_https (l.parse_url (trim_space c.notify.ws_url)),
        codes "security.requireTLS requires notify.wsUrl to use https",
      )
      ∷ []

  -- validateTLSRequirements
  unfoldable pub validate_tls_requirements : Config f → Result Text (Unit {0})
  unfolding first_error tls_checks
  validate_tls_requirements c = first_error (tls_checks c)

  -- The checks of release mode.
  unfoldable pub release_checks : Bool → Config f → List Check
  release_checks release c =
      let j = c.jwt in
      (
        release && c.cors_enable && l.equal_fold (trim_space c.cors_mode) (codes "allow-all"),
        codes "cors allow-all is not permitted in release mode; use whitelist",
      )
      ∷ (
        release && blank j.trusted_header_cidrs && not (beq j.header_uid []) && j.trust_header_uid,
        codes
            "jwt.trustedHeaderCidrs is required when header identity trust is enabled in release mode",
      )
      ∷ (
        release
            && j.trust_header_uid
            && not (beq j.trusted_header_cidrs [])
            && not (all_cidrs j.trusted_header_cidrs),
        codes "jwt.trustedHeaderCidrs contains invalid CIDR",
      )
      ∷ (
        release && not (beq j.secret []) && ltb (len j.secret) 32,
        codes "jwt.secret must be at least 32 bytes in release mode",
      )
      ∷ (
        release && not (beq j.secret []) && (beq j.issuer [] || is_nil j.audience),
        codes "jwt issuer and audience are required in release mode",
      )
      ∷ []

  abbrev pub one : Bool → Text → List Check
  one bad message = (bad, message) ∷ []

  -- The checks of Validate in their order.
  abbrev pub groups : Config f → List (List Check)
  groups c =
      let release = is_release c.server.mode in
      server_checks c.server
      ∷ dsn_checks c.database
      ∷ one (c.grpc.enable && blank c.grpc.addr)
          (codes "grpc.addr is required when grpc is enabled")
      ∷ registry_checks c.registry
      ∷ notify_checks c.notify
      ∷ one (ratio_bad c.sample_ratio) (codes "telemetry.sampleRatio must be between 0 and 1")
      ∷ pprof_checks release c.pprof
      ∷ pprof_tls_checks c.pprof
      ∷ limit_checks c.server c.grpc
      ∷ tls_checks c
      ∷ one
          (negative c.access_total
            || negative c.access_duration
            || over (pos 10_000_000) c.access_total
            || over (pos 86_400) c.access_duration)
          (codes "accessLimit values exceed safe bounds")
      ∷ pool_checks c.database
      ∷ release_checks release c
      ∷ []

  -- Validate
  unfoldable pub validate : Config f → Result Text (Unit {0})
  unfolding first_error flatten
  validate c = first_error (flatten (groups c))
