-- ===== src/Boot/Config.antt =====
-- boot/config.go: the fields of the configuration that Validate and boot/remote.go read, and the functions of Go's library
-- that it calls, as a parameter.
pub mod Checks
pub mod Accepted
pub mod Environment
use dilu_go_kit.Base.{List, Option, Bool}
use dilu_go_kit.Base.Int.{ℤ}
use dilu_go_kit.Base.Float.{Float64}
use dilu_go_kit.Base.Text.{Text}

-- TLSConfig
pub record Tls : Type 0 where
  pub enable : Bool
  pub ca_file : Text
  pub cert_file : Text
  pub key_file : Text
  pub require_client_cert : Bool

pub record ServerConfig : Type 0 where
  pub mode : Text
  pub name : Text
  pub version : Text
  pub addr : Text
  pub max_body_bytes : ℤ
  pub max_header_bytes : ℤ
  pub read_header_timeout : ℤ
  pub read_timeout : ℤ
  pub write_timeout : ℤ
  pub idle_timeout : ℤ
  pub shutdown_timeout : ℤ

pub record DatabaseConfig : Type 0 where
  pub dsn : Text
  pub max_idle : ℤ
  pub max_open : ℤ
  pub max_lifetime : ℤ
  pub max_idle_time : ℤ
  pub slow_threshold : ℤ

pub record GrpcConfig : Type 0 where
  pub enable : Bool
  pub addr : Text
  pub max_recv_msg_size : ℤ
  pub max_send_msg_size : ℤ
  pub request_timeout : ℤ
  pub max_concurrent : ℤ
  pub tls : Tls

pub record RegistryConfig : Type 0 where
  pub enable : Bool
  pub endpoints : List Text
  pub address : Text
  pub ttl : ℤ
  pub dial_timeout : ℤ
  pub deregister_critical_after : ℤ
  pub prefix : Text
  pub config_key : Text
  pub config_node : Text
  pub config_format : Text
  pub tls_enable : Bool

pub record NotifyConfig : Type 0 where
  pub ws_url : Text
  pub timeout : ℤ
  pub max_payload_bytes : ℤ

-- diagnostics.Config
pub record PprofConfig : Type 0 where
  pub enabled : Bool
  pub addr : Text
  pub auth_token : Text
  pub allowed_cidrs : Text
  pub tls : Tls

pub record JwtConfig : Type 0 where
  pub secret : Text
  pub issuer : Text
  pub audience : List Text
  pub header_uid : Text
  pub trust_header_uid : Bool
  pub trusted_header_cidrs : Text

-- Of Redis, CORS, the access limit, the telemetry and the security policy one or two fields are read.
pub record Config (f : Float64) : Type 0 where
  pub server : ServerConfig
  pub require_tls : Bool
  pub database : List (Text × DatabaseConfig)
  pub redis_addr : Text
  pub redis_tls : Bool
  pub grpc : GrpcConfig
  pub registry : RegistryConfig
  pub jwt : JwtConfig
  pub cors_enable : Bool
  pub cors_mode : Text
  pub access_total : ℤ
  pub access_duration : ℤ
  pub notify : NotifyConfig
  pub sample_ratio : f.F
  pub pprof : PprofConfig

-- A url.URL, as far as it is read.
pub record Url : Type 0 where
  pub scheme : Text
  pub host : Text
  pub has_user : Bool
  pub raw_query : Text
  pub fragment : Text

-- The functions of Go's library that Validate calls. `is_loopback` is whether net.ParseIP finds an
-- address that is a loopback one; `split_host` is the host of net.SplitHostPort; `split` is
-- strings.Split at the commas; `is_special` is a NaN or an infinity.
pub record Library (f : Float64) : Type 0 where
  pub parse_url : Text → Option Url
  pub is_cidr : Text → Bool
  pub split_host : Text → Option Text
  pub is_loopback : Text → Bool
  pub equal_fold : Text → Text → Bool
  pub split : Text → List Text
  pub is_special : f.F → Bool
