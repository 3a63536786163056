-- ===== src/Tests/ConfigRuns.antt =====
-- A release configuration that requires TLS and is accepted.
use dilu_go_kit.Base.{◌≡◌, refl, [], ◌∷◌, none, true, false, ◌&&◌, ◌⊎◌}
use dilu_go_kit.Base.Int.{pos}
use dilu_go_kit.Base.Result.{ok}
use dilu_go_kit.Base.Text.{codes, beq, len, contains, has_control, trim_space, is_space}
use dilu_go_kit.Registry.Keys.Backends.{has_dots}
use dilu_go_kit.Boot.Config.{Tls, Config, Library}
use dilu_go_kit.Boot.Config.Checks.{
  validate, first_error, flatten, server_checks, registry_checks, notify_checks, pprof_checks,
  pprof_tls_checks, limit_checks, tls_checks, release_checks, blank, is_nil, not_https,
}
use dilu_go_kit.Boot.Config.Accepted.{tls_required}
use dilu_go_kit.Tests.Parameters.{float}

abbrev pub library : Library float
library = record {
  parse_url = λ s. none;
  is_cidr = λ s. true;
  split_host = λ s. none;
  is_loopback = λ s. false;
  equal_fold = beq;
  split = λ s. s ∷ [];
  is_special = λ x. false;
}

abbrev with_files : Tls
with_files = record {
  enable = true;
  ca_file = [];
  cert_file = codes "cert.pem";
  key_file = codes "key.pem";
  require_client_cert = false;
}

abbrev pub config : Config float
config = record {
  server = record {
    mode = codes "release";
    name = codes "user";
    version = [];
    addr = codes ":80";
    max_body_bytes = pos 1024;
    max_header_bytes = pos 0;
    read_header_timeout = pos 0;
    read_timeout = pos 0;
    write_timeout = pos 0;
    idle_timeout = pos 0;
    shutdown_timeout = pos 10;
  };
  require_tls = true;
  database = [];
  redis_addr = codes "redis:6379";
  redis_tls = true;
  grpc = record {
    enable = true;
    addr = codes ":81";
    max_recv_msg_size = pos 0;
    max_send_msg_size = pos 0;
    request_timeout = pos 5;
    max_concurrent = pos 100;
    tls = with_files;
  };
  registry = record {
    enable = true;
    endpoints = codes "etcd:2379" ∷ [];
    address = [];
    ttl = pos 30;
    dial_timeout = pos 0;
    deregister_critical_after = pos 0;
    prefix = [];
    config_key = [];
    config_node = [];
    config_format = [];
    tls_enable = true;
  };
  jwt = record {
    secret = codes "0123456789abcdef0123456789abcdef";
    issuer = codes "kit";
    audience = codes "user" ∷ [];
    header_uid = [];
    trust_header_uid = false;
    trusted_header_cidrs = [];
  };
  cors_enable = false;
  cors_mode = [];
  access_total = pos 0;
  access_duration = pos 0;
  notify = record { ws_url = []; timeout = pos 0; max_payload_bytes = pos 0 };
  sample_ratio = 10;
  pprof = record {
    enabled = true;
    addr = codes ":82";
    auth_token = codes "token";
    allowed_cidrs = [];
    tls = with_files;
  };
}

pub valid : validate float library config ≡ ok tt
unfolding validate first_error flatten server_checks registry_checks notify_checks pprof_checks
    pprof_tls_checks limit_checks tls_checks release_checks beq len contains has_control trim_space
    is_space has_dots
valid = refl

tls_required_example :
    (beq config.redis_addr [] ≡ false → config.redis_tls ≡ true)
    × ((config.registry.enable ≡ true) ⊎ (blank config.registry.config_key ≡ false)
        → (is_nil config.registry.endpoints && blank config.registry.address) ≡ false
        → config.registry.tls_enable ≡ true)
    × (config.grpc.enable ≡ true
        → (config.grpc.tls.enable ≡ true)
          × (beq config.grpc.tls.cert_file [] ≡ false)
          × (beq config.grpc.tls.key_file [] ≡ false))
    × (config.pprof.enabled ≡ true
        → (config.pprof.tls.enable ≡ true)
          × (beq config.pprof.tls.cert_file [] ≡ false)
          × (beq config.pprof.tls.key_file [] ≡ false)
          × (blank config.pprof.addr ≡ false))
    × (blank config.notify.ws_url ≡ false
        → not_https (library.parse_url (trim_space config.notify.ws_url)) ≡ false)
tls_required_example = tls_required float library config valid refl
