-- ===== src/Boot/Config/Accepted.antt =====
-- What a configuration that Validate accepts guarantees.
use dilu_go_kit.Base.{◌≤◌, List, [], ◌∷◌, ◌++◌, true, false, ◌&&◌, ◌⊎◌, All, arith, ◌≡◌}
use dilu_go_kit.Base.Int.{pos, ◌≤ℤ◌}
use dilu_go_kit.Base.Float.{Float64}
use dilu_go_kit.Base.Result.{ok}
use dilu_go_kit.Base.Text.{beq, len, trim_space, contains}
use dilu_go_kit.Boot.Config.{Config, Library}
use dilu_go_kit.Boot.Config.Checks.{
  Check, first_error, blank, is_release, is_nil, server_checks, pprof_tls_checks, limit_checks,
  tls_checks, release_checks, groups, flatten, validate, not_https,
}

abbrev Passes : List Check → Type 0
Passes = All (λ k. k.0 ≡ false)

first_error-Passes : (cs : List Check) → first_error cs ≡ ok tt → Passes cs
unfolding first_error
first_error-Passes [] h = tt
first_error-Passes ((bad, message) ∷ cs) h =
    (ground (arith, h), first_error-Passes cs (ground (arith, h)))

front : (xs ys : List Check) → Passes (xs ++ ys) → Passes xs
front [] ys h = tt
front (x ∷ xs) ys h = (h.0, front xs ys h.1)

back : (xs ys : List Check) → Passes (xs ++ ys) → Passes ys
back [] ys h = h
back (x ∷ xs) ys h = back xs ys h.1

each-Passes : (gs : List (List Check)) → Passes (flatten gs) → All Passes gs
unfolding flatten
each-Passes [] h = tt
each-Passes (g ∷ gs) h = (front g (flatten gs) h, each-Passes gs (back g (flatten gs) h))

module _ (f : Float64) (l : Library f) (c : Config f) where
  -- The groups of checks that an accepted configuration passes.
  record Groups : Type 0 where
    server : Passes (server_checks c.server)
    pprof_tls : Passes (pprof_tls_checks c.pprof)
    limits : Passes (limit_checks c.server c.grpc)
    tls : Passes (tls_checks f l c)
    release : Passes (release_checks f l (is_release c.server.mode) c)

  accepted : validate f l c ≡ ok tt → Groups
  unfolding validate
  accepted h =
      let g = each-Passes (groups f l c) (first_error-Passes (flatten (groups f l c)) h) in
      record {
        server = g.0;
        pprof_tls = g.1.1.1.1.1.1.1.0;
        limits = g.1.1.1.1.1.1.1.1.0;
        tls = g.1.1.1.1.1.1.1.1.1.0;
        release = g.1.1.1.1.1.1.1.1.1.1.1.1.0;
      }

  -- An accepted configuration that requires TLS has it on these transports: on Redis if
  -- an address is set; on the registry if it has an endpoint or an address that is not blank, and is
  -- enabled or has a configKey that is not blank, for remote configuration; on gRPC and on the pprof server if they are enabled, each then with a certificate and a
  -- key; and the notify URL is an https one if it is not blank.
  pub tls_required :
      validate f l c ≡ ok tt
      → c.require_tls ≡ true
      → (beq c.redis_addr [] ≡ false → c.redis_tls ≡ true)
        × ((c.registry.enable ≡ true) ⊎ (blank c.registry.config_key ≡ false)
            → (is_nil c.registry.endpoints && blank c.registry.address) ≡ false
            → c.registry.tls_enable ≡ true)
        × (c.grpc.enable ≡ true
            → (c.grpc.tls.enable ≡ true)
              × (beq c.grpc.tls.cert_file [] ≡ false)
              × (beq c.grpc.tls.key_file [] ≡ false))
        × (c.pprof.enabled ≡ true
            → (c.pprof.tls.enable ≡ true)
              × (beq c.pprof.tls.cert_file [] ≡ false)
              × (beq c.pprof.tls.key_file [] ≡ false)
              × (blank c.pprof.addr ≡ false))
        × (blank c.notify.ws_url ≡ false
            → not_https (l.parse_url (trim_space c.notify.ws_url)) ≡ false)
  unfolding tls_checks pprof_tls_checks
  tls_required h on =
      let g = accepted h in
      let t = g.tls in
      let p = g.pprof_tls in
      (
        λ a. ground (arith, t.1.1.0, on, a),
        λ a b. ground (arith, t.1.1.1.0, on, a, b),
        λ a. ground (arith, t.0, t.1.1.1.1.0, on, a),
        λ a. ground (arith, t.1.1.1.1.1.0, p.1.0, p.1.1.0, on, a),
        λ a. ground (arith, t.1.1.1.1.1.1.0, on, a),
      )

  -- An accepted configuration has a service name that is not blank, of at most 128 bytes and
  -- without `/`, an address that is not blank, body and header sizes and a gRPC concurrency between
  -- 0 and their bounds, and gRPC message sizes of at most 64 MiB; in release mode a JWT secret, if
  -- there is one, has at least 32 bytes and comes with an issuer and an audience.
  pub accepted_bounds :
      validate f l c ≡ ok tt
      → (blank c.server.name ≡ false)
        × (len c.server.name ≤ 128)
        × (contains b'/' c.server.name ≡ false)
        × (blank c.server.addr ≡ false)
        × (pos 0 ≤ℤ c.server.max_body_bytes)
        × (c.server.max_body_bytes ≤ℤ pos 268_435_456)
        × (pos 0 ≤ℤ c.server.max_header_bytes)
        × (c.server.max_header_bytes ≤ℤ pos 16_777_216)
        × (c.grpc.max_recv_msg_size ≤ℤ pos 67_108_864)
        × (c.grpc.max_send_msg_size ≤ℤ pos 67_108_864)
        × (pos 0 ≤ℤ c.grpc.max_concurrent)
        × (c.grpc.max_concurrent ≤ℤ pos 1_000_000)
        × (is_release c.server.mode ≡ true
            → beq c.jwt.secret [] ≡ false
            → (32 ≤ len c.jwt.secret)
              × (beq c.jwt.issuer [] ≡ false)
              × (is_nil c.jwt.audience ≡ false))
  unfolding server_checks limit_checks release_checks
  accepted_bounds h =
      let g = accepted h in
      let s = g.server in
      let b = g.limits in
      let r = g.release in
      (
        ground (arith, s.1.0),
        ground (arith, s.1.1.0),
        ground (arith, s.1.1.0),
        ground (arith, s.1.1.1.1.0),
        ground (arith, b.0),
        ground (arith, b.0),
        ground (arith, b.1.0),
        ground (arith, b.1.0),
        ground (arith, b.1.1.1.0),
        ground (arith, b.1.1.1.0),
        ground (arith, b.1.1.1.1.1.0),
        ground (arith, b.1.1.1.1.1.0),
        λ rel sec. ground (arith, r.1.1.1.0, r.1.1.1.1.0, rel, sec),
      )
