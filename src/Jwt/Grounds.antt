-- ===== src/Jwt/Grounds.antt =====
-- contrib/mid/jwt/jwt.go: what authenticates a request, by its identity headers or by a token.
use dilu_go_kit.Base.{
  ◌≡◌, ◌≢◌, refl, sym, ap, ◌∙◌, ◌⊎◌, inl, inr, List, [], ◌∷◌, ◌++◌, some, Bool, true, false, ◌&&◌,
  if◌then◌else◌, arith, Bool-cases,
}
use dilu_go_kit.Base.Int.{ℤ, pos, ◌≤ℤ◌}
use dilu_go_kit.Base.Text.{Text, beq, beq_iff, codes}
use dilu_go_kit.Jwt.{JwtConfig, Claim, accepted, Library, Request}
use dilu_go_kit.Jwt.Claims.{fields, first_field, positive, claim_int64}
use dilu_go_kit.Jwt.Handler.{is_trusted, authorization, token_of}
use dilu_go_kit.Jwt.Access.{Bearer}
use dilu_go_kit.Jwt.Sources.{
  AreNetworks, ComesFrom, networks_valid, valid_networks, allowed-ComesFrom, ComesFrom-allowed,
}

-- What the text is that is read for the credentials.
source_cases :
    (auth query : Text) (allow socket : Bool)
    → let out = if beq auth [] && allow && socket then query else auth in
      ((auth ≢ []) × (out ≡ auth))
      ⊎ ((auth ≡ []) × (allow ≡ true) × (socket ≡ true) × (out ≡ query))
      ⊎ ((auth ≡ []) × (out ≡ []))
unfolding beq
source_cases (c ∷ s) query allow socket = inl (cc, refl)
source_cases [] query true true = inr (inl (refl, refl, refl, refl))
source_cases [] query true false = inr (inr (refl, refl))
source_cases [] query false socket = inr (inr (refl, refl))

no_fields : {a : Text} {s : List Text} → fields [] ≢ a ∷ s
unfolding fields first_field
no_fields e = cc

module _ {Net Ip : Type 0} (lib : Library Net Ip) (cfg : JwtConfig) where
  -- The identity headers are configured and trusted, all that stands for a network is one, the
  -- request comes from one of them if there are any, and what ParseInt reads from the header is above
  -- 0.
  abbrev pub ByHeaders : Request → ℤ → Type 0
  ByHeaders r uid =
      (cfg.header_uid ≢ [])
      × (cfg.trust_header_uid ≡ true)
      × AreNetworks lib cfg.trusted_header_cidrs
      × ComesFrom lib r cfg.trusted_header_cidrs
      × (r.header cfg.header_uid ≢ [])
      × ((lib.parse_int (r.header cfg.header_uid)).0 ≡ uid)
      × (pos 1 ≤ℤ uid)

  -- The parts of the header Authorization, or where it is missing and the query is allowed for a
  -- websocket, of what the query says.
  abbrev pub Credentials : Request → List Text → Type 0
  Credentials r parts =
      ((r.header (codes "Authorization") ≢ [])
        × (fields (r.header (codes "Authorization")) ≡ parts))
      ⊎ ((r.header (codes "Authorization") ≡ [])
          × (cfg.allow_query_token ≡ true)
          × (lib.equal_fold (r.header (codes "Upgrade")) (codes "websocket") ≡ true)
          × (fields (codes "Bearer " ++ r.query_token) ≡ parts))

  -- A bearer token that jwt.Parse accepts for the key, the issuer, the subject and the audience of
  -- the configuration, with a key that is not empty and a user above 0.
  abbrev pub ByToken : Request → ℤ → Type 0
  ByToken r uid =
      (scheme : Text) × (token : Text) × (claims : List (Text × Claim)) × Credentials r
        (scheme ∷ token ∷ [])
      × (lib.equal_fold scheme (codes "Bearer") ≡ true)
      × (cfg.secret ≢ [])
      × (lib.parse_token
            (record {
              secret = cfg.secret;
              issuer = cfg.issuer;
              subject = cfg.subject;
              audience = cfg.audience;
            })
            token
          ≡ accepted claims)
      × (claim_int64 lib claims (codes "uid" ∷ []) ≡ uid)
      × (pos 1 ≤ℤ uid)

  at_least_one : (n : ℤ) → positive n ≡ true → pos 1 ≤ℤ n
  at_least_one n h = ground (arith, h)

  pub above_zero : (n : ℤ) → pos 1 ≤ℤ n → positive n ≡ true
  above_zero n h = ground (arith, h)

  pub trusted-ByHeaders :
      (r : Request)
      → is_trusted lib cfg r ≡ true
      → ByHeaders r (lib.parse_int (r.header cfg.header_uid)).0
  unfolding is_trusted
  trusted-ByHeaders r h =
      let valid = networks_valid lib cfg.trusted_header_cidrs (ground (arith, h)) in
      (
        ground (arith, h, beq_iff cfg.header_uid []),
        ground (arith, h),
        valid,
        allowed-ComesFrom lib r cfg.trusted_header_cidrs valid (ground (arith, h)),
        ground (arith, h, beq_iff (r.header cfg.header_uid) []),
        refl,
        at_least_one _ (ground (arith, h)),
      )

  pub ByHeaders-trusted : (r : Request) (uid : ℤ) → ByHeaders r uid → is_trusted lib cfg r ≡ true
  unfolding is_trusted
  ByHeaders-trusted r uid (configured, trusted, valid, source, filled, read, good) = ground (
    arith,
    configured,
    trusted,
    valid_networks lib cfg.trusted_header_cidrs valid,
    ComesFrom-allowed lib r cfg.trusted_header_cidrs valid source,
    filled,
    beq_iff cfg.header_uid [],
    beq_iff (r.header cfg.header_uid) [],
    above_zero uid good,
    read,
  )

  bearer_parts :
      (parts : List Text) (token : Text)
      → token_of lib parts ≡ some token
      → (scheme : Text) × (parts ≡ scheme ∷ token ∷ [])
        × (lib.equal_fold scheme (codes "Bearer") ≡ true)
  bearer_parts [] token h = cc
  bearer_parts (a ∷ []) token h = cc
  bearer_parts (a ∷ b ∷ []) token h = elim (Bool-cases (lib.equal_fold a (codes "Bearer"))) [
    | inl e ↦ let same = rw e at h in (a, ap (λ t. a ∷ t ∷ []) (ground (arith, same)), e)
    | inr e ↦ let wrong = rw e at h in cc
  ]
  bearer_parts (a ∷ b ∷ c ∷ cs) token h = cc

  authorization-Credentials :
      (r : Request) (scheme token : Text)
      → fields (authorization lib cfg r) ≡ scheme ∷ token ∷ []
      → Credentials r (scheme ∷ token ∷ [])
  unfolding authorization
  authorization-Credentials r scheme token h =
      elim (source_cases (r.header (codes "Authorization")) (codes "Bearer " ++ r.query_token)
        cfg.allow_query_token (lib.equal_fold (r.header (codes "Upgrade")) (codes "websocket"))) [
          | inl (there, same) ↦ inl (there, ap fields (sym same) ∙ h)
          | inr (inl (missing, allowed, socket, same)) ↦
              inr (missing, allowed, socket, ap fields (sym same) ∙ h)
          | inr (inr (missing, same)) ↦ absurd (no_fields (ap fields (sym same) ∙ h))
        ]

  pub Credentials-authorization :
      (r : Request) (parts : List Text)
      → Credentials r parts
      → fields (authorization lib cfg r) ≡ parts
  unfolding authorization
  Credentials-authorization r parts (inl (there, h)) =
      elim (source_cases (r.header (codes "Authorization")) (codes "Bearer " ++ r.query_token)
        cfg.allow_query_token (lib.equal_fold (r.header (codes "Upgrade")) (codes "websocket"))) [
          | inl (found, same) ↦ ap fields same ∙ h
          | inr (inl (missing, allowed, socket, same)) ↦ absurd (there missing)
          | inr (inr (missing, same)) ↦ absurd (there missing)
        ]
  Credentials-authorization r parts (inr (missing, allowed, socket, h)) =
      rw (missing, allowed, socket) (unfold beq in h)

  -- The token of a request that passes by one.
  pub Bearer-ByToken :
      (r : Request) (claims : List (Text × Claim))
      → Bearer lib cfg r claims
      → positive (claim_int64 lib claims (codes "uid" ∷ [])) ≡ true
      → ByToken r (claim_int64 lib claims (codes "uid" ∷ []))
  Bearer-ByToken r claims (token, named, keyed, read) good =
      let (scheme, parts, bearer) = bearer_parts (fields (authorization lib cfg r)) token named in
      (
        scheme,
        token,
        claims,
        authorization-Credentials r scheme token parts,
        bearer,
        λ e. ground (arith, keyed, e, beq_iff cfg.secret []),
        read,
        refl,
        at_least_one _ good,
      )
