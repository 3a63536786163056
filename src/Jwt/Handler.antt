-- ===== src/Jwt/Handler.antt =====
-- contrib/mid/jwt/jwt.go: whom the middleware believes, and what it passes on. int has 64 bits, and no
-- key of the gin context is set before.
use dilu_go_kit.Base.{
  List, [], ◌∷◌, ◌++◌, Option, none, some, Bool, true, false, ◌&&◌, ◌||◌, not, if◌then◌else◌,
}
use dilu_go_kit.Base.Int.{ℤ, pos}
use dilu_go_kit.Base.Text.{Text, beq, codes, trim_space}
use dilu_go_kit.Base.Dict.{lookup}
use dilu_go_kit.Resp.Codes.{unauthorized, token_invalid}
use dilu_go_kit.Metadata.{Context, from, with_values}
use dilu_go_kit.Jwt.{
  JwtConfig, text, Claim, one, ParserOptions, Parsed, refused, other_claims, accepted, Library,
  Request, Gin, empty_gin, Outcome, abort, next,
}
use dilu_go_kit.Jwt.Claims.{
  fields, positive, set_positive, int_of, claim_int64, set_optional_claims, set_trusted_headers,
}

module _ {Net Ip : Type 0} (lib : Library Net Ip) where
  -- One value of parseTrustedCIDRs.
  abbrev pub cidr_of : Text → Option Net
  cidr_of value = let v = trim_space value in if beq v [] then none else lib.parse_cidr v

  abbrev pub add_net : Option Net → List Net × Bool → List Net × Bool
  add_net none (nets, valid) = (nets, false)
  add_net (some net) (nets, valid) = (net ∷ nets, valid)

  -- parseTrustedCIDRs
  unfoldable pub parse_trusted_cidrs : List Text → List Net × Bool
  parse_trusted_cidrs [] = ([], true)
  parse_trusted_cidrs (v ∷ vs) = add_net (cidr_of v) (parse_trusted_cidrs vs)

  abbrev pub in_any : List Net → Ip → Bool
  in_any [] ip = false
  in_any (net ∷ nets) ip = lib.in_net net ip || in_any nets ip

  abbrev pub in_any_of : List Net → Option Ip → Bool
  in_any_of nets none = false
  in_any_of nets (some ip) = in_any nets ip

  abbrev pub text_or : Text → Option Text → Text
  text_or t none = t
  text_or t (some s) = s

  -- trustedHeaderSourceAllowed
  unfoldable pub trusted_header_source_allowed : Request → List Net → Bool
  trusted_header_source_allowed r [] = true
  trusted_header_source_allowed r (net ∷ nets) =
      in_any_of (net ∷ nets) (lib.parse_ip (text_or r.remote_addr (lib.split_host r.remote_addr)))

  -- Whether the identity headers are believed: the condition, and a user in the header.
  unfoldable pub is_trusted : JwtConfig → Request → Bool
  unfolding trusted_header_source_allowed parse_trusted_cidrs
  is_trusted cfg r =
      let (nets, valid) = parse_trusted_cidrs cfg.trusted_header_cidrs in
      not (beq cfg.header_uid [])
      && cfg.trust_header_uid
      && valid
      && trusted_header_source_allowed r nets
      && not (beq (r.header cfg.header_uid) [])
      && positive (int_of lib (r.header cfg.header_uid))

  abbrev pub id_or : ℤ → Option ℤ → ℤ
  id_or old none = old
  id_or old (some n) = if positive n then n else old

  abbrev pub list_or {ℓ} : {A : Type ℓ} → List A → Option (List A) → List A
  list_or old none = old
  list_or old (some l) = l

  -- attachIdentityMetadata
  unfoldable pub attach_identity : Gin → Context → Context
  unfolding with_values
  attach_identity g ctx =
      let v = from ctx in
      with_values ctx (record v {
        user_id = id_or v.user_id g.uid;
        tenant_id = id_or v.tenant_id g.tenant_id;
        workspace_id = id_or v.workspace_id g.workspace_id;
        shop_ids = list_or v.shop_ids g.shop_ids;
        scopes = list_or v.scopes g.scopes;
      })

  unfoldable pub pass : Request → Gin → Outcome
  unfolding attach_identity
  pass r g = next g (attach_identity g r.context)

  -- The Authorization header, or for a websocket the query where that is allowed.
  unfoldable pub authorization : JwtConfig → Request → Text
  authorization cfg r =
      let auth = r.header (codes "Authorization") in
      if beq auth []
        && cfg.allow_query_token
        && lib.equal_fold (r.header (codes "Upgrade")) (codes "websocket")
      then codes "Bearer " ++ r.query_token
      else auth

  -- The token of `Bearer token`.
  abbrev pub token_of : List Text → Option Text
  token_of (scheme ∷ token ∷ []) =
      if lib.equal_fold scheme (codes "Bearer") then some token else none
  token_of _ = none

  abbrev pub parser_options : JwtConfig → ParserOptions
  parser_options cfg = record {
    secret = cfg.secret;
    issuer = cfg.issuer;
    subject = cfg.subject;
    audience = cfg.audience;
  }

  abbrev pub text_claim : Option Claim → Option Text
  text_claim (some (one (text s))) = some s
  text_claim _ = none

  -- The context that the claims give, for a user.
  unfoldable pub gin_of : List (Text × Claim) → ℤ → Gin
  unfolding claim_int64 set_optional_claims lookup
  gin_of claims uid = set_optional_claims lib claims (record empty_gin {
    uid = some uid;
    role_id = set_positive (claim_int64 lib claims (codes "rid" ∷ [])) none;
    nickname = text_claim (lookup (codes "nick") claims);
    phone = text_claim (lookup (codes "mob") claims);
  })

  unfoldable pub with_claims : Request → List (Text × Claim) → Outcome
  unfolding gin_of claim_int64 pass
  with_claims r claims =
      let uid = claim_int64 lib claims (codes "uid" ∷ []) in
      if positive uid then pass r (gin_of claims uid) else abort token_invalid

  unfoldable pub with_parsed : Request → Parsed → Outcome
  unfolding with_claims
  with_parsed r refused = abort token_invalid
  with_parsed r other_claims = abort token_invalid
  with_parsed r (accepted claims) = with_claims r claims

  unfoldable pub with_token : JwtConfig → Request → Option Text → Outcome
  unfolding with_parsed
  with_token cfg r none = abort unauthorized
  with_token cfg r (some token) =
      let parsed = lib.parse_token (parser_options cfg) token in
      if beq cfg.secret [] then abort token_invalid else with_parsed r parsed

  unfoldable pub trusted_gin : JwtConfig → Request → Gin
  unfolding set_trusted_headers
  trusted_gin cfg r =
      set_trusted_headers lib cfg r
        (record empty_gin { uid = some (int_of lib (r.header cfg.header_uid)) })

  -- JWT
  unfoldable pub handle : JwtConfig → Request → Outcome
  unfolding is_trusted with_token trusted_gin authorization fields pass
  handle cfg r =
      if is_trusted cfg r
      then pass r (trusted_gin cfg r)
      else with_token cfg r (token_of (fields (authorization cfg r)))

-- GetUID, GetTenantID, GetWorkspaceID, GetRoleID: 0 where nothing is set.
abbrev pub or_zero : Option ℤ → ℤ
or_zero none = pos 0
or_zero (some n) = n

abbrev pub get_uid : Gin → ℤ
get_uid g = or_zero g.uid

abbrev pub get_tenant_id : Gin → ℤ
get_tenant_id g = or_zero g.tenant_id

abbrev pub get_workspace_id : Gin → ℤ
get_workspace_id g = or_zero g.workspace_id

abbrev pub get_role_id : Gin → ℤ
get_role_id g = or_zero g.role_id

-- GetNickname, GetPhone, GetShopIDs, GetScopes: empty where nothing is set.
abbrev pub or_empty {ℓ} : {A : Type ℓ} → Option (List A) → List A
or_empty none = []
or_empty (some l) = l

abbrev pub get_nickname : Gin → Text
get_nickname g = or_empty g.nickname

abbrev pub get_phone : Gin → Text
get_phone g = or_empty g.phone

abbrev pub get_shop_ids : Gin → List ℤ
get_shop_ids g = or_empty g.shop_ids

abbrev pub get_scopes : Gin → List Text
get_scopes g = or_empty g.scopes
