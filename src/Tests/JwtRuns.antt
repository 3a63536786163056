-- ===== src/Tests/JwtRuns.antt =====
-- A request with a token, and one that a gateway vouches for.
use dilu_go_kit.Base.{ℕ, ◌≡◌, refl, List, [], ◌∷◌, none, some, true, false, if◌then◌else◌}
use dilu_go_kit.Base.Int.{pos}
use dilu_go_kit.Base.Text.{Text, beq, codes, trim_space, is_space, len}
use dilu_go_kit.Base.Text.Commas.{split}
use dilu_go_kit.Base.Dict.{lookup}
use dilu_go_kit.Metadata.{Context, with_values, normalize, from}
use dilu_go_kit.Jwt.{
  JwtConfig, number, text, other, Claim, one, items, refused, accepted, Library, Request, Gin,
  empty_gin, abort, next,
}
use dilu_go_kit.Jwt.Claims.{
  claim_int64, claim_int64_slice, claim_string_slice, slice_value, texts_value, set_optional_claims,
  set_trusted_headers, parse_int64_csv, parse_string_csv, fields, first_field,
}
use dilu_go_kit.Jwt.Handler.{
  is_trusted, trusted_header_source_allowed, parse_trusted_cidrs, attach_identity, pass,
  authorization, gin_of, with_claims, with_parsed, with_token, trusted_gin, handle, get_uid,
}
use dilu_go_kit.Jwt.Authentication.{Verdict, only_authenticated}
use dilu_go_kit.Jwt.Identity.{HasIdentity, passed_identity}

abbrev claims : List (Text × Claim)
claims =
    (codes "uid", one (number (codes "7")))
    ∷ (codes "tid", one (text (codes "7")))
    ∷ (codes "sids", items (number (codes "7") ∷ other ∷ []))
    ∷ []

-- The one number is 7, and the one token "t".
abbrev library : Library ℕ ℕ
library = record {
  parse_int = λ s. if beq s (codes "7") then (pos 7, true) else (pos 0, false);
  equal_fold = beq;
  parse_cidr = λ s. none;
  split_host = λ s. none;
  parse_ip = λ s. none;
  in_net = λ n i. false;
  parse_token = λ o t. if beq t (codes "t") then accepted claims else refused;
}

abbrev config : JwtConfig
config = record {
  secret = codes "key";
  issuer = [];
  subject = [];
  audience = [];
  trusted_header_cidrs = [];
  allow_query_token = false;
  header_uid = [];
  header_tenant_id = [];
  header_workspace_id = [];
  header_shop_ids = [];
  header_scopes = [];
  trust_header_uid = false;
}

abbrev request : Request
request = record {
  header = λ k. if beq k (codes "Authorization") then codes "Bearer t" else [];
  query_token = [];
  remote_addr = [];
  context = none;
}

abbrev gin : Gin
gin = record empty_gin {
  uid = some (pos 7);
  tenant_id = some (pos 7);
  shop_ids = some (pos 7 ∷ []);
}

abbrev context : Context
context = some (record {
  trace_id = [];
  user_id = pos 7;
  tenant_id = pos 7;
  workspace_id = pos 0;
  shop_ids = pos 7 ∷ [];
  scopes = [];
})

passes : handle library config request ≡ next gin context
unfolding handle is_trusted trusted_header_source_allowed parse_trusted_cidrs with_token with_parsed
    with_claims gin_of pass attach_identity with_values normalize authorization fields first_field
    claim_int64 claim_int64_slice claim_string_slice slice_value texts_value set_optional_claims
    lookup beq trim_space is_space len
passes = refl

without_token : handle library config (record request { header = λ k. [] }) ≡ abort (pos 40101)
unfolding handle is_trusted trusted_header_source_allowed parse_trusted_cidrs with_token
    authorization fields first_field beq
without_token = refl

only_authenticated_example : Verdict library config request (handle library config request)
only_authenticated_example = only_authenticated library config request

-- The same configuration behind a gateway.
abbrev trusting : JwtConfig
trusting = record config {
  header_uid = codes "X-User-Id";
  header_shop_ids = codes "X-Shop-Ids";
  trust_header_uid = true;
}

abbrev forwarded : Request
forwarded = record request {
  header = λ k.
      if beq k (codes "X-User-Id")
      then codes "7"
      else if beq k (codes "X-Shop-Ids")
      then codes "7, x,7"
      else [];
}

abbrev forwarded_gin : Gin
forwarded_gin = record empty_gin { uid = some (pos 7); shop_ids = some (pos 7 ∷ pos 7 ∷ []) }

abbrev forwarded_context : Context
forwarded_context = some (record {
  trace_id = [];
  user_id = pos 7;
  tenant_id = pos 0;
  workspace_id = pos 0;
  shop_ids = pos 7 ∷ pos 7 ∷ [];
  scopes = [];
})

forwarded_passes : handle library trusting forwarded ≡ next forwarded_gin forwarded_context
unfolding handle is_trusted trusted_header_source_allowed parse_trusted_cidrs trusted_gin
    set_trusted_headers pass attach_identity with_values normalize parse_int64_csv parse_string_csv
    split beq trim_space is_space len
forwarded_passes = refl

passed_identity_example :
    HasIdentity forwarded_gin × ((from forwarded_context).user_id ≡ get_uid forwarded_gin)
passed_identity_example =
    passed_identity library trusting forwarded forwarded_gin forwarded_context forwarded_passes
