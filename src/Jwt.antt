-- ===== src/Jwt.antt =====
-- contrib/mid/jwt/jwt.go: the middleware JWT. Of Go's library strconv.ParseInt, EqualFold and the
-- functions of net are parameters, and so is jwt.Parse. A number of a token is a json.Number, since
-- the parser is told so; the cases for float64, int64, int, []int64 and []string do not occur.
pub mod Claims
pub mod Handler
pub mod Access
pub mod Sources
pub mod Grounds
pub mod Authentication
pub mod Identity
pub mod Numerals
pub mod Forwarded
use dilu_go_kit.Base.{
  ℕ, List, [], ◌∷◌, ◌++◌, Option, none, some, Bool, true, false, ◌&&◌, ◌||◌, not, if◌then◌else◌,
  select, map, ◌==◌,
}
use dilu_go_kit.Base.Int.{ℤ, pos, ltb_ℤ}
use dilu_go_kit.Base.Text.{Text, beq, codes, trim_space, is_space}
use dilu_go_kit.Base.Dict.{lookup}
use dilu_go_kit.Resp.Codes.{unauthorized, token_invalid}
use dilu_go_kit.Metadata.{Values, Context, from, with_values}

pub record JwtConfig : Type 0 where
  pub secret : Text
  pub issuer : Text
  pub subject : Text
  pub audience : List Text
  pub trusted_header_cidrs : List Text
  pub allow_query_token : Bool
  pub header_uid : Text
  pub header_tenant_id : Text
  pub header_workspace_id : Text
  pub header_shop_ids : Text
  pub header_scopes : Text
  pub trust_header_uid : Bool

-- A value of jwt.MapClaims; `items` is a []any.
pub data Item : Type 0 where
  number text : Text → Item
  other : Item

pub data Claim : Type 0 where
  one : Item → Claim
  items : List Item → Claim

-- What a token has to meet, beside HS256 and an expiry: the key, and where they are set the issuer,
-- the subject and the audience.
pub record ParserOptions : Type 0 where
  pub secret : Text
  pub issuer : Text
  pub subject : Text
  pub audience : List Text

-- jwt.Parse: an error or a token that is not valid, a token of other claims, or the claims.
pub data Parsed : Type 0 where
  refused : Parsed
  other_claims : Parsed
  accepted : List (Text × Claim) → Parsed

-- `parse_int` is strconv.ParseInt(s, 10, 64): its number, and whether there is no error.
pub record Library (Net Ip : Type 0) : Type 0 where
  pub parse_int : Text → ℤ × Bool
  pub equal_fold : Text → Text → Bool
  pub parse_cidr : Text → Option Net
  pub split_host : Text → Option Text
  pub parse_ip : Text → Option Ip
  pub in_net : Net → Ip → Bool
  pub parse_token : ParserOptions → Text → Parsed

pub record Request : Type 0 where
  pub header : Text → Text
  pub query_token : Text
  pub remote_addr : Text
  pub context : Context

-- The keys that the middleware sets in the gin context.
pub record Gin : Type 0 where
  pub uid : Option ℤ
  pub role_id : Option ℤ
  pub nickname : Option Text
  pub phone : Option Text
  pub tenant_id : Option ℤ
  pub workspace_id : Option ℤ
  pub shop_ids : Option (List ℤ)
  pub scopes : Option (List Text)

abbrev pub empty_gin : Gin
empty_gin = record {
  uid = none;
  role_id = none;
  nickname = none;
  phone = none;
  tenant_id = none;
  workspace_id = none;
  shop_ids = none;
  scopes = none;
}

-- The request is refused with a business code, or goes on with this context.
pub data Outcome : Type 0 where
  abort : ℤ → Outcome
  next : Gin → Context → Outcome
