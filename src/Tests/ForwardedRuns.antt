-- ===== src/Tests/ForwardedRuns.antt =====
-- An identity that crosses from one service to the next, its numbers written in unary.
use Prim.Native.Nat.{suc, zero}
use dilu_go_kit.Base.{ℕ, ◌≡◌, refl, ap, [], ◌∷◌, Option, none, some, true, false, All, arith}
use dilu_go_kit.Base.Int.{ℤ, pos, negsuc}
use dilu_go_kit.Base.Text.{Text, beq, codes, contains, SpaceFree, is_space, len, trim_space}
use dilu_go_kit.Base.Text.Commas.{join}
use dilu_go_kit.Base.Dict.{lookup, insert}
use dilu_go_kit.Metadata.{Context, from, Header, get, inject_identity_http, join_int64, join_scopes}
use dilu_go_kit.Metadata.Identity.{identity_keys}
use dilu_go_kit.Jwt.{JwtConfig, refused, Library, Request, next}
use dilu_go_kit.Jwt.Handler.{
  is_trusted, trusted_header_source_allowed, parse_trusted_cidrs, handle, attach_identity,
}
use dilu_go_kit.Jwt.Identity.{IsPositive}
use dilu_go_kit.Jwt.Numerals.{Numerals, Fits}
use dilu_go_kit.Jwt.Forwarded.{Fit, receive, named, arrived, forwarded_identity}

abbrev unary : ℕ → Text
unary zero = []
unary (suc n) = b'x' ∷ unary n

abbrev written : ℤ → Text
written (pos n) = unary n
written (negsuc n) = []

abbrev library : Library ℕ ℕ
library = record {
  parse_int = λ s. (pos (len s), true);
  equal_fold = beq;
  parse_cidr = λ s. none;
  split_host = λ s. none;
  parse_ip = λ s. none;
  in_net = λ n i. false;
  parse_token = λ o t. refused;
}

unary_length : (n : ℕ) → len (unary n) ≡ n
unfolding len
unary_length zero = refl
unary_length (suc n) = ground (arith, unary_length n)

unary_commas : (n : ℕ) → contains b',' (unary n) ≡ false
unfolding contains
unary_commas zero = refl
unary_commas (suc n) = unary_commas n

unary_spaces : (n : ℕ) → SpaceFree (unary n)
unfolding is_space
unary_spaces zero = tt
unary_spaces (suc n) = (refl, unary_spaces n)

reads : (n : ℤ) → IsPositive n → Fits n → library.parse_int (written n) ≡ (n, true)
reads (pos n) h f = ap (λ k. (pos k, true)) (unary_length n)
reads (negsuc n) h f = absurd (ground (arith, h))

no_comma : (n : ℤ) → contains b',' (written n) ≡ false
no_comma (pos n) = unary_commas n
no_comma (negsuc n) = unary_commas zero

no_space : (n : ℤ) → SpaceFree (written n)
no_space (pos n) = unary_spaces n
no_space (negsuc n) = tt

no_text : len [] ≡ 0
unfolding len
no_text = refl

abbrev numerals : Numerals library
numerals = record {
  format_int = written;
  reads = reads;
  no_comma = no_comma;
  no_space = no_space;
  blank = ap pos no_text;
}

-- A gateway's service, and the middleware of the next.
abbrev config : JwtConfig
config = record {
  secret = [];
  issuer = [];
  subject = [];
  audience = [];
  trusted_header_cidrs = [];
  allow_query_token = false;
  header_uid = [];
  header_tenant_id = [];
  header_workspace_id = [];
  header_shop_ids = [];
  header_scopes = [];
  trust_header_uid = true;
}

abbrev request : Request
request = record { header = λ k. []; query_token = []; remote_addr = []; context = none }

-- The second shop and the second scope are dropped.
abbrev context : Context
context = some (record {
  trace_id = [];
  user_id = pos 2;
  tenant_id = pos 3;
  workspace_id = pos 0;
  shop_ids = pos 1 ∷ pos 0 ∷ pos 4 ∷ [];
  scopes = codes " read" ∷ codes "a,b" ∷ codes "write" ∷ [];
})

abbrev headers : Header
headers = (codes "X-Trace-Id", codes "t") ∷ []

fitting : Fit (from context)
fitting = (refl, refl, refl, (refl, (refl, (refl, tt))))

fresh : All (λ k. get k headers ≡ []) identity_keys
unfolding lookup beq
fresh = (refl, (refl, (refl, (refl, (refl, tt)))))

abbrev sent : Option Header
sent = inject_identity_http written context (some headers)

believed : is_trusted library (named config) (receive sent request) ≡ true
unfolding is_trusted trusted_header_source_allowed parse_trusted_cidrs inject_identity_http
    join_int64 join_scopes join lookup insert beq len trim_space is_space
believed = refl

forwarded_identity_example :
    handle library (named config) (receive sent request)
    ≡ next (arrived (from context)) (attach_identity library (arrived (from context)) none)
forwarded_identity_example =
    forwarded_identity library numerals config request context headers fitting fresh believed
