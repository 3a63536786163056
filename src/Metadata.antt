-- ===== src/Metadata.antt =====
-- metadata/metadata.go: the request metadata of a context, and its HTTP and gRPC headers. A header is
-- a map by canonical key with one value each, `none` where it is nil.
pub mod Headers
pub mod Identity
use dilu_go_kit.Base.{
  ℕ, List, [], ◌∷◌, ◌++◌, map, Option, none, some, Bool, true, false, ◌&&◌, ◌||◌, not,
  if◌then◌else◌, ltb, leb, ◌==◌, select, all,
}
use dilu_go_kit.Base.Int.{ℤ, pos, ltb_ℤ}
use dilu_go_kit.Base.Text.{Text, beq, codes, len, trim_space, contains}
use dilu_go_kit.Base.Text.Commas.{join}
use dilu_go_kit.Base.Dict.{lookup, insert}

pub record Values : Type 0 where
  pub trace_id : Text
  pub user_id : ℤ
  pub tenant_id : ℤ
  pub workspace_id : ℤ
  pub shop_ids : List ℤ
  pub scopes : List Text

abbrev pub zero_values : Values
zero_values = record {
  trace_id = [];
  user_id = pos 0;
  tenant_id = pos 0;
  workspace_id = pos 0;
  shop_ids = [];
  scopes = [];
}

-- The bytes that normalize lets through.
abbrev pub is_allowed : ℕ → Bool
is_allowed c =
    (leb b'a' c && leb c b'z')
    || (leb b'A' c && leb c b'Z')
    || (leb b'0' c && leb c b'9')
    || c == b'-'
    || c == b'_'
    || c == b'.'

unfoldable pub normalize : Text → Text
normalize value =
    let v = trim_space value in if ltb 128 (len v) then [] else if all is_allowed v then v else []

-- The values in a context, `none` where there are none.
abbrev pub Context : Type 0
Context = Option Values

-- From
abbrev pub from : Context → Values
from none = zero_values
from (some v) = v

-- With
unfoldable pub with_values : Context → Values → Context
with_values ctx v = some (record v { trace_id = normalize v.trace_id })

abbrev pub Header : Type 0
Header = List (Text × Text)

abbrev pub or_empty : Option Text → Text
or_empty none = []
or_empty (some v) = v

abbrev pub get : Text → Header → Text
get k h = or_empty (lookup k h)

abbrev pub trace_key : Text
trace_key = codes "X-Trace-Id"

-- InjectHTTP
unfoldable pub inject_http : Context → Option Header → Option Header
inject_http ctx none = none
inject_http ctx (some h) =
    let trace = (from ctx).trace_id in
    if beq trace [] then some h else some (insert trace_key trace h)

-- ExtractHTTP
unfoldable pub extract_http : Context → Option Header → Context
unfolding with_values
extract_http ctx none = with_values ctx (from ctx)
extract_http ctx (some h) =
    with_values ctx (record (from ctx) { trace_id = normalize (get trace_key h) })

-- firstValue: the first list whose first value is not blank once normalized.
unfoldable pub first_value : List (List Text) → Text
first_value [] = []
first_value ([] ∷ ls) = first_value ls
first_value ((v ∷ vs) ∷ ls) =
    let rest = first_value ls in if beq (normalize v) [] then rest else normalize v

-- ExtractGRPC, with the values that the gRPC metadata has under x-trace-id.
unfoldable pub extract_grpc : Context → Option (List Text) → Context
unfolding with_values first_value
extract_grpc ctx none = with_values ctx (from ctx)
extract_grpc ctx (some values) =
    with_values ctx (record (from ctx) { trace_id = first_value (values ∷ []) })

-- What joinScopes keeps, once it is trimmed.
abbrev pub is_scope : Text → Bool
is_scope v = not (beq v [] || ltb 128 (len v) || contains 13 v || contains 10 v || contains b',' v)

unfoldable pub join_scopes : List Text → Text
unfolding join
join_scopes values = join (select is_scope (map trim_space values))

-- strconv.FormatInt in base 10 is a parameter.
module _ (format_int : ℤ → Text) where
  unfoldable pub join_int64 : List ℤ → Text
  unfolding join
  join_int64 values = join (map format_int (select (ltb_ℤ (pos 0)) values))

  abbrev pub set_id : Text → ℤ → Header → Header
  set_id k v h = if ltb_ℤ (pos 0) v then insert k (format_int v) h else h

  abbrev pub set_list {ℓ} : {A : Type ℓ} → Text → List A → Text → Header → Header
  set_list k [] text h = h
  set_list k (x ∷ xs) text h = insert k text h

  -- InjectIdentityHTTP
  unfoldable pub inject_identity_http : Context → Option Header → Option Header
  unfolding join_int64 join_scopes
  inject_identity_http ctx none = none
  inject_identity_http ctx (some h) =
      let v = from ctx in
      let h1 = set_id (codes "X-User-Id") v.user_id h in
      let h2 = set_id (codes "X-Tenant-Id") v.tenant_id h1 in
      let h3 = set_id (codes "X-Workspace-Id") v.workspace_id h2 in
      let h4 = set_list (codes "X-Shop-Ids") v.shop_ids (join_int64 v.shop_ids) h3 in
      some (set_list (codes "X-Scopes") v.scopes (join_scopes v.scopes) h4)
