-- ===== src/Jwt/Forwarded.antt =====
-- The identity that one service sends with InjectIdentityHTTP, read by the middleware of the next.
use dilu_go_kit.Base.{
  ◌≡◌, ap, ◌∙◌, List, [], Option, none, some, true, if◌then◌else◌, select, map, All,
}
use dilu_go_kit.Base.Int.{ℤ, pos}
use dilu_go_kit.Base.Text.{Text, beq, codes, trim_space}
use dilu_go_kit.Base.Text.Commas.{join}
use dilu_go_kit.Metadata.{
  Values, Context, from, Header, get, is_scope, join_scopes, join_int64, inject_identity_http,
}
use dilu_go_kit.Metadata.Identity.{identity_keys, with_identity, carried, all_carried, list_kept}
use dilu_go_kit.Jwt.{JwtConfig, Library, Request, Gin, empty_gin, next}
use dilu_go_kit.Jwt.Claims
use dilu_go_kit.Jwt.Claims.{
  positive, set_positive, int_of, part_int, parse_int64_csv, parse_string_csv, set_trusted_headers,
}
use dilu_go_kit.Jwt.Handler.{trusted_gin, is_trusted, handle, pass, attach_identity}
use dilu_go_kit.Jwt.Numerals.{Numerals, Fits, shops_read, scopes_read, id_read, id_set}

-- A request that arrives with a header.
abbrev pub receive : Option Header → Request → Request
receive none r = r
receive (some h) r = record r { header = λ k. get k h }

-- The names under which InjectIdentityHTTP writes.
abbrev pub named : JwtConfig → JwtConfig
named cfg = record cfg {
  header_uid = codes "X-User-Id";
  header_tenant_id = codes "X-Tenant-Id";
  header_workspace_id = codes "X-Workspace-Id";
  header_shop_ids = codes "X-Shop-Ids";
  header_scopes = codes "X-Scopes";
}

-- The identity of a context: its numbers above 0, and the scopes that are in use.
abbrev pub arrived : Values → Gin
arrived v = record empty_gin {
  uid = some (if positive v.user_id then v.user_id else pos 0);
  tenant_id = set_positive v.tenant_id none;
  workspace_id = set_positive v.workspace_id none;
  shop_ids = Claims.set_list (select positive v.shop_ids) none;
  scopes = Claims.set_list (select is_scope (map trim_space v.scopes)) none;
}

-- The numbers of a context that have the size of an int64.
abbrev pub Fit : Values → Type 0
Fit v = Fits v.user_id × Fits v.tenant_id × Fits v.workspace_id × All Fits v.shop_ids

same_gin :
    {u u' t t' w w' : Option ℤ} {s s' : Option (List ℤ)} {c c' : Option (List Text)}
    → u ≡ u'
    → t ≡ t'
    → w ≡ w'
    → s ≡ s'
    → c ≡ c'
    → Path Gin
        (record empty_gin { uid = u; tenant_id = t; workspace_id = w; shop_ids = s; scopes = c })
        (record empty_gin {
          uid = u';
          tenant_id = t';
          workspace_id = w';
          shop_ids = s';
          scopes = c';
        })
same_gin e f g h i = cc

module _ {Net Ip : Type 0} (lib : Library Net Ip) (n : Numerals lib) where
  open n use {format_int}

  -- What the next service reads of it.
  user_read :
      (v : Values)
      → Fit v
      → int_of lib (carried format_int v (codes "X-User-Id"))
        ≡ (if positive v.user_id then v.user_id else pos 0)
  unfolding carried beq
  user_read v f = id_read lib n v.user_id f.0

  tenant_read :
      (v : Values)
      → Fit v
      → int_of lib (carried format_int v (codes "X-Tenant-Id"))
        ≡ (if positive v.tenant_id then v.tenant_id else pos 0)
  unfolding carried beq
  tenant_read v f = id_read lib n v.tenant_id f.1

  workspace_read :
      (v : Values)
      → Fit v
      → int_of lib (carried format_int v (codes "X-Workspace-Id"))
        ≡ (if positive v.workspace_id then v.workspace_id else pos 0)
  unfolding carried beq
  workspace_read v f = id_read lib n v.workspace_id f.2

  shop_ids_read :
      (v : Values)
      → Fit v
      → parse_int64_csv lib (carried format_int v (codes "X-Shop-Ids")) ≡ select positive v.shop_ids
  unfolding carried beq join_int64 join
  shop_ids_read v f =
      ap (parse_int64_csv lib) (
        list_kept format_int v.shop_ids (join_int64 format_int v.shop_ids)
          (λ e. ap (join_int64 format_int) e))
      ∙ shops_read lib n v.shop_ids f.3

  scope_list_read :
      (v : Values)
      → parse_string_csv lib (carried format_int v (codes "X-Scopes"))
        ≡ select is_scope (map trim_space v.scopes)
  unfolding carried beq join_scopes join
  scope_list_read v =
      ap (parse_string_csv lib)
        (list_kept format_int v.scopes (join_scopes v.scopes) (λ e. ap join_scopes e))
      ∙ scopes_read lib n v.scopes

  tenant_set :
      (v : Values)
      → Fit v
      → set_positive (int_of lib (carried format_int v (codes "X-Tenant-Id"))) none
        ≡ set_positive v.tenant_id none
  tenant_set v f = ap (λ i. set_positive i none) (tenant_read v f) ∙ id_set lib n v.tenant_id

  workspace_set :
      (v : Values)
      → Fit v
      → set_positive (int_of lib (carried format_int v (codes "X-Workspace-Id"))) none
        ≡ set_positive v.workspace_id none
  workspace_set v f =
      ap (λ i. set_positive i none) (workspace_read v f) ∙ id_set lib n v.workspace_id

  read_carried :
      (cfg : JwtConfig) (r : Request) (v : Values)
      → Fit v
      → All (λ k. r.header k ≡ carried format_int v k) identity_keys
      → trusted_gin lib (named cfg) r ≡ arrived v
  unfolding trusted_gin set_trusted_headers beq
  read_carried cfg r v f (user, (tenant, (workspace, (shops, (scopes, _))))) =
      same_gin (ap (λ t. some (int_of lib t)) user ∙ ap some (user_read v f))
        (ap (λ t. set_positive (int_of lib t) none) tenant ∙ tenant_set v f)
        (ap (λ t. set_positive (int_of lib t) none) workspace ∙ workspace_set v f)
        (ap (λ t. Claims.set_list (parse_int64_csv lib t) none) shops
          ∙ ap (λ l. Claims.set_list l none) (shop_ids_read v f))
        (ap (λ t. Claims.set_list (parse_string_csv lib t) none) scopes
          ∙ ap (λ l. Claims.set_list l none) (scope_list_read v))

  -- Where InjectIdentityHTTP puts the identity of a context, its numbers below 2^63, into a header that has none of its five
  -- keys yet, and the next service, configured with these keys, believes the headers of that request,
  -- the middleware passes the request on with exactly that identity: the user, the tenant and the
  -- workspace where they are above 0, the shops above 0 in their order, and the scopes that
  -- joinScopes keeps, trimmed and in their order.
  pub forwarded_identity :
      (cfg : JwtConfig) (r : Request) (ctx : Context) (h : Header)
      → Fit (from ctx)
      → All (λ k. get k h ≡ []) identity_keys
      → is_trusted lib (named cfg) (receive (inject_identity_http format_int ctx (some h)) r) ≡ true
      → handle lib (named cfg) (receive (inject_identity_http format_int ctx (some h)) r)
        ≡ next (arrived (from ctx)) (attach_identity lib (arrived (from ctx)) r.context)
  unfolding handle inject_identity_http with_identity pass
  forwarded_identity cfg r ctx h fits fresh believed =
      let sent = receive (inject_identity_http format_int ctx (some h)) r in
      let there =
        read_carried cfg sent (from ctx) fits
          (all_carried format_int (from ctx) h identity_keys fresh) in
      rw believed (ap (λ g. next g (attach_identity lib g r.context)) there)
