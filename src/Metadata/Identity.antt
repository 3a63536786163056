-- ===== src/Metadata/Identity.antt =====
-- The header that InjectIdentityHTTP writes, key by key.
use dilu_go_kit.Base.{
  ◌≡◌, refl, sym, ap, ◌∙◌, List, [], ◌∷◌, Option, some, Bool, true, false, if◌then◌else◌, All,
}
use dilu_go_kit.Base.Int.{ℤ}
use dilu_go_kit.Base.Text.{Text, beq, codes}
use dilu_go_kit.Base.Dict.{lookup, insert, lookup-insert}
use dilu_go_kit.Metadata.{Values, Header, get, or_empty, set_id, set_list, join_scopes, join_int64}
use dilu_go_kit.Base.Int.{pos, ltb_ℤ}

or_empty_if :
    (b : Bool) (t : Text) (o : Option Text)
    → or_empty (if b then some t else o) ≡ (if b then t else or_empty o)
or_empty_if true t o = refl
or_empty_if false t o = refl

get-insert : (k j t : Text) (h : Header) → get j (insert k t h) ≡ (if beq k j then t else get j h)
get-insert k j t h = ap or_empty (lookup-insert k j t h) ∙ or_empty_if (beq k j) t (lookup j h)

abbrev pub any_of {ℓ} : {A : Type ℓ} → List A → Bool
any_of [] = false
any_of (x ∷ xs) = true

abbrev written : Bool → Bool → Text → Text → Text
written b at t u = if at then (if b then t else u) else u

not_written : (at : Bool) (t u : Text) → written false at t u ≡ u
not_written true t u = refl
not_written false t u = refl

put :
    (b : Bool) (k j t : Text) (h : Header)
    → get j (if b then insert k t h else h) ≡ written b (beq k j) t (get j h)
put true k j t h = get-insert k j t h
put false k j t h = sym (not_written (beq k j) t (get j h))

abbrev pub identity_keys : List Text
identity_keys =
    codes "X-User-Id"
    ∷ codes "X-Tenant-Id"
    ∷ codes "X-Workspace-Id"
    ∷ codes "X-Shop-Ids"
    ∷ codes "X-Scopes"
    ∷ []

module _ (format_int : ℤ → Text) where
  -- The header with which inject_identity_http ends.
  unfoldable pub with_identity : Values → Header → Header
  unfolding join_int64 join_scopes
  with_identity v h =
      let h1 = set_id format_int (codes "X-User-Id") v.user_id h in
      let h2 = set_id format_int (codes "X-Tenant-Id") v.tenant_id h1 in
      let h3 = set_id format_int (codes "X-Workspace-Id") v.workspace_id h2 in
      let h4 =
        set_list format_int (codes "X-Shop-Ids") v.shop_ids (join_int64 format_int v.shop_ids) h3 in
      set_list format_int (codes "X-Scopes") v.scopes (join_scopes v.scopes) h4

  id_step :
      (k : Text) (v : ℤ) (j : Text) (h : Header) {u : Text}
      → get j h ≡ u
      → get j (set_id format_int k v h) ≡ written (ltb_ℤ (pos 0) v) (beq k j) (format_int v) u
  id_step k v j h e =
      put (ltb_ℤ (pos 0) v) k j (format_int v) h
      ∙ ap (written (ltb_ℤ (pos 0) v) (beq k j) (format_int v)) e

  list_step {ℓ} :
      {A : Type ℓ} (k t : Text) (xs : List A) (j : Text) (h : Header) {u : Text}
      → get j h ≡ u
      → get j (set_list format_int k xs t h) ≡ written (any_of xs) (beq k j) t u
  list_step k t [] j h {u} e = e ∙ sym (not_written (beq k j) t u)
  list_step k t (x ∷ xs) j h e = get-insert k j t h ∙ ap (written true (beq k j) t) e

  -- What stands under a key of it.
  unfoldable pub carried : Values → Text → Text
  unfolding join_int64 join_scopes
  carried v j = written (any_of v.scopes) (beq (codes "X-Scopes") j) (join_scopes v.scopes) (
      written (any_of v.shop_ids) (beq (codes "X-Shop-Ids") j) (join_int64 format_int v.shop_ids) (
        written (ltb_ℤ (pos 0) v.workspace_id) (beq (codes "X-Workspace-Id") j)
          (format_int v.workspace_id)
          (written (ltb_ℤ (pos 0) v.tenant_id) (beq (codes "X-Tenant-Id") j)
            (format_int v.tenant_id)
            (written (ltb_ℤ (pos 0) v.user_id) (beq (codes "X-User-Id") j) (format_int v.user_id)
              []))))

  carried_lem :
      (v : Values) (h : Header) (j : Text) → get j h ≡ [] → get j (with_identity v h) ≡ carried v j
  unfolding with_identity carried
  carried_lem v h j fresh = list_step (codes "X-Scopes") (join_scopes v.scopes) v.scopes j _ (
      list_step (codes "X-Shop-Ids") (join_int64 format_int v.shop_ids) v.shop_ids j _ (
        id_step (codes "X-Workspace-Id") v.workspace_id j _ (
          id_step (codes "X-Tenant-Id") v.tenant_id j _
            (id_step (codes "X-User-Id") v.user_id j h fresh))))

  pub list_kept :
      {A : Type 0} (xs : List A) (t : Text) → (xs ≡ [] → t ≡ []) → (if any_of xs then t else []) ≡ t
  list_kept [] t h = sym (h refl)
  list_kept (x ∷ xs) t h = refl

  pub all_carried :
      (v : Values) (h : Header) (ks : List Text)
      → All (λ k. get k h ≡ []) ks
      → All (λ k. get k (with_identity v h) ≡ carried v k) ks
  all_carried v h [] fresh = tt
  all_carried v h (k ∷ ks) (f, fs) = (carried_lem v h k f, all_carried v h ks fs)
