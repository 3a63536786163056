-- ===== src/Jwt/Identity.antt =====
-- The identity that a request carries behind the middleware.
use dilu_go_kit.Base.{
  ◌≡◌, refl, sym, ap, ◌∙◌, subst, ◌⊎◌, inl, inr, List, [], ◌∷◌, Option, none, some, Bool, true,
  if_cases, select, map, All, arith,
}
use dilu_go_kit.Base.Int.{ℤ, pos}
use dilu_go_kit.Base.Text.{Text, beq, codes}
use dilu_go_kit.Base.Text.Commas.{split}
use dilu_go_kit.Base.Dict.{lookup}
use dilu_go_kit.Metadata.{Context, from, with_values}
use dilu_go_kit.Jwt.{JwtConfig, number, text, other, Claim, one, items, Library, Request, Gin, next}
use dilu_go_kit.Jwt.Claims.{
  positive, set_positive, set_list, claim_int64, slice_value, claim_int64_slice,
  set_optional_claims, set_trusted_headers, header_int, header_list, parse_int64_csv, part_int,
  item_int,
}
use dilu_go_kit.Jwt.Handler.{
  or_zero, or_empty, get_uid, get_role_id, get_tenant_id, get_workspace_id, get_shop_ids, id_or,
  attach_identity, is_trusted, gin_of, trusted_gin, handle,
}
use dilu_go_kit.Jwt.Access.{passing}

abbrev pub IsPositive : ℤ → Type 0
IsPositive n = positive n ≡ true

-- An identifier that is 0, for none, or above 0.
abbrev pub IsId : ℤ → Type 0
IsId n = (n ≡ pos 0) ⊎ IsPositive n

abbrev pub ArePositive : List ℤ → Type 0
ArePositive = All IsPositive

-- What the getters give: a user above 0, and no other identifier below 0, nor a shop at or below 0.
abbrev pub HasIdentity : Gin → Type 0
HasIdentity g =
    IsPositive (get_uid g)
    × IsId (get_role_id g)
    × IsId (get_tenant_id g)
    × IsId (get_workspace_id g)
    × ArePositive (get_shop_ids g)

pub select-All {ℓ} :
    {A : Type ℓ} (test : A → Bool) (xs : List A) → All (λ x. test x ≡ true) (select test xs)
select-All test [] = tt
select-All {A = A} test (x ∷ xs) =
    if_cases {A = List A} (All (λ y. test y ≡ true)) (test x) (λ h. (h, select-All test xs))
      (λ h. select-All test xs)

set_positive_lem : (n : ℤ) → IsId (or_zero (set_positive n none))
set_positive_lem n =
    if_cases {A = Option ℤ} (λ o. IsId (or_zero o)) (positive n) (λ h. inr h) (λ h. inl refl)

set_list_lem : (l : List ℤ) → ArePositive l → ArePositive (or_empty (set_list l none))
set_list_lem [] h = tt
set_list_lem (n ∷ l) h = h

module _ {Net Ip : Type 0} (lib : Library Net Ip) where
  csv_positive : (s : Text) → ArePositive (parse_int64_csv lib s)
  unfolding parse_int64_csv
  csv_positive s = select-All positive (map (part_int lib) (split s))

  slice_positive : (c : Option Claim) → ArePositive (or_empty (slice_value lib c))
  unfolding slice_value
  slice_positive none = tt
  slice_positive (some (items is)) = select-All positive (map (item_int lib) is)
  slice_positive (some (one (text s))) = csv_positive s
  slice_positive (some (one (number s))) = tt
  slice_positive (some (one other)) = tt

  first_slice :
      (o : Option (List ℤ)) (rest : List ℤ)
      → ArePositive (or_empty o)
      → ArePositive rest
      → ArePositive (elim o [ some l ↦ l | none ↦ rest ])
  first_slice none rest h k = k
  first_slice (some l) rest h k = h

  claim_slice_positive :
      (claims : List (Text × Claim)) (ks : List Text)
      → ArePositive (claim_int64_slice lib claims ks)
  unfolding claim_int64_slice slice_value
  claim_slice_positive claims [] = tt
  claim_slice_positive claims (k ∷ ks) =
      first_slice (slice_value lib (lookup k claims)) (claim_int64_slice lib claims ks)
        (slice_positive (lookup k claims)) (claim_slice_positive claims ks)

  header_list_positive :
      (r : Request) (name : Text) → ArePositive (header_list lib r name (parse_int64_csv lib))
  header_list_positive r name =
      if_cases {A = List ℤ} ArePositive (beq name []) (λ h. tt) (λ h. csv_positive (r.header name))

  gin_of-HasIdentity :
      (claims : List (Text × Claim)) (uid : ℤ)
      → IsPositive uid
      → HasIdentity (gin_of lib claims uid)
  unfolding gin_of set_optional_claims
  gin_of-HasIdentity claims uid good =
      let shops = codes "shop_ids" ∷ codes "sids" ∷ [] in
      (
        good,
        set_positive_lem (claim_int64 lib claims (codes "rid" ∷ [])),
        set_positive_lem (claim_int64 lib claims (codes "tenant_id" ∷ codes "tid" ∷ [])),
        set_positive_lem (claim_int64 lib claims (codes "workspace_id" ∷ codes "wid" ∷ [])),
        set_list_lem (claim_int64_slice lib claims shops) (claim_slice_positive claims shops),
      )

  trusted_gin-HasIdentity :
      (cfg : JwtConfig) (r : Request)
      → is_trusted lib cfg r ≡ true
      → HasIdentity (trusted_gin lib cfg r)
  unfolding trusted_gin is_trusted set_trusted_headers
  trusted_gin-HasIdentity cfg r h = (
    ground arith,
    inl refl,
    set_positive_lem (header_int lib r cfg.header_tenant_id),
    set_positive_lem (header_int lib r cfg.header_workspace_id),
    set_list_lem (header_list lib r cfg.header_shop_ids (parse_int64_csv lib))
        (header_list_positive r cfg.header_shop_ids),
  )

  id_or_set : (old : ℤ) (o : Option ℤ) → IsPositive (or_zero o) → id_or lib old o ≡ or_zero o
  id_or_set old none h = cc
  id_or_set old (some n) h = rw h refl

  attached_user :
      (g : Gin) (c : Context)
      → IsPositive (get_uid g)
      → (from (attach_identity lib g c)).user_id ≡ get_uid g
  unfolding attach_identity with_values
  attached_user g c h = id_or_set (from c).user_id g.uid h

  -- Every request that passes has, as the getters read it, a user above 0; a role, a tenant and a
  -- workspace that are above 0 or 0, for none; and shops that are all above 0, whether they come from
  -- headers or from a token. The metadata of its context has the same user, even where it had another
  -- before.
  pub passed_identity :
      (cfg : JwtConfig) (r : Request) (g : Gin) (ctx : Context)
      → handle lib cfg r ≡ next g ctx
      → HasIdentity g × ((from ctx).user_id ≡ get_uid g)
  passed_identity cfg r g ctx h =
      let (passed, same_context) = passing lib cfg r g ctx h in
      let identity : HasIdentity g = elim passed [
        | inl (trusted, e) ↦ subst HasIdentity (sym e) (trusted_gin-HasIdentity cfg r trusted)
        | inr (claims, bearer, good, e) ↦
            subst HasIdentity (sym e) (gin_of-HasIdentity claims _ good)
      ] in
      (identity, ap (λ c. (from c).user_id) same_context ∙ attached_user g r.context identity.0)
