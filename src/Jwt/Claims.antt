-- ===== src/Jwt/Claims.antt =====
-- contrib/mid/jwt/jwt.go: what is read from the claims of a token and from the identity headers.
use dilu_go_kit.Base.{
  List, [], ◌∷◌, Option, none, some, Bool, ◌&&◌, not, if◌then◌else◌, select, map,
}
use dilu_go_kit.Base.Int.{ℤ, pos, ltb_ℤ}
use dilu_go_kit.Base.Text.{Text, beq, codes, trim_space, is_space}
use dilu_go_kit.Base.Text.Commas.{split}
use dilu_go_kit.Base.Dict.{lookup}
use dilu_go_kit.Jwt.{JwtConfig, Item, number, text, other, Claim, one, items, Library, Request, Gin}

-- strings.Fields: the runs of characters that are not spaces.
abbrev pub add_field : Text → List Text → List Text
add_field [] fs = fs
add_field (c ∷ f) fs = (c ∷ f) ∷ fs

-- The field that the text begins with, and those after it.
unfoldable pub first_field : Text → Text × List Text
first_field [] = ([], [])
first_field (c ∷ s) =
    let (f, fs) = first_field s in if is_space c then ([], add_field f fs) else (c ∷ f, fs)

unfoldable pub fields : Text → List Text
unfolding first_field
fields s = let (f, fs) = first_field s in add_field f fs

abbrev pub positive : ℤ → Bool
positive = ltb_ℤ (pos 0)

abbrev pub set_positive : ℤ → Option ℤ → Option ℤ
set_positive n old = if positive n then some n else old

abbrev pub set_list {ℓ} : {A : Type ℓ} → List A → Option (List A) → Option (List A)
set_list [] old = old
set_list (x ∷ xs) old = some (x ∷ xs)

module _ {Net Ip : Type 0} (lib : Library Net Ip) where
  -- The value of ParseInt, whatever its error.
  abbrev pub int_of : Text → ℤ
  int_of s = (lib.parse_int s).0

  -- A positive number, where ParseInt or json.Number.Int64 has no error.
  abbrev pub checked_int : Text → ℤ
  checked_int s = let (n, fine) = lib.parse_int s in if fine && positive n then n else pos 0

  -- The switch of claimInt64 on one claim; 0 where it goes on to the next key.
  abbrev pub claim_value : Option Claim → ℤ
  claim_value (some (one (number s))) = checked_int s
  claim_value (some (one (text s))) = checked_int s
  claim_value _ = pos 0

  -- claimInt64
  unfoldable pub claim_int64 : List (Text × Claim) → List Text → ℤ
  unfolding lookup
  claim_int64 claims [] = pos 0
  claim_int64 claims (k ∷ ks) =
      let v = claim_value (lookup k claims) in
      let rest = claim_int64 claims ks in if positive v then v else rest

  -- parseInt64CSV and parseStringCSV
  abbrev pub part_int : Text → ℤ
  part_int part = int_of (trim_space part)

  unfoldable pub parse_int64_csv : Text → List ℤ
  unfolding split
  parse_int64_csv s = select positive (map part_int (split s))

  unfoldable pub parse_string_csv : Text → List Text
  unfolding split
  parse_string_csv s = select (λ v. not (beq v [])) (map trim_space (split s))

  -- One value of a list of shops, 0 where it is left out.
  abbrev pub item_int : Item → ℤ
  item_int (number s) = checked_int s
  item_int (text s) = int_of s
  item_int other = pos 0

  abbrev pub item_text : Item → Text
  item_text (text s) = s
  item_text (number s) = []
  item_text other = []

  -- claimInt64Slice; `none` goes on to the next key.
  unfoldable pub slice_value : Option Claim → Option (List ℤ)
  unfolding parse_int64_csv
  slice_value (some (items is)) = some (select positive (map item_int is))
  slice_value (some (one (text s))) = some (parse_int64_csv s)
  slice_value _ = none

  unfoldable pub claim_int64_slice : List (Text × Claim) → List Text → List ℤ
  unfolding slice_value lookup
  claim_int64_slice claims [] = []
  claim_int64_slice claims (k ∷ ks) =
      let rest = claim_int64_slice claims ks in
      elim (slice_value (lookup k claims)) [ some l ↦ l | none ↦ rest ]

  -- claimStringSlice
  unfoldable pub texts_value : Option Claim → Option (List Text)
  unfolding parse_string_csv
  texts_value (some (items is)) = some (select (λ v. not (beq v [])) (map item_text is))
  texts_value (some (one (text s))) = some (parse_string_csv s)
  texts_value _ = none

  unfoldable pub claim_string_slice : List (Text × Claim) → List Text → List Text
  unfolding texts_value lookup
  claim_string_slice claims [] = []
  claim_string_slice claims (k ∷ ks) =
      let rest = claim_string_slice claims ks in
      elim (texts_value (lookup k claims)) [ some l ↦ l | none ↦ rest ]

  -- setOptionalClaimContext
  unfoldable pub set_optional_claims : List (Text × Claim) → Gin → Gin
  unfolding claim_int64 claim_int64_slice claim_string_slice
  set_optional_claims claims g = record g {
    tenant_id =
        set_positive (claim_int64 claims (codes "tenant_id" ∷ codes "tid" ∷ [])) g.tenant_id;
    workspace_id =
        set_positive (claim_int64 claims (codes "workspace_id" ∷ codes "wid" ∷ [])) g.workspace_id;
    shop_ids =
        set_list (claim_int64_slice claims (codes "shop_ids" ∷ codes "sids" ∷ [])) g.shop_ids;
    scopes = set_list (claim_string_slice claims (codes "scopes" ∷ codes "scope" ∷ [])) g.scopes;
  }

  -- A header that is configured.
  abbrev pub header_int : Request → Text → ℤ
  header_int r name = if beq name [] then pos 0 else int_of (r.header name)

  abbrev pub header_list {ℓ} : {A : Type ℓ} → Request → Text → (Text → List A) → List A
  header_list r name parse = if beq name [] then [] else parse (r.header name)

  -- setTrustedHeaderContext
  unfoldable pub set_trusted_headers : JwtConfig → Request → Gin → Gin
  unfolding parse_int64_csv parse_string_csv
  set_trusted_headers cfg r g = record g {
    tenant_id = set_positive (header_int r cfg.header_tenant_id) g.tenant_id;
    workspace_id = set_positive (header_int r cfg.header_workspace_id) g.workspace_id;
    shop_ids = set_list (header_list r cfg.header_shop_ids parse_int64_csv) g.shop_ids;
    scopes = set_list (header_list r cfg.header_scopes parse_string_csv) g.scopes;
  }
