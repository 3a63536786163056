-- ===== src/Jwt/Numerals.antt =====
-- Numbers and lists that set_trusted_headers reads out of a header.
use dilu_go_kit.Base.{
  if_cases, ◌^◌, ◌≡◌, refl, ap, ◌∙◌, List, [], ◌∷◌, none, true, false, not, if◌then◌else◌, select,
  map, All, arith, Bool-cases, inl, inr,
}
use dilu_go_kit.Base.Int.{ℤ, pos, ltb_ℤ}
use dilu_go_kit.Base.Text.{Text, beq, contains, trim_space, SpaceFree, trim_space_free}
use dilu_go_kit.Base.Text.Commas.{join, split, split-join}
use dilu_go_kit.Base.Text.Trimming.{trim_space_idem}
use dilu_go_kit.Metadata.{is_scope, join_scopes, join_int64}
use dilu_go_kit.Metadata.Headers.{commas}
use dilu_go_kit.Jwt.{Library}
use dilu_go_kit.Jwt.Claims.{
  positive, set_positive, int_of, part_int, parse_int64_csv, parse_string_csv,
}
use dilu_go_kit.Jwt.Identity.{IsPositive, ArePositive, select-All}

-- A number below 2^63, as every int64 is.
abbrev pub Fits : ℤ → Type 0
Fits n = ltb_ℤ n (pos (2 ^ 63)) ≡ true

-- strconv.FormatInt in base 10 and strconv.ParseInt: a number above 0 that fits reads back, a number is
-- printed without commas and spaces, and ParseInt gives 0 on the empty text.
pub record Numerals {Net Ip : Type 0} (lib : Library Net Ip) : Type 0 where
  pub format_int : ℤ → Text
  pub reads : (n : ℤ) → IsPositive n → Fits n → lib.parse_int (format_int n) ≡ (n, true)
  pub no_comma : (n : ℤ) → contains b',' (format_int n) ≡ false
  pub no_space : (n : ℤ) → SpaceFree (format_int n)
  pub blank : int_of lib [] ≡ pos 0

kept_scopes :
    (values : List Text)
    → select (λ v. not (beq v [])) (map trim_space (select is_scope (map trim_space values)))
      ≡ select is_scope (map trim_space values)
kept_scopes [] = refl
kept_scopes (v ∷ vs) = elim (Bool-cases (is_scope (trim_space v))) [
  | inl good ↦
      let there : beq (trim_space v) [] ≡ false = ground (arith, good) in
      rw good (rw (trim_space_idem v) (rw there (ap (λ l. trim_space v ∷ l) (kept_scopes vs))))
  | inr bad ↦ rw bad (kept_scopes vs)
]

resplit :
    (ps : List Text)
    → All (λ q. contains b',' q ≡ false) ps
    → select (λ v. not (beq v [])) (map trim_space (split (join ps)))
      ≡ select (λ v. not (beq v [])) (map trim_space ps)
unfolding join split trim_space beq
resplit [] h = refl
resplit (p ∷ ps) h = ap (λ l. select (λ v. not (beq v [])) (map trim_space l)) (split-join p ps h)

select_kept : (ids : List ℤ) → All Fits ids → All Fits (select positive ids)
select_kept [] f = tt
select_kept (m ∷ ms) (f, fs) =
    if_cases {A = List ℤ} (All Fits) (positive m) (λ h. (f, select_kept ms fs))
      (λ h. select_kept ms fs)

module _ {Net Ip : Type 0} (lib : Library Net Ip) (n : Numerals lib) where
  open n use {format_int, reads, no_comma, no_space, blank}

  read_all :
      (ns : List ℤ)
      → ArePositive ns
      → All Fits ns
      → select positive (map (part_int lib) (map format_int ns)) ≡ ns
  read_all [] h f = refl
  read_all (m ∷ ns) (h, hs) (f, fs) =
      let same : part_int lib (format_int m) ≡ m =
        ap (int_of lib) (trim_space_free (format_int m) (no_space m))
        ∙ ap (λ p. p.0) (reads m h f) in
      rw same (rw h (ap (λ l. m ∷ l) (read_all ns hs fs)))

  no_commas : (ns : List ℤ) → All (λ t. contains b',' t ≡ false) (map format_int ns)
  no_commas [] = tt
  no_commas (m ∷ ns) = (no_comma m, no_commas ns)

  read_joined :
      (ns : List ℤ)
      → ArePositive ns
      → All Fits ns
      → parse_int64_csv lib (join (map format_int ns)) ≡ ns
  unfolding parse_int64_csv join split trim_space
  read_joined [] h f = rw blank refl
  read_joined (m ∷ ns) h f =
      ap (λ l. select positive (map (part_int lib) l))
        (split-join (format_int m) (map format_int ns) (no_commas (m ∷ ns)))
      ∙ read_all (m ∷ ns) h f

  pub shops_read :
      (ids : List ℤ)
      → All Fits ids
      → parse_int64_csv lib (join_int64 format_int ids) ≡ select positive ids
  unfolding join_int64
  shops_read ids f = read_joined (select positive ids) (select-All positive ids) (select_kept ids f)

  pub scopes_read :
      (values : List Text)
      → parse_string_csv lib (join_scopes values) ≡ select is_scope (map trim_space values)
  unfolding join_scopes parse_string_csv
  scopes_read values =
      resplit (select is_scope (map trim_space values)) (commas (map trim_space values))
      ∙ kept_scopes values

  pub id_read :
      (v : ℤ)
      → Fits v
      → int_of lib (if positive v then format_int v else []) ≡ (if positive v then v else pos 0)
  id_read v f = elim (Bool-cases (positive v)) [
    | inl above ↦ rw above (ap (λ p. p.0) (reads v above f))
    | inr not_above ↦ rw not_above blank
  ]

  pub id_set : (v : ℤ) → set_positive (if positive v then v else pos 0) none ≡ set_positive v none
  id_set v = elim (Bool-cases (positive v)) [
    | inl above ↦ rw above (rw above refl)
    | inr not_above ↦ rw not_above refl
  ]
