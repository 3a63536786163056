-- ===== src/Metadata/Headers.antt =====
-- What crosses a header: the trace identifier, and the list of scopes.
use dilu_go_kit.Base.{
  List, [], ◌∷◌, map, none, some, true, false, ltb, select, all, All, arith, ◌≡◌, ◌≢◌, refl, sym,
  ap, ◌∙◌, ◌⊎◌, inl, inr, Bool-cases,
}
use dilu_go_kit.Base.Text.{
  Text, beq, beq_iff, len, trim_space, trim_space_free, SpaceFree, is_space, contains,
}
use dilu_go_kit.Base.Dict.{lookup, insert, lookup-insert}
use dilu_go_kit.Base.Text.Commas.{split, split_kept}
use dilu_go_kit.Metadata.{
  Values, normalize, is_allowed, Context, from, with_values, Header, get, or_empty, trace_key,
  inject_http, extract_http, is_scope, join_scopes,
}

all-SpaceFree : (v : Text) → all is_allowed v ≡ true → SpaceFree v
unfolding is_space
all-SpaceFree [] h = tt
all-SpaceFree (c ∷ v) h = (ground (arith, h), all-SpaceFree v (ground (arith, h)))

normalized :
    (v : Text)
    → (normalize v ≡ [])
      ⊎ ((normalize v ≡ trim_space v)
          × (ltb 128 (len (trim_space v)) ≡ false)
          × (all is_allowed (trim_space v) ≡ true))
unfolding normalize
normalized v = ground arith

normalize-trim : (v : Text) → ltb 128 (len v) ≡ false → all is_allowed v ≡ true → normalize v ≡ v
unfolding normalize
normalize-trim v short allowed =
    rw (trim_space_free v (all-SpaceFree v allowed), short, allowed) refl

normalize_blank : normalize [] ≡ []
unfolding normalize trim_space len
normalize_blank = refl

normalize_again : (v : Text) → normalize (normalize v) ≡ normalize v
normalize_again v = elim (normalized v) [
  | inl e ↦ rw e normalize_blank
  | inr (e, short, allowed) ↦ rw e (normalize-trim (trim_space v) short allowed)
]

extracted :
    (into : Context) (h : Header) (t : Text)
    → normalize (normalize (get trace_key h)) ≡ t
    → extract_http into (some h) ≡ some (record (from into) { trace_id = t })
unfolding extract_http with_values
extracted into h t e = ap (λ (x : Text). some (record (from into) { trace_id = x })) e

get_absent : (h : Header) → lookup trace_key h ≡ none → get trace_key h ≡ []
get_absent h e = ap or_empty e

get_set : (t : Text) (h : Header) → get trace_key (insert trace_key t h) ≡ t
get_set t h =
    let hit : beq trace_key trace_key ≡ true = (beq_iff trace_key trace_key).1 refl in
    let found : lookup trace_key (insert trace_key t h) ≡ some t =
      ground (arith, hit, lookup-insert trace_key trace_key t h) in
    ap or_empty found

-- A trace identifier that With put into a context and InjectHTTP into a header that had none reads
-- back through ExtractHTTP as it stood in the context, normalized, and replaces the one of the
-- context that it is read into; the identity fields of that context stay, and none cross.
pub trace_roundtrip :
    (ctx into : Context) (v : Values) (h : Header)
    → lookup trace_key h ≡ none
    → extract_http into (inject_http (with_values ctx v) (some h))
      ≡ some (record (from into) { trace_id = normalize v.trace_id })
unfolding extract_http inject_http with_values
trace_roundtrip ctx into v h absent = elim (Bool-cases (beq (normalize v.trace_id) [])) [
  | inl blank ↦
      let empty = (beq_iff (normalize v.trace_id) []).0 blank in
      rw blank (
        extracted into h (normalize v.trace_id) (
          ap (λ t. normalize (normalize t)) (get_absent h absent)
          ∙ ap normalize normalize_blank
          ∙ normalize_blank
          ∙ sym empty))
  | inr there ↦
      let t = normalize v.trace_id in
      rw there (
        extracted into (insert trace_key t h) t (
          ap (λ x. normalize (normalize x)) (get_set t h)
          ∙ ap normalize (normalize_again v.trace_id)
          ∙ normalize_again v.trace_id))
]

pub commas : (values : List Text) → All (λ q. contains b',' q ≡ false) (select is_scope values)
commas [] = tt
commas (v ∷ vs) = elim (Bool-cases (is_scope v)) [
  | inl good ↦ rw good (ground (arith, good), commas vs)
  | inr bad ↦ rw bad (commas vs)
]

-- Where joinScopes keeps a scope, its result splits at the commas into exactly the scopes that it
-- keeps, trimmed and in their order: no scope can add another one.
pub scopes_roundtrip :
    (values : List Text)
    → select is_scope (map trim_space values) ≢ []
    → split (join_scopes values) ≡ select is_scope (map trim_space values)
unfolding join_scopes
scopes_roundtrip values ne =
    split_kept (select is_scope (map trim_space values)) ne (commas (map trim_space values))
