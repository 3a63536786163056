-- ===== src/Jwt/Access.antt =====
-- Whom the middleware lets pass.
use dilu_go_kit.Base.{
  ◌≡◌, refl, sym, ap, ◌∙◌, ◌⊎◌, inl, inr, List, [], ◌∷◌, Option, none, some, Bool, true, false,
  if◌then◌else◌, Bool-cases,
}
use dilu_go_kit.Base.Int.{ℤ}
use dilu_go_kit.Base.Text.{Text, beq, codes}
use dilu_go_kit.Metadata.{Context}
use dilu_go_kit.Resp.Codes.{token_invalid}
use dilu_go_kit.Jwt.{
  JwtConfig, Claim, Parsed, refused, other_claims, accepted, Library, Request, Gin, Outcome, abort,
  next,
}
use dilu_go_kit.Jwt.Claims.{fields, positive, claim_int64}
use dilu_go_kit.Jwt.Handler.{
  is_trusted, attach_identity, pass, authorization, token_of, parser_options, gin_of, with_claims,
  with_parsed, with_token, trusted_gin, handle,
}

next_inj : {g h : Gin} {c d : Context} → next g c ≡ next h d → (g ≡ h) × (c ≡ d)
next_inj e = (cc, cc)

if_next :
    (b : Bool) (code : ℤ) {g h : Gin} {c d : Context}
    → (if b then next g c else abort code) ≡ next h d
    → (b ≡ true) × (g ≡ h) × (c ≡ d)
if_next true code e = let (same_gin, same_context) = next_inj e in (refl, same_gin, same_context)
if_next false code e = absurd (cc)

-- A test whose positive branch refuses.
unless_abort :
    (b : Bool) (code : ℤ) {o : Outcome} {g : Gin} {c : Context}
    → (if b then abort code else o) ≡ next g c
    → (b ≡ false) × (o ≡ next g c)
unless_abort true code e = absurd (cc)
unless_abort false code e = (refl, e)

module _ {Net Ip : Type 0} (lib : Library Net Ip) (cfg : JwtConfig) where
  -- A token that the parser accepts under the options of the configuration, for a key that is set.
  abbrev pub Bearer : Request → List (Text × Claim) → Type 0
  Bearer r claims =
      (token : Text) × (token_of lib (fields (authorization lib cfg r)) ≡ some token)
      × (beq cfg.secret [] ≡ false)
      × (lib.parse_token (parser_options lib cfg) token ≡ accepted claims)

  -- How a request may pass: by the identity headers, or by a token.
  abbrev pub Passed : Request → Gin → Type 0
  Passed r g =
      ((is_trusted lib cfg r ≡ true) × (g ≡ trusted_gin lib cfg r))
      ⊎ ((claims : List (Text × Claim)) × Bearer r claims
          × (positive (claim_int64 lib claims (codes "uid" ∷ [])) ≡ true)
          × (g ≡ gin_of lib claims (claim_int64 lib claims (codes "uid" ∷ []))))

  claims_pass :
      (r : Request) (claims : List (Text × Claim)) (g : Gin) (ctx : Context)
      → with_claims lib r claims ≡ next g ctx
      → (positive (claim_int64 lib claims (codes "uid" ∷ [])) ≡ true)
        × (g ≡ gin_of lib claims (claim_int64 lib claims (codes "uid" ∷ [])))
        × (ctx ≡ attach_identity lib g r.context)
  unfolding with_claims pass
  claims_pass r claims g ctx h =
      let (good, same_gin, same_context) =
        if_next (positive (claim_int64 lib claims (codes "uid" ∷ []))) token_invalid h in
      (good, sym same_gin, sym same_context ∙ ap (λ x. attach_identity lib x r.context) same_gin)

  parsed_passes :
      (r : Request) (token : Text) (g : Gin) (ctx : Context)
      → token_of lib (fields (authorization lib cfg r)) ≡ some token
      → beq cfg.secret [] ≡ false
      → (parsed : Parsed) → lib.parse_token (parser_options lib cfg) token ≡ parsed
      → with_parsed lib r parsed ≡ next g ctx
      → Passed r g × (ctx ≡ attach_identity lib g r.context)
  unfolding with_parsed
  parsed_passes r token g ctx e keyed refused read h = absurd (cc)
  parsed_passes r token g ctx e keyed other_claims read h = absurd (cc)
  parsed_passes r token g ctx e keyed (accepted claims) read h =
      let (good, same_gin, same_context) = claims_pass r claims g ctx h in
      (inr (claims, (token, e, keyed, read), good, same_gin), same_context)

  -- What a token leads to.
  token_passes :
      (r : Request) (t : Option Text) (g : Gin) (ctx : Context)
      → token_of lib (fields (authorization lib cfg r)) ≡ t
      → with_token lib cfg r t ≡ next g ctx
      → Passed r g × (ctx ≡ attach_identity lib g r.context)
  unfolding with_token
  token_passes r none g ctx e h = absurd (cc)
  token_passes r (some token) g ctx e h =
      let (keyed, passed) = unless_abort (beq cfg.secret []) token_invalid h in
      parsed_passes r token g ctx e keyed (lib.parse_token (parser_options lib cfg) token) refl
        passed

  -- A request that passes does so in one of the two ways, and the metadata of its context has what
  -- the gin context has.
  pub passing :
      (r : Request) (g : Gin) (ctx : Context)
      → handle lib cfg r ≡ next g ctx
      → Passed r g × (ctx ≡ attach_identity lib g r.context)
  unfolding handle pass
  passing r g ctx h = elim (Bool-cases (is_trusted lib cfg r)) [
    | inl trusted ↦
        let (same_gin, same_context) = next_inj (rw trusted at h) in
        (
          inl (trusted, sym same_gin),
          sym same_context ∙ ap (λ x. attach_identity lib x r.context) same_gin,
        )
    | inr doubted ↦
        token_passes r (token_of lib (fields (authorization lib cfg r))) g ctx refl
          (rw doubted at h)
  ]
