-- ===== src/Jwt/Authentication.antt =====
-- Which requests the middleware passes on, and for whom.
use dilu_go_kit.Base.{
  ◌≡◌, ◌≢◌, refl, sym, ap, ◌∙◌, ◌⊎◌, inl, inr, List, [], ◌∷◌, some, true, false, arith, Bool-cases,
}
use dilu_go_kit.Base.Int.{ℤ}
use dilu_go_kit.Base.Text.{Text, beq, beq_iff, codes}
use dilu_go_kit.Metadata.{Context, from}
use dilu_go_kit.Jwt.{JwtConfig, Claim, accepted, Library, Request, Gin, Outcome, abort, next}
use dilu_go_kit.Jwt.Claims.{positive, claim_int64, set_trusted_headers, set_optional_claims}
use dilu_go_kit.Jwt.Handler.{
  is_trusted, parser_options, gin_of, with_claims, with_parsed, with_token, trusted_gin, pass,
  handle, or_zero,
}
use dilu_go_kit.Jwt.Access.{Passed, passing}
use dilu_go_kit.Jwt.Identity.{passed_identity}
use dilu_go_kit.Jwt.Grounds.{
  ByHeaders, ByToken, above_zero, trusted-ByHeaders, ByHeaders-trusted, Credentials-authorization,
  Bearer-ByToken,
}

module _ {Net Ip : Type 0} (lib : Library Net Ip) (cfg : JwtConfig) where
  trusted_uid :
      (r : Request) → (trusted_gin lib cfg r).uid ≡ some (lib.parse_int (r.header cfg.header_uid)).0
  unfolding trusted_gin set_trusted_headers
  trusted_uid r = refl

  claims_uid : (claims : List (Text × Claim)) (n : ℤ) → (gin_of lib claims n).uid ≡ some n
  unfolding gin_of set_optional_claims
  claims_uid claims n = refl

  -- The user that a passed request carries in both of its contexts.
  abbrev pub CarriesUser : Gin → Context → ℤ → Type 0
  CarriesUser g ctx uid = (g.uid ≡ some uid) × ((from ctx).user_id ≡ uid)

  carried :
      (r : Request) (g : Gin) (ctx : Context) (uid : ℤ)
      → handle lib cfg r ≡ next g ctx
      → g.uid ≡ some uid
      → CarriesUser g ctx uid
  carried r g ctx uid h e = (e, (passed_identity lib cfg r g ctx h).1 ∙ ap or_zero e)

  headers_pass :
      (r : Request) (uid : ℤ)
      → ByHeaders lib cfg r uid
      → (g : Gin) × (ctx : Context) × (handle lib cfg r ≡ next g ctx) × CarriesUser g ctx uid
  unfolding handle pass
  headers_pass r uid h =
      let g = trusted_gin lib cfg r in
      let passed : handle lib cfg r ≡ pass lib r g = rw (ByHeaders-trusted lib cfg r uid h) refl in
      (g, _, passed, carried r g _ uid passed (trusted_uid r ∙ ap some h.5))

  -- The user of the headers, or where they are not believed for any user, the user of a token.
  abbrev pub Authenticated : Request → ℤ → Type 0
  Authenticated r uid =
      ByHeaders lib cfg r uid
      ⊎ (ByToken lib cfg r uid × ((other : ℤ) → ¬ ByHeaders lib cfg r other))

  with_good_token :
      (r : Request) (token : Text) (claims : List (Text × Claim))
      → cfg.secret ≢ []
      → lib.parse_token (parser_options lib cfg) token ≡ accepted claims
      → positive (claim_int64 lib claims (codes "uid" ∷ [])) ≡ true
      → with_token lib cfg r (some token)
        ≡ pass lib r (gin_of lib claims (claim_int64 lib claims (codes "uid" ∷ [])))
  unfolding with_token with_parsed with_claims
  with_good_token r token claims keyed read good =
      let key : beq cfg.secret [] ≡ false = ground (arith, keyed, beq_iff cfg.secret []) in
      rw (key, read, good) refl

  doubted :
      (r : Request) → ((other : ℤ) → ¬ ByHeaders lib cfg r other) → is_trusted lib cfg r ≡ false
  doubted r none_by = elim (Bool-cases (is_trusted lib cfg r)) [
    | inl e ↦ absurd (none_by _ (trusted-ByHeaders lib cfg r e))
    | inr e ↦ e
  ]

  token_passes :
      (r : Request) (uid : ℤ)
      → is_trusted lib cfg r ≡ false
      → ByToken lib cfg r uid
      → (g : Gin) × (ctx : Context) × (handle lib cfg r ≡ next g ctx) × CarriesUser g ctx uid
  unfolding handle pass
  token_passes r uid no_headers (scheme, token, claims, named, bearer, keyed, read, user, good) =
      let n = claim_int64 lib claims (codes "uid" ∷ []) in
      let g = gin_of lib claims n in
      let parts = Credentials-authorization lib cfg r (scheme ∷ token ∷ []) named in
      let positive_user : positive n ≡ true = above_zero lib cfg n (rw user good) in
      let passed : handle lib cfg r ≡ pass lib r g =
        rw (no_headers, parts, bearer) (with_good_token r token claims keyed read positive_user) in
      (g, _, passed, carried r g _ uid passed (claims_uid claims n ∙ ap some user))

  Authenticated-pass :
      (r : Request) (uid : ℤ)
      → Authenticated r uid
      → (g : Gin) × (ctx : Context) × (handle lib cfg r ≡ next g ctx) × CarriesUser g ctx uid
  Authenticated-pass r uid (inl h) = headers_pass r uid h
  Authenticated-pass r uid (inr (h, none_by)) = token_passes r uid (doubted r none_by) h

  -- A request that passes is one of a user, whom the contexts have; one that is refused is of nobody.
  abbrev pub Verdict : Request → Outcome → Type 0
  Verdict r (next g ctx) = (uid : ℤ) × Authenticated r uid × CarriesUser g ctx uid
  Verdict r (abort code) = (uid : ℤ) → ¬ Authenticated r uid

  passed_unchanged :
      {g g' : Gin} {ctx ctx' : Context} (uid : ℤ)
      → next g ctx ≡ next g' ctx'
      → CarriesUser g' ctx' uid
      → CarriesUser g ctx uid
  passed_unchanged {g} {g'} {ctx} {ctx'} uid h user =
      let same_gin : g ≡ g' = cc in
      let same_context : ctx ≡ ctx' = cc in
      (ap (λ (x : Gin). x.uid) same_gin ∙ user.0, ap (λ c. (from c).user_id) same_context ∙ user.1)

  passed_by_token :
      (r : Request) (g : Gin) (ctx : Context)
      → handle lib cfg r ≡ next g ctx
      → is_trusted lib cfg r ≡ false
      → Passed lib cfg r g
      → Verdict r (next g ctx)
  passed_by_token r g ctx h no_headers (inl (trusted, e)) = cc
  passed_by_token r g ctx h no_headers (inr (claims, bearer, good, e)) =
      let uid = claim_int64 lib claims (codes "uid" ∷ []) in
      (
        uid,
        inr (
          Bearer-ByToken lib cfg r claims bearer good,
          λ other by. let trusted = ByHeaders-trusted lib cfg r other by in cc,
        ),
        carried r g ctx uid h (ap (λ (x : Gin). x.uid) e ∙ claims_uid claims uid),
      )

  verdict : (r : Request) (o : Outcome) → handle lib cfg r ≡ o → Verdict r o
  verdict r (next g ctx) h = elim (Bool-cases (is_trusted lib cfg r)) [
    | inl e ↦
        let by = trusted-ByHeaders lib cfg r e in
        let (g', ctx', passed, user) = headers_pass r _ by in
        (_, inl by, passed_unchanged _ (sym h ∙ passed) user)
    | inr e ↦ passed_by_token r g ctx h e (passing lib cfg r g ctx h).0
  ]
  verdict r (abort code) h = λ uid auth.
      let (g, ctx, passed, user) = Authenticated-pass r uid auth in let wrong = sym h ∙ passed in cc

  -- The middleware passes on exactly the requests of a user, and refuses all others. A request is a
  -- user's by its identity headers: they are configured and trusted, every text that stands for a
  -- network is one, the request's address is in one of them if there are any, and what ParseInt
  -- reads from the header, whatever its error, is above 0, the user. Or, if the headers are not believed for any user, by a token: the
  -- header Authorization, or where it is empty and a websocket may use it the query, has two
  -- parts, the scheme Bearer and a token that jwt.Parse accepts for a key that is not empty and the
  -- issuer, the subject and the audience of the configuration, with the user, above 0, as its claim
  -- uid. A request that is passed on has this user in the gin context and in the metadata of its
  -- context.
  pub only_authenticated : (r : Request) → Verdict r (handle lib cfg r)
  only_authenticated r = verdict r (handle lib cfg r) refl
