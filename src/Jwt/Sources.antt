-- ===== src/Jwt/Sources.antt =====
-- contrib/mid/jwt/jwt.go: the sources from which identity headers are believed.
use dilu_go_kit.Base.{
  ◌≡◌, ◌≢◌, refl, sym, ◌∙◌, ◌⊎◌, inl, inr, List, [], ◌∷◌, Option, none, some, Bool, true, All,
  arith, Option-cases, Bool-cases,
}
use dilu_go_kit.Base.Text.{Text, beq_iff, trim_space}
use dilu_go_kit.Jwt.{Library, Request}
use dilu_go_kit.Jwt.Handler.{
  cidr_of, parse_trusted_cidrs, in_any, in_any_of, text_or, trusted_header_source_allowed,
}

module _ {Net Ip : Type 0} (lib : Library Net Ip) where
  -- The text is a network, up to the spaces around it.
  abbrev pub Names : Text → Net → Type 0
  Names v net = (trim_space v ≢ []) × (lib.parse_cidr (trim_space v) ≡ some net)

  abbrev pub AreNetworks : List Text → Type 0
  AreNetworks = All (λ v. (net : Net) × Names v net)

  -- One of the networks contains the address.
  abbrev pub Covers : List Text → Ip → Type 0
  Covers [] ip = ⊥
  Covers (v ∷ vs) ip = ((net : Net) × Names v net × (lib.in_net net ip ≡ true)) ⊎ Covers vs ip

  -- The host of the remote address, which is all of it where it has no port.
  abbrev pub IsHost : Request → Text → Type 0
  IsHost r host =
      (lib.split_host r.remote_addr ≡ some host)
      ⊎ ((lib.split_host r.remote_addr ≡ none) × (host ≡ r.remote_addr))

  -- The request comes from one of the networks, if there are any.
  abbrev pub ComesFrom : Request → List Text → Type 0
  ComesFrom r vs =
      (vs ≡ [])
      ⊎ ((host : Text) × (ip : Ip) × IsHost r host × (lib.parse_ip host ≡ some ip) × Covers vs ip)

  named : (v : Text) (net : Net) → cidr_of lib v ≡ some net → Names v net
  named v net h = ground (arith, h, beq_iff (trim_space v) [])

  read_name : (v : Text) (net : Net) → Names v net → cidr_of lib v ≡ some net
  read_name v net (filled, h) = ground (arith, h, filled, beq_iff (trim_space v) [])

  pub networks_valid : (vs : List Text) → (parse_trusted_cidrs lib vs).1 ≡ true → AreNetworks vs
  unfolding parse_trusted_cidrs
  networks_valid [] h = tt
  networks_valid (v ∷ vs) h = elim (Option-cases (cidr_of lib v)) [
    | inl e ↦ let wrong = rw e at h in cc
    | inr (net, e) ↦ ((net, named v net e), networks_valid vs (rw e at h))
  ]

  pub valid_networks : (vs : List Text) → AreNetworks vs → (parse_trusted_cidrs lib vs).1 ≡ true
  unfolding parse_trusted_cidrs
  valid_networks [] h = refl
  valid_networks (v ∷ vs) ((net, name), h) = rw (read_name v net name) (valid_networks vs h)

  covered :
      (vs : List Text) (ip : Ip)
      → in_any lib (parse_trusted_cidrs lib vs).0 ip ≡ true
      → Covers vs ip
  unfolding parse_trusted_cidrs
  covered [] ip h = cc
  covered (v ∷ vs) ip h = elim (Option-cases (cidr_of lib v)) [
    | inl e ↦ inr (covered vs ip (rw e at h))
    | inr (net, e) ↦
        let found = rw e at h in
        elim (Bool-cases (lib.in_net net ip)) [
          | inl yes_in ↦ inl (net, named v net e, yes_in)
          | inr not_in ↦ inr (covered vs ip (rw not_in at found))
        ]
  ]

  covering :
      (vs : List Text) (ip : Ip)
      → Covers vs ip
      → in_any lib (parse_trusted_cidrs lib vs).0 ip ≡ true
  unfolding parse_trusted_cidrs
  covering [] ip h = absurd h
  covering (v ∷ vs) ip (inl (net, name, h)) = rw (read_name v net name, h) refl
  covering (v ∷ vs) ip (inr h) = elim (Option-cases (cidr_of lib v)) [
    | inl e ↦ rw e (covering vs ip h)
    | inr (net, e) ↦ rw e (ground (arith, covering vs ip h))
  ]

  -- What trustedHeaderSourceAllowed tests where there are networks.
  inside : Request → List Net → Bool
  inside r nets =
      in_any_of lib nets (lib.parse_ip (text_or lib r.remote_addr (lib.split_host r.remote_addr)))

  allowed_inside :
      (r : Request) (nets : List Net)
      → nets ≢ []
      → trusted_header_source_allowed lib r nets ≡ inside r nets
  unfolding trusted_header_source_allowed inside
  allowed_inside r [] h = absurd (h refl)
  allowed_inside r (net ∷ nets) h = refl

  some_networks :
      (v : Text) (vs : List Text) → AreNetworks (v ∷ vs) → (parse_trusted_cidrs lib (v ∷ vs)).0 ≢ []
  unfolding parse_trusted_cidrs
  some_networks v vs ((net, name), h) e = let wrong = rw (read_name v net name) at e in cc

  split-IsHost :
      (r : Request) (split : Option Text)
      → lib.split_host r.remote_addr ≡ split
      → IsHost r (text_or lib r.remote_addr split)
  split-IsHost r none e = inr (e, refl)
  split-IsHost r (some host) e = inl e

  host_unique :
      (r : Request) (host : Text)
      → IsHost r host
      → text_or lib r.remote_addr (lib.split_host r.remote_addr) ≡ host
  host_unique r host (inl e) = rw e refl
  host_unique r host (inr (e, same)) = rw e (sym same)

  any_of :
      (nets : List Net) (o : Option Ip)
      → in_any_of lib nets o ≡ true
      → (ip : Ip) × (o ≡ some ip) × (in_any lib nets ip ≡ true)
  any_of nets none h = cc
  any_of nets (some ip) h = (ip, refl, h)

  pub allowed-ComesFrom :
      (r : Request) (vs : List Text)
      → AreNetworks vs
      → trusted_header_source_allowed lib r (parse_trusted_cidrs lib vs).0 ≡ true
      → ComesFrom r vs
  unfolding inside
  allowed-ComesFrom r [] valid h = inl refl
  allowed-ComesFrom r (v ∷ vs) valid h =
      let nets = (parse_trusted_cidrs lib (v ∷ vs)).0 in
      let (ip, parsed, found) =
        any_of nets _ (sym (allowed_inside r nets (some_networks v vs valid)) ∙ h) in
      inr (
        _,
        ip,
        split-IsHost r (lib.split_host r.remote_addr) refl,
        parsed,
        covered (v ∷ vs) ip found,
      )

  pub ComesFrom-allowed :
      (r : Request) (vs : List Text)
      → AreNetworks vs
      → ComesFrom r vs
      → trusted_header_source_allowed lib r (parse_trusted_cidrs lib vs).0 ≡ true
  unfolding inside trusted_header_source_allowed parse_trusted_cidrs
  ComesFrom-allowed r [] valid h = refl
  ComesFrom-allowed r (v ∷ vs) valid (inl e) = cc
  ComesFrom-allowed r (v ∷ vs) valid (inr (host, ip, is_host, parsed, covers)) =
      let nets = (parse_trusted_cidrs lib (v ∷ vs)).0 in
      allowed_inside r nets (some_networks v vs valid)
      ∙ rw (host_unique r host is_host, parsed) (covering (v ∷ vs) ip covers)
