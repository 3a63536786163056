-- ===== src/Registry/Keys/RoundTrip.antt =====
-- The keys of services that validateService accepts.
use dilu_go_kit.Base.{
  ℕ, [], ◌∷◌, ◌++◌, Option, none, some, true, false, ltb, arith, ◌≡◌, ◌≢◌, inl, inr, Bool-cases,
  refl, sym, ap, ◌∙◌, append_assoc,
}
use dilu_go_kit.Base.Int.{ℤ}
use dilu_go_kit.Base.Result.{ok, >>=-eq-ok}
use dilu_go_kit.Base.Text.{
  Text, beq, contains, has_control, len, has_prefix, drop_prefix, has_prefix-append,
  drop_prefix-append,
}
use dilu_go_kit.Registry.{Service}
use dilu_go_kit.Registry.Keys.{
  validate_service_name, validate_service, version_check, instance_check, service_key,
  service_prefix_key, service_instance_from_key,
}

-- The text before the first `/`, and the rest.
before_slash :
    (n id m jd : Text)
    → contains b'/' n ≡ false
    → contains b'/' m ≡ false
    → n ++ b'/' ∷ id ≡ m ++ b'/' ∷ jd
    → (n ≡ m) × (id ≡ jd)
unfolding contains
before_slash [] id [] jd hn hm e = ground (arith, e)
before_slash [] id (c ∷ m) jd hn hm e = ground (arith, e, hm)
before_slash (c ∷ n) id [] jd hn hm e = ground (arith, e, hn)
before_slash (c ∷ n) id (d ∷ m) jd hn hm e = ground (arith, e, hn, hm, before_slash n id m jd)

prefix_inj : (p s t : Text) → p ++ s ≡ p ++ t → s ≡ t
prefix_inj [] s t e = e
prefix_inj (c ∷ p) s t e = prefix_inj p s t (cc)

instance_checked :
    (id : Text)
    → instance_check id ≡ ok tt
    → (beq id [] ≡ false)
      × (ltb 256 (len id) ≡ false)
      × (contains b'/' id ≡ false)
      × (has_control id ≡ false)
instance_checked id h = ground (arith, h)

name_checked : (n : Text) → validate_service_name n ≡ ok tt → contains b'/' n ≡ false
unfolding validate_service_name
name_checked n h = ground (arith, h)

nonempty : (p s : Text) (c : ℕ) (r : Text) → beq (p ++ (s ++ c ∷ r)) [] ≡ false
unfolding beq
nonempty [] [] c r = refl
nonempty [] (d ∷ s) c r = refl
nonempty (d ∷ p) s c r = refl

prefix_key_there : (prefix n : Text) → beq (service_prefix_key prefix n) [] ≡ false
unfolding service_prefix_key
prefix_key_there prefix n = nonempty prefix n b'/' []

key_split : (prefix n id : Text) → service_key prefix n id ≡ service_prefix_key prefix n ++ id
unfolding service_key service_prefix_key
key_split prefix n id = sym (
    append_assoc prefix (n ++ b'/' ∷ []) id ∙ ap (λ r. prefix ++ r) (append_assoc n (b'/' ∷ []) id))

found :
    (p id : Text)
    → beq p [] ≡ false
    → (beq id [] ≡ false)
      × (ltb 256 (len id) ≡ false)
      × (contains b'/' id ≡ false)
      × (has_control id ≡ false)
    → service_instance_from_key p (p ++ id) ≡ some id
unfolding service_instance_from_key
found p id there checks =
    rw (has_prefix-append p id, drop_prefix-append p id) (ground (arith, there, checks))

prefix_rest : (p s : Text) → has_prefix p s ≡ true → s ≡ p ++ drop_prefix p s
unfolding has_prefix drop_prefix
prefix_rest [] s h = refl
prefix_rest (c ∷ p) [] h = cc
prefix_rest (c ∷ p) (d ∷ s) h = ground (arith, prefix_rest p s, h)

-- A key that begins with the key prefix of another name is none of a name without a `/`.
foreign_key :
    (prefix n m id : Text)
    → contains b'/' n ≡ false
    → contains b'/' m ≡ false
    → n ≢ m
    → service_instance_from_key (service_prefix_key prefix n) (service_key prefix m id) ≡ none
foreign_key prefix n m id hn hm ne =
    let p = service_prefix_key prefix n in
    let key = service_key prefix m id in
    elim (Bool-cases (has_prefix p key)) [
      | inl begins ↦
          let same = prefix_rest p key begins ∙ sym (key_split prefix n (drop_prefix p key)) in
          absurd (
            ne (
              sym
                (before_slash m id n (drop_prefix p key) hm hn
                  (prefix_inj prefix _ _ (unfold service_key in same))).0))
      | inr other ↦ unfold service_instance_from_key in rw other (ground arith)
    ]

module _ (split_port : Text → Option Text) (atoi : Text → Option ℤ) where
  abbrev pub IsValid : Service → Type 0
  IsValid s = validate_service split_port atoi s ≡ ok tt

  valid_name : (s : Service) → IsValid s → contains b'/' s.name ≡ false
  unfolding validate_service
  valid_name s v =
      let (u, e, rest) = >>=-eq-ok _ (validate_service_name s.name) v in name_checked s.name e

  valid_instance : (s : Service) → IsValid s → instance_check s.instance_id ≡ ok tt
  unfolding validate_service
  valid_instance s v =
      let (u, e, rest) = >>=-eq-ok _ (validate_service_name s.name) v in
      let (u', e', rest') = >>=-eq-ok _ (version_check s.version) rest in
      let (u'', e'', rest'') = >>=-eq-ok _ (instance_check s.instance_id) rest' in e''

  own_key :
      (prefix : Text) (s : Service)
      → IsValid s
      → service_instance_from_key
          (service_prefix_key prefix s.name)
          (service_key prefix s.name s.instance_id)
        ≡ some s.instance_id
  own_key prefix s v =
      let id = s.instance_id in
      ap (service_instance_from_key (service_prefix_key prefix s.name)) (key_split prefix s.name id)
      ∙ found (service_prefix_key prefix s.name) id (prefix_key_there prefix s.name)
          (instance_checked id (valid_instance s v))

  -- Of services that validateService accepts: a key reads back as the instance it was made for under
  -- the key prefix of its service; equal keys have equal names and instances; and under the key
  -- prefix of a service no key of a service with another name is read as an instance.
  pub service_keys :
      (prefix : Text) (s t : Service)
      → IsValid s
      → IsValid t
      → (service_instance_from_key
            (service_prefix_key prefix s.name)
            (service_key prefix s.name s.instance_id)
          ≡ some s.instance_id)
        × (service_key prefix s.name s.instance_id ≡ service_key prefix t.name t.instance_id
            → (s.name ≡ t.name) × (s.instance_id ≡ t.instance_id))
        × (s.name ≢ t.name
            → service_instance_from_key
                (service_prefix_key prefix s.name)
                (service_key prefix t.name t.instance_id)
              ≡ none)
  service_keys prefix s t v w = (
    own_key prefix s v,
    λ e.
        before_slash s.name s.instance_id t.name t.instance_id (valid_name s v) (valid_name t w)
          (prefix_inj prefix _ _ (unfold service_key in e)),
    λ ne. foreign_key prefix s.name t.name t.instance_id (valid_name s v) (valid_name t w) ne,
  )

pub key_of_instance : (p key id : Text) → service_instance_from_key p key ≡ some id → key ≡ p ++ id
unfolding service_instance_from_key
key_of_instance p key id e = ground (arith, e, prefix_rest p key)
