-- ===== src/Registry/Resolver/Rotation.antt =====
-- Round robin: which instances a number of calls in a row select.
use dilu_go_kit.Base.{
  ℕ, zero, suc, ◌+◌, ◌%◌, ◌^◌, ◌≤◌, ◌<◌, ◌≡◌, refl, sym, ap, ◌∙◌, List, [], ◌∷◌, ◌++◌, map, some,
  true, ltb, length, get_elem?, arith, append_assoc, append-nil, length-append,
}
use native.Mathlib.Nat.{mod-eq_of_lt, mod-add-mod, add-mod_right}
use dilu_go_kit.Registry.{Service}
use dilu_go_kit.Registry.Resolver.{
  Resolver, round_robin, Answer, picked, resolve, resolve_many, signed_mod, answer, pick_at,
}

abbrev pub at : List Service → ℕ → Resolver
at ss n = record { services = ss; policy = round_robin; next = n }

pick_at_found :
    (ss : List Service) (i : ℕ) (s : Service)
    → get_elem? ss i ≡ some s
    → pick_at ss (some i) ≡ picked s
pick_at_found ss i s e = rw (e, pick_at) refl

-- One call: the instance at the counter's remainder, and the counter moves on.
resolve_once :
    (ss : List Service) (n : ℕ) (s : Service)
    → n < 2 ^ 63
    → get_elem? ss (n % length ss) ≡ some s
    → resolve (at ss n) ≡ (at ss (n + 1), picked s)
unfolding resolve signed_mod answer
resolve_once [] n s h e = cc
resolve_once (x ∷ ss) n s h e =
    let below : ltb n (2 ^ 63) ≡ true = ground arith in
    let same : (n + 1) % 2 ^ 64 ≡ n + 1 = omega arith in
    rw (below, same) (ap (λ (y : Answer). (at (x ∷ ss) (n + 1), y)) (pick_at_found (x ∷ ss) _ s e))

get_elem-append {ℓ} :
    {A : Type ℓ} (xs ys : List A) (a : A) → get_elem? (xs ++ a ∷ ys) (length xs) ≡ some a
get_elem-append [] ys a = refl
get_elem-append (x ∷ xs) ys a = get_elem-append xs ys a

-- Calls from the position of the first instance of `mid` answer `mid`.
walk :
    (ss pre mid post : List Service) (n : ℕ)
    → ss ≡ pre ++ (mid ++ post)
    → n % length ss ≡ length pre % length ss
    → n + length mid ≤ 2 ^ 63
    → resolve_many (length mid) (at ss n) ≡ (at ss (n + length mid), map picked mid)
unfolding resolve_many
walk ss pre [] post n e m room = ap (λ (k : ℕ). (at ss k, [])) (omega arith)
walk ss pre (x ∷ mid) post n e m room =
    let short : length pre < length ss =
      omega (arith, ap length e, length-append pre (x ∷ (mid ++ post))) in
    let here : get_elem? ss (n % length ss) ≡ some x =
      ap (get_elem? ss) (m ∙ mod-eq_of_lt short)
      ∙ ap (λ l. get_elem? l (length pre)) e
      ∙ get_elem-append pre (mid ++ post) x in
    let once = resolve_once ss n x (omega arith) here in
    let next =
      walk ss (pre ++ x ∷ []) mid post (n + 1) (e ∙ sym (append_assoc pre (x ∷ []) (mid ++ post)))
        (sym (mod-add-mod n (length ss) 1)
          ∙ ap (λ r. (r + 1) % length ss) m
          ∙ mod-add-mod (length pre) (length ss) 1
          ∙ ap (λ r. r % length ss) (sym (length-append pre (x ∷ []))))
        (omega arith) in
    rw (once, next) (ap (λ (k : ℕ). (at ss k, picked x ∷ map picked mid)) (omega arith))

resolve_many-add :
    (a b : ℕ) (r : Resolver)
    → resolve_many (a + b) r ≡ (
        let first = resolve_many a r in
        let second = resolve_many b first.0 in (second.0, first.1 ++ second.1))
unfolding resolve_many
resolve_many-add zero b r =
    let same : 0 + b ≡ b = omega arith in ap (λ (k : ℕ). resolve_many k r) same
resolve_many-add (suc a) b r =
    let same : suc a + b ≡ suc (a + b) = omega arith in
    ap (λ (k : ℕ). resolve_many k r) same
    ∙ ap (λ (y : Resolver × List Answer). (y.0, (resolve r).1 ∷ y.1))
        (resolve_many-add a b (resolve r).0)

-- With round robin and a fixed list of services, as many calls of Resolve in a row as there are
-- services return each of them exactly once, in the order of the list, turned to begin at the
-- counter's remainder by the length, as long as the counter stays within 2^63.
pub rotation :
    (pre post : List Service) (n : ℕ)
    → n % length (pre ++ post) ≡ length pre % length (pre ++ post)
    → n + length (pre ++ post) ≤ 2 ^ 63
    → resolve_many (length post + length pre) (at (pre ++ post) n)
      ≡ (at (pre ++ post) (n + length (pre ++ post)), map picked post ++ map picked pre)
rotation pre post n m room =
    let ss = pre ++ post in
    let total = length-append pre post in
    let whole = ap (λ l. pre ++ l) (sym (append-nil post)) in
    let back = walk ss pre post [] n whole m (omega (arith, total)) in
    let around : length pre + length post ≡ 0 + length ss = omega (arith, total) in
    let turned =
      sym (mod-add-mod n (length ss) (length post))
      ∙ ap (λ r. (r + length post) % length ss) m
      ∙ mod-add-mod (length pre) (length ss) (length post)
      ∙ ap (λ k. k % length ss) around
      ∙ add-mod_right 0 (length ss) in
    let home = walk ss [] pre post (n + length post) refl turned (omega (arith, total)) in
    let count : n + length post + length pre ≡ n + length ss = omega (arith, total) in
    resolve_many-add (length post) (length pre) (at ss n)
    ∙ rw (back, home) (ap (λ (k : ℕ). (at ss k, map picked post ++ map picked pre)) count)
