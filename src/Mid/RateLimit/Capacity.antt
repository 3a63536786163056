-- ===== src/Mid/RateLimit/Capacity.antt =====
-- The number of clients that the limiter remembers.
use dilu_go_kit.Base.{
  ℕ, suc, ◌+◌, ◌/◌, ◌≤◌, ◌<◌, ◌≡◌, refl, List, [], ◌∷◌, some, arith, length, Option-cases, inl, inr,
  ◌∙◌,
}
use dilu_go_kit.Base.Int.{ℤ}
use dilu_go_kit.Base.Text.{Text}
use dilu_go_kit.Base.Dict.{lookup, insert}
use dilu_go_kit.Mid.RateLimit.{
  Entry, Shard, Limiter, evict, shard_index, handle_shard, handle, cleanup, Event, request, tick,
  step, run, new_limiter, admit, newcomer,
}

length-insert-le : (k : Text) (e : Entry) (m : Shard) → length (insert k e m) ≤ suc (length m)
unfolding insert
length-insert-le k e [] = omega arith
length-insert-le k e ((j, f) ∷ m) = ground (arith, length-insert-le k e m)

length-insert_held :
    (k : Text) (e f : Entry) (m : Shard) → lookup k m ≡ some f → length (insert k e m) ≡ length m
unfolding insert lookup
length-insert_held k e f [] h = cc
length-insert_held k e f ((j, g) ∷ m) h = ground (arith, length-insert_held k e f m)

length-evict-le : (now : ℕ) (m : Shard) → length (evict now m) ≤ length m
unfolding evict
length-evict-le now [] = omega arith
length-evict-le now ((k, e) ∷ m) = ground (arith, length-evict-le now m)

module _ (l : Limiter) (ip : Text) (now : ℕ) (m : Shard) where
  newcomer_capacity :
      0 < l.max_clients
      → length m ≤ l.max_clients / 64 + 1
      → length (newcomer l ip now m).0 ≤ l.max_clients / 64 + 1
  unfolding newcomer admit
  newcomer_capacity pos h = ground (
    arith,
    length-evict-le now m,
    length-insert-le ip (record { count = 1; reset_at = now + l.window }) m,
    length-insert-le ip (record { count = 1; reset_at = now + l.window }) (evict now m),
  )

  handle_capacity :
      0 < l.max_clients
      → length m ≤ l.max_clients / 64 + 1
      → length (handle_shard l ip now m).0 ≤ l.max_clients / 64 + 1
  unfolding handle_shard admit
  handle_capacity pos h = elim (Option-cases (lookup ip m)) [
    | inl absent ↦ rw (absent, handle_shard) (newcomer_capacity pos h)
    | inr (e, held) ↦ rw (held, handle_shard) (rw (length-insert_held ip _ e m held) h)
  ]

-- No shard holds more entries than its share of the limit.
abbrev pub Fits : Limiter → Type 0
Fits l = (i : ℕ) → length (l.shards i) ≤ l.max_clients / 64 + 1

step-Fits : (l : Limiter) (ev : Event) → 0 < l.max_clients → Fits l → Fits (step l ev)
unfolding step handle cleanup
step-Fits l (request ip now) pos h i =
    ground
      (arith, h i, handle_capacity l ip now (l.shards (shard_index ip)) pos (h (shard_index ip)))
step-Fits l (tick now) pos h i = ground (arith, h i, length-evict-le now (l.shards i))

step-clients : (l : Limiter) (ev : Event) → (step l ev).max_clients ≡ l.max_clients
unfolding step handle cleanup
step-clients l (request ip now) = refl
step-clients l (tick now) = refl

run-Fits : (l : Limiter) (es : List Event) → 0 < l.max_clients → Fits l → Fits (run l es)
unfolding run
run-Fits l [] pos h = h
run-Fits l (e ∷ es) pos h =
    run-Fits (step l e) es (omega (arith, step-clients l e)) (step-Fits l e pos h)

run-clients : (l : Limiter) (es : List Event) → (run l es).max_clients ≡ l.max_clients
unfolding run
run-clients l [] = refl
run-clients l (e ∷ es) = run-clients (step l e) es ∙ step-clients l e

-- After any history of requests and clean-ups, a limiter made with any configuration holds at most
-- 1563 entries in each shard.
pub run-capacity :
    (max window : ℤ) (es : List Event) (i : ℕ)
    → length ((run (new_limiter max window) es).shards i) ≤ 1563
unfolding new_limiter
run-capacity max window es i = omega (
  arith,
  run-Fits (new_limiter max window) es (unfold new_limiter in omega arith) (λ j. omega arith) i,
  run-clients (new_limiter max window) es,
)
