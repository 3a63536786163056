-- ===== src/Mid/Concurrency.antt =====
-- mid/grpc_policy.go: GRPCConcurrencyLimiter. A nil limiter, as NewGRPCConcurrencyLimiter returns for
-- a limit that is not positive, is `none`; the channel is a count of its elements.
use dilu_go_kit.Base.{
  ℕ, zero, suc, ◌+◌, ◌-◌, ◌≤◌, List, [], ◌∷◌, Option, none, some, Bool, true, false, ◌||◌,
  if◌then◌else◌, ltb, ◌==◌, ◌≡◌, refl, ◌⊎◌, inl, inr, arith, Bool-cases,
}
use dilu_go_kit.Base.Int.{ℤ, pos, negsuc, leb_ℤ, ltb_ℤ}

pub record Limiter : Type 0 where
  pub limit : ℕ
  pub held : ℕ

-- NewGRPCConcurrencyLimiter
unfoldable pub new_limiter : ℤ → Option Limiter
new_limiter (pos n) = if n == 0 then none else some (record { limit = n; held = 0 })
new_limiter (negsuc n) = none

-- The select of Unary and Stream: the limiter after it, and whether the handler runs; where it does
-- not, the call fails with ResourceExhausted.
unfoldable pub acquire : Option Limiter → Option Limiter × Bool
acquire none = (none, true)
acquire (some l) =
    if ltb l.held l.limit then (some (record l { held = l.held + 1 }), true) else (some l, false)

-- The deferred receive, when the handler returns or panics.
unfoldable pub release : Option Limiter → Option Limiter
release none = none
release (some l) = some (record l { held = l.held - 1 })

-- The limiter, and how many handlers run.
pub record System : Type 0 where
  pub limiter : Option Limiter
  pub running : ℕ

-- A call arrives, or one of the running handlers ends.
pub data Event : Type 0 where
  arrive finish : Event

abbrev pub admitted : ℕ → Option Limiter × Bool → System
admitted n (l, true) = record { limiter = l; running = n + 1 }
admitted n (l, false) = record { limiter = l; running = n }

unfoldable pub step : System → Event → System
unfolding acquire release
step s arrive = admitted s.running (acquire s.limiter)
step s finish =
    if s.running == 0 then s else record { limiter = release s.limiter; running = s.running - 1 }

unfoldable pub run : System → List Event → System
run s [] = s
run s (e ∷ es) = run (step s e) es

-- The channel has one element for each running handler.
abbrev Counts : ℤ → System → Type 0
Counts limit s =
    ((s.limiter ≡ none) × (leb_ℤ limit (pos 0) ≡ true))
    ⊎ ((n : ℕ) × (limit ≡ pos (suc n))
        × (s.limiter ≡ some (record { limit = suc n; held = s.running }))
        × (s.running ≤ suc n))

start-Counts : (limit : ℤ) → Counts limit (record { limiter = new_limiter limit; running = 0 })
unfolding new_limiter
start-Counts (pos zero) = inl (refl, refl)
start-Counts (pos (suc n)) = inr (n, refl, ground arith, omega arith)
start-Counts (negsuc n) = inl (refl, ground arith)

step-Counts : (limit : ℤ) (s : System) (e : Event) → Counts limit s → Counts limit (step s e)
unfolding step acquire release
step-Counts limit s arrive (inl (nil, low)) = inl (rw (nil, acquire) refl, low)
step-Counts limit s finish (inl (nil, low)) = inl (ground (arith, nil), low)
step-Counts limit s arrive (inr (n, e, l, le)) = elim (Bool-cases (ltb s.running (suc n))) [
  | inl room ↦ inr (n, e, ground (arith, l, room), ground (arith, l, room, le))
  | inr full ↦ inr (n, e, ground (arith, l, full), ground (arith, l, full, le))
]
step-Counts limit s finish (inr (n, e, l, le)) = inr (n, e, ground (arith, l), ground (arith, le))

run-Counts : (limit : ℤ) (s : System) (es : List Event) → Counts limit s → Counts limit (run s es)
unfolding run
run-Counts limit s [] h = h
run-Counts limit s (e ∷ es) h = run-Counts limit (step s e) es (step-Counts limit s e h)

counted :
    (limit : ℤ) (s : System)
    → Counts limit s
    → ((acquire s.limiter).1 ≡ (leb_ℤ limit (pos 0) || ltb_ℤ (pos s.running) limit))
      × ((leb_ℤ limit (pos 0) || leb_ℤ (pos s.running) limit) ≡ true)
unfolding acquire
counted limit s (inl (nil, low)) = (ground (arith, nil, low), ground (arith, low))
counted limit s (inr (n, e, l, le)) = (ground (arith, e, l, le), ground (arith, e, le))

-- After any sequence of calls that arrive and handlers that end, on a limiter made with any limit:
-- the next call is let through exactly when the limit is not positive or fewer handlers run than the
-- limit allows, and the handlers that run are never more than a positive limit.
pub run-admits :
    (limit : ℤ) (es : List Event)
    → let s = run (record { limiter = new_limiter limit; running = 0 }) es in
      ((acquire s.limiter).1 ≡ (leb_ℤ limit (pos 0) || ltb_ℤ (pos s.running) limit))
      × ((leb_ℤ limit (pos 0) || leb_ℤ (pos s.running) limit) ≡ true)
run-admits limit es = counted limit _ (run-Counts limit _ es (start-Counts limit))
