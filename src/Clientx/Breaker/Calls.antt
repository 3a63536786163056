-- ===== src/Clientx/Breaker/Calls.antt =====
-- Calls of Do one after another, and the ways in which an open breaker answers.
use dilu_go_kit.Base.{
  ℕ, ◌+◌, ◌<◌, ◌≡◌, refl, ◌∙◌, ◌++◌, Bool, true, false, some, List, [], ◌∷◌, arith, ◌==◌,
  if◌then◌else◌, length, All, leb,
}
use dilu_go_kit.Errors.{Error, nil, sentinel, circuit_open, is_nil}
use dilu_go_kit.Clientx.Breaker.{closed, opened, Breaker, do_call, u64}

-- A call whose context is live: the operation's result, and the times of its start and its end.
pub record Call : Type 0 where
  pub result : Error
  pub starts : ℕ
  pub ends : ℕ

unfoldable pub calls : Breaker → List Call → Breaker
calls b [] = b
calls b (c ∷ cs) = calls (do_call b nil (some c.result) c.starts c.ends).0 cs

-- A call that fails with an error that the breaker counts.
abbrev pub Fails : (Error → Bool) → Call → Type 0
Fails count c = (is_nil c.result ≡ false) × (count c.result ≡ true)

-- The breaker after n more counted failures, and after the one that reaches the threshold.
abbrev pub failed : Breaker → ℕ → Breaker
failed b n = record b { failures = b.failures + n }

abbrev pub tripped : Breaker → ℕ → ℕ → Breaker
tripped b n now = record b {
  failures = b.failures + n;
  state = opened;
  open_until = now + b.cooldown;
  generation = u64 (b.generation + 1);
  published = opened;
}

-- One counted failure of a closed breaker.
failing_call :
    (b : Breaker) (c : Call)
    → b.state ≡ closed
    → Fails b.should_count c
    → (do_call b nil (some c.result) c.starts c.ends).0
      ≡ (if leb b.threshold (b.failures + 1) then tripped b 1 c.ends else failed b 1)
unfolding do_call
failing_call b c e f = ground arith

failing_below :
    (b : Breaker) (c : Call)
    → b.state ≡ closed
    → Fails b.should_count c
    → b.failures + 1 < b.threshold
    → (do_call b nil (some c.result) c.starts c.ends).0 ≡ failed b 1
failing_below b c e f h = ground (arith, failing_call b c e f)

failed_add : (b : Breaker) (m n k : ℕ) → m + n ≡ k → failed (failed b m) n ≡ failed b k
failed_add b m n k h = ground arith

failures_below :
    (b : Breaker) (cs : List Call)
    → b.state ≡ closed
    → All (Fails b.should_count) cs
    → b.failures + length cs < b.threshold
    → calls b cs ≡ failed b (length cs)
unfolding calls
failures_below b [] e f h = ground arith
failures_below b (c ∷ cs) e f h = rw (failing_below b c e f.0 (omega arith)) (
    failures_below (failed b 1) cs e f.1 (omega arith) ∙ failed_add b 1 (length cs) _ (omega arith))

calls-append : (b : Breaker) (cs ds : List Call) → calls b (cs ++ ds) ≡ calls (calls b cs) ds
unfolding calls
calls-append b [] ds = refl
calls-append b (c ∷ cs) ds = calls-append (do_call b nil (some c.result) c.starts c.ends).0 cs ds

-- Counted failures in a row, of calls that do not overlap, on a closed breaker, which without the
-- last one stay below its threshold: the breaker stays closed and counts them if the last one does
-- not reach the threshold either; if it does, it opens the breaker for the cooldown from that
-- call's end, under a new generation.
pub consecutive_failures :
    (b : Breaker) (cs : List Call) (c : Call)
    → b.state ≡ closed
    → All (Fails b.should_count) cs
    → Fails b.should_count c
    → b.failures + length cs < b.threshold
    → calls b (cs ++ c ∷ []) ≡ (
        let n = length cs + 1 in
        if b.failures + n == b.threshold then tripped b n c.ends else failed b n)
unfolding calls
consecutive_failures b cs c e fs f h =
    rw (calls-append b cs (c ∷ []), failures_below b cs e fs h)
      (ground (arith, failing_call (failed b (length cs)) c e f))

-- An open breaker whose probe flag is down, and a call of Do with a live context: before the
-- cooldown is over the operation does not run and nothing changes; after it the operation runs as a
-- probe, and nil closes the breaker with no failure counted, while any error, counted or not, opens
-- it for another cooldown. Either way the generation moves on.
pub opened_call :
    (b : Breaker) (c : Call)
    → b.state ≡ opened
    → b.half_open_probe ≡ false
    → do_call b nil (some c.result) c.starts c.ends ≡ (
        if leb b.open_until c.starts
        then (
          if is_nil c.result
              then record b {
                state = closed;
                failures = 0;
                generation = u64 (b.generation + 1);
                published = closed;
              }
              else tripped b 0 c.ends,
          record { result = c.result; called = true },
        )
        else (b, record { result = sentinel circuit_open; called = false }))
unfolding do_call
opened_call b c e h = ground arith
