-- ===== src/Clientx/Retry/Attempts.antt =====
-- Which attempts the retry loop makes, and what it returns.
use dilu_go_kit.Base.{
  ℕ, zero, suc, ◌+◌, ◌≤◌, ◌<◌, ◌≡◌, ◌⊎◌, ◌≢◌, refl, Bool, true, false, arith, All, inl, inr,
}
use native.Mathlib.Nat.{zero-add}
use dilu_go_kit.Base.{ap, sym, ◌∙◌}
use dilu_go_kit.Base.Int.{ℤ, pos, ◌≤ℤ◌, pos_part}
use dilu_go_kit.Base.Float.{Float64}
use dilu_go_kit.Errors.{Error, nil, is_nil, is_nil_lem}
use dilu_go_kit.Clientx.Retry.{
  RetryConfig, World, Outcome, round, loop, run_retry, normalize, or_default, next_backoff,
  jitter_backoff,
}
use dilu_go_kit.Clientx.Retry.Config.{attempts_form}

module _ (f : Float64) (retry : Error → Bool) (w : World f) where
  abbrev Quiet : Type 0
  Quiet = (i : ℕ) → (is_nil (w.ctx_err i) ≡ true) × (is_nil (w.slept i) ≡ true)

  round-called-le :
      (left attempt : ℕ) (pause : ℤ) (rest : Outcome)
      → (round f retry w left attempt pause rest).called ≤ suc rest.called
  unfolding round
  round-called-le left attempt pause rest = ground arith

  -- A second call is made only after an error that is to be retried.
  round_again :
      (left attempt : ℕ) (pause : ℤ) (rest : Outcome)
      → 1 < (round f retry w left attempt pause rest).called
      → (is_nil (w.fn attempt) ≡ false) × (retry (w.fn attempt) ≡ true)
  unfolding round
  round_again left attempt pause rest h = ground arith

  round_nil :
      (left attempt : ℕ) (pause : ℤ) (rest : Outcome)
      → is_nil (round f retry w left attempt pause rest).result ≡ true
      → (((round f retry w left attempt pause rest).called ≡ 1) × (is_nil (w.fn attempt) ≡ true))
        ⊎ (((round f retry w left attempt pause rest).called ≡ suc rest.called)
            × (is_nil (w.fn attempt) ≡ false)
            × (is_nil rest.result ≡ true))
  unfolding round
  round_nil left attempt pause rest h = ground arith

  round_quiet :
      (left attempt : ℕ) (pause : ℤ) (rest : Outcome)
      → Quiet
      → (((round f retry w left attempt pause rest).called ≡ 1)
          × ((round f retry w left attempt pause rest).result ≡ w.fn attempt)
          × ((is_nil (w.fn attempt) ≡ true) ⊎ ((retry (w.fn attempt) ≡ false) ⊎ (left ≡ 0))))
        ⊎ (((round f retry w left attempt pause rest).called ≡ suc rest.called)
            × ((round f retry w left attempt pause rest).result ≡ rest.result)
            × (left ≢ 0))
  unfolding round
  round_quiet left attempt pause rest q = ground (arith, q attempt, is_nil_lem (w.fn attempt))

  round-sleeps :
      (left attempt : ℕ) (pause hi : ℤ) (rest : Outcome)
      → pause ≤ℤ hi
      → All (λ d. d ≤ℤ hi) rest.sleeps
      → All (λ d. d ≤ℤ hi) (round f retry w left attempt pause rest).sleeps
  unfolding round
  round-sleeps left attempt pause hi rest p h = ground arith

module _ (f : Float64) (cfg : RetryConfig f) (retry : Error → Bool) (w : World f) where
  -- The sleep asked for at an attempt, and the outcome of the attempts after it.
  abbrev pause_at : ℕ → ℤ → ℤ
  pause_at attempt backoff = jitter_backoff f (w.random attempt) backoff cfg.jitter_fraction

  abbrev grown : ℤ → ℤ
  grown backoff = next_backoff f backoff cfg.max_backoff cfg.multiplier

  loop-called-le :
      (left attempt : ℕ) (backoff : ℤ) (last : Error)
      → (loop f cfg retry w left attempt backoff last).called ≤ left
  unfolding loop
  loop-called-le zero attempt backoff last = omega arith
  loop-called-le (suc left) attempt backoff last = omega (
    arith,
    round-called-le f retry w left attempt (pause_at attempt backoff)
        (loop f cfg retry w left (attempt + 1) (grown backoff) (w.fn attempt)),
    loop-called-le left (attempt + 1) (grown backoff) (w.fn attempt),
  )

  -- Every call but the last failed in a way that is to be retried.
  loop_retried :
      (left attempt : ℕ) (backoff : ℤ) (last : Error) (i : ℕ)
      → suc i < (loop f cfg retry w left attempt backoff last).called
      → (is_nil (w.fn (i + attempt)) ≡ false) × (retry (w.fn (i + attempt)) ≡ true)
  unfolding loop
  loop_retried zero attempt backoff last i h = absurd (omega arith)
  loop_retried (suc left) attempt backoff last zero h =
      rw zero-add (round_again f retry w left attempt (pause_at attempt backoff) _ h)
  loop_retried (suc left) attempt backoff last (suc i) h =
      let rest = loop f cfg retry w left (attempt + 1) (grown backoff) (w.fn attempt) in
      let step : suc i + attempt ≡ i + (attempt + 1) = omega arith in
      rw step (
        loop_retried left (attempt + 1) (grown backoff) (w.fn attempt) i
          (omega (arith, round-called-le f retry w left attempt (pause_at attempt backoff) rest)))

  -- nil is returned only after a call that returned nil.
  loop_nil :
      (left attempt : ℕ) (backoff : ℤ) (last : Error)
      → (is_nil last ≡ false) ⊎ (0 < left)
      → is_nil (loop f cfg retry w left attempt backoff last).result ≡ true
      → (n : ℕ) × ((loop f cfg retry w left attempt backoff last).called ≡ suc n)
        × (is_nil (w.fn (n + attempt)) ≡ true)
  unfolding loop
  loop_nil zero attempt backoff last (inl bad) h = cc
  loop_nil zero attempt backoff last (inr more) h = absurd (omega arith)
  loop_nil (suc left) attempt backoff last hl h =
      let rest = loop f cfg retry w left (attempt + 1) (grown backoff) (w.fn attempt) in
      elim (round_nil f retry w left attempt (pause_at attempt backoff) rest h) [
        | inl (once, good) ↦ (0, once, rw zero-add good)
        | inr (more, bad, later) ↦
            let (n, count, good) =
              loop_nil left (attempt + 1) (grown backoff) (w.fn attempt) (inl bad) later in
            let step : suc n + attempt ≡ n + (attempt + 1) = omega arith in
            (suc n, more ∙ ap suc count, rw step good)
      ]

  loop_quiet :
      (left attempt : ℕ) (backoff : ℤ) (last : Error)
      → Quiet f retry w
      → (n : ℕ) × ((loop f cfg retry w (suc left) attempt backoff last).called ≡ suc n)
        × ((loop f cfg retry w (suc left) attempt backoff last).result ≡ w.fn (n + attempt))
        × ((is_nil (w.fn (n + attempt)) ≡ true)
            ⊎ ((retry (w.fn (n + attempt)) ≡ false) ⊎ (n ≡ left)))
  unfolding loop
  loop_quiet zero attempt backoff last q =
      elim (round_quiet f retry w 0 attempt (pause_at attempt backoff)
        (loop f cfg retry w 0 (attempt + 1) (grown backoff) (w.fn attempt)) q) [
          | inl (once, same, why) ↦ (0, once, rw zero-add same, rw zero-add why)
          | inr (more, same, ne) ↦ absurd (ne refl)
        ]
  loop_quiet (suc left) attempt backoff last q =
      let rest = loop f cfg retry w (suc left) (attempt + 1) (grown backoff) (w.fn attempt) in
      elim (round_quiet f retry w (suc left) attempt (pause_at attempt backoff) rest q) [
        | inl (once, same, inl why) ↦ (0, once, rw zero-add same, inl (rw zero-add why))
        | inl (once, same, inr (inl why)) ↦ (0, once, rw zero-add same, inr (inl (rw zero-add why)))
        | inl (once, same, inr (inr why)) ↦ absurd (omega arith)
        | inr (more, same, ne) ↦
            let (n, count, last_one, why) =
              loop_quiet left (attempt + 1) (grown backoff) (w.fn attempt) q in
            let step : suc n + attempt ≡ n + (attempt + 1) = omega arith in
            (
              suc n,
              more ∙ ap suc count,
              same ∙ last_one ∙ ap w.fn (sym step),
              rw step (ground (arith, why)),
            )
      ]

  grown-le : (backoff : ℤ) → grown backoff ≤ℤ cfg.max_backoff
  unfolding next_backoff
  grown-le backoff = ground arith

  -- Where the jitter is disabled no sleep is longer than the greatest backoff.
  loop-sleeps :
      (left attempt : ℕ) (backoff : ℤ) (last : Error)
      → f.leb cfg.jitter_fraction f.zero ≡ true
      → backoff ≤ℤ cfg.max_backoff
      → All (λ d. d ≤ℤ cfg.max_backoff) (loop f cfg retry w left attempt backoff last).sleeps
  unfolding loop
  loop-sleeps zero attempt backoff last j h = tt
  loop-sleeps (suc left) attempt backoff last j h =
      round-sleeps f retry w left attempt _ cfg.max_backoff _
        (unfold jitter_backoff in ground arith)
        (loop-sleeps left (attempt + 1) (grown backoff) (w.fn attempt) j (grown-le backoff))

module _ (f : Float64) (default : Error → Bool) (cfg : RetryConfig f) (w : World f) where
  -- An operation that is not nil is called at most five times, whatever MaxAttempts says; every
  -- call but the last returned an error that Retryable accepts; and Do returns nil only if its last
  -- call returned nil.
  pub retry_attempts :
      let out = run_retry f default cfg w in
      (out.called ≤ 5)
      × ((i : ℕ)
          → suc i < out.called
          → (is_nil (w.fn (i + 1)) ≡ false)
            × (or_default default cfg.retryable (w.fn (i + 1)) ≡ true))
      × (is_nil out.result ≡ true → (n : ℕ) × (out.called ≡ suc n) × (is_nil (w.fn (n + 1)) ≡ true))
  unfolding run_retry
  retry_attempts =
      let cfg' = normalize f default cfg in
      let retry = or_default default cfg.retryable in
      let (n, form, small) = attempts_form f default cfg in
      let count : pos_part cfg'.max_attempts ≡ suc n = ap pos_part form in
      rw count (
        omega (arith, loop-called-le f cfg' retry w (suc n) 1 cfg'.initial_backoff nil),
        loop_retried f cfg' retry w (suc n) 1 cfg'.initial_backoff nil,
        loop_nil f cfg' retry w (suc n) 1 cfg'.initial_backoff nil (inr (omega arith)),
      )

  -- With a context that stays live and sleeps that are not cut short, Do calls the operation until
  -- it first returns nil or an error that is not retryable, or until the last attempt of the
  -- normalized configuration, and returns what this last call returned: every call before it
  -- returned a retryable error.
  pub retry_outcome :
      ((i : ℕ) → (is_nil (w.ctx_err i) ≡ true) × (is_nil (w.slept i) ≡ true))
      → let out = run_retry f default cfg w in
        (n : ℕ) × (out.called ≡ suc n)
        × (out.result ≡ w.fn (n + 1))
        × ((is_nil (w.fn (n + 1)) ≡ true)
            ⊎ ((or_default default cfg.retryable (w.fn (n + 1)) ≡ false)
                ⊎ (pos (suc n) ≡ (normalize f default cfg).max_attempts)))
        × ((i : ℕ)
            → i < n
            → (is_nil (w.fn (i + 1)) ≡ false)
              × (or_default default cfg.retryable (w.fn (i + 1)) ≡ true))
  unfolding run_retry
  retry_outcome quiet =
      let cfg' = normalize f default cfg in
      let retry = or_default default cfg.retryable in
      let (k, form, small) = attempts_form f default cfg in
      let count : pos_part cfg'.max_attempts ≡ suc k = ap pos_part form in
      let (n, called, same, why) = loop_quiet f cfg' retry w k 1 cfg'.initial_backoff nil quiet in
      (
        n,
        rw count called,
        rw count same,
        ground (arith, why, form),
        λ i lt. retry_attempts.1 i (rw count (omega (arith, called, lt))),
      )
