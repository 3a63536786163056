-- ===== src/Clientx/Http/Requests.antt =====
-- How often a request is sent, and what a result of nil says.
use dilu_go_kit.Base.{
  ℕ, suc, ◌+◌, ◌≤◌, ◌<◌, ◌≡◌, refl, [], Option, none, some, Bool, true, false, not, if◌then◌else◌,
  if_cases, arith, Bool-cases, ◌⊎◌, inl, inr,
}
use dilu_go_kit.Base.Int.{ℤ}
use dilu_go_kit.Base.Float.{Float64}
use dilu_go_kit.Base.Text.{Text}
use dilu_go_kit.Errors.{Error, is_nil}
use dilu_go_kit.Clientx.Retry.{RetryConfig, Outcome, run_retry, or_default}
use dilu_go_kit.Clientx.Retry.Attempts.{retry_attempts}
use dilu_go_kit.Clientx.Breaker
use dilu_go_kit.Clientx.Breaker.{Breaker, do_call}
use dilu_go_kit.Clientx.Breaker.Outcomes.{Reported, do_call-Reported}
use dilu_go_kit.Clientx.Http.{
  ClientConfig, Request, Reply, failed, response, is_success, single, Transport, default_retryable,
  new_client, may_retry, world_of, do_with_response, guarded, through, buffer_error, do_request,
}

-- What is said of the attempts of a request.
abbrev pub Attempted : (f : Float64) → (Error → Bool) → ℕ → Transport f → Outcome → Type 0
Attempted f retry limit t out =
    (out.called ≤ limit)
    × ((i : ℕ) → suc i < out.called → retry (single (t.reply (i + 1))) ≡ true)
    × ((is_nil out.result ≡ false)
        ⊎ ((n : ℕ) × (status : ℤ) × (text : Text) × (out.called ≡ suc n)
            × (t.reply (n + 1) ≡ response status text)
            × (is_success status ≡ true)))

-- An error that http.Client.Do returns is not nil.
abbrev pub is_real : Reply → Bool
is_real (failed err) = not (is_nil err)
is_real (response status text) = true

single_nil :
    (r : Reply)
    → is_real r ≡ true
    → is_nil (single r) ≡ true
    → (status : ℤ) × (text : Text) × (r ≡ response status text) × (is_success status ≡ true)
unfolding single
single_nil (failed err) real h = absurd (ground (arith, real, h))
single_nil (response status text) real h = (status, text, refl, ground (arith, h))

module _ (f : Float64) (retry : Error → Bool) (limit : ℕ) (t : Transport f) where
  -- A request that is not sent.
  unsent :
      (problem : Error)
      → is_nil problem ≡ false
      → Attempted f retry limit t (record { result = problem; called = 0; sleeps = [] })
  unsent problem h = (omega arith, λ i below. absurd (omega arith), inl h)

  guarded_lem :
      (net_error : Error → Bool) (out : Outcome) (b : Breaker) (told : Breaker.Outcome)
      → Attempted f retry limit t out
      → Reported out.result told
      → Attempted f retry limit t (guarded f net_error out (b, told)).1
  guarded_lem net_error out b told h (inl (called, same)) = rw called h
  guarded_lem net_error out b told h (inr (idle, bad)) = rw idle (unsent told.result bad)

  through_lem :
      (net_error : Error → Bool) (breaker : Option Breaker) (out : Outcome) (ctx_err : Error)
      (start done : ℕ)
      → Attempted f retry limit t out
      → Attempted f retry limit t (through f net_error breaker out ctx_err start done).1
  through_lem net_error none out ctx_err start done h = h
  through_lem net_error (some b) out ctx_err start done h =
      let call = do_call b ctx_err (some out.result) start done in
      guarded_lem net_error out call.0 call.1 h (do_call-Reported b ctx_err out.result start done)

module _ (f : Float64) (net_error is_retryable : Error → Bool) (cfg : ClientConfig f)
    (t : Transport f) (real : (i : ℕ) → is_real (t.reply i) ≡ true) where
  -- A success of a request that was sent once, and of one that was sent in a loop.
  once :
      (retry : Error → Bool)
      → Attempted f retry 1 t (record { result = single (t.reply 1); called = 1; sleeps = [] })
  once retry = (
    omega arith,
    λ i below. absurd (omega arith),
    elim (Bool-cases (is_nil (single (t.reply 1)))) [
      | inl good ↦
          let (status, text, e, s) = single_nil (t.reply 1) (real 1) good in
          inr (0, status, text, refl, e, s)
      | inr bad ↦ inl bad
    ],
  )

  looped :
      (retry : RetryConfig f)
      → Attempted f
          (or_default is_retryable retry.retryable)
          5
          t
          (run_retry f is_retryable retry (world_of f net_error t))
  looped retry =
      let (few, again, won) = retry_attempts f is_retryable retry (world_of f net_error t) in
      (
        few,
        λ i below. (again i below).1,
        elim (Bool-cases
            (is_nil (run_retry f is_retryable retry (world_of f net_error t)).result)) [
              | inl h ↦
                  let (n, called, good) = won h in
                  let (status, text, e, s) = single_nil (t.reply (n + 1)) (real (n + 1)) good in
                  inr (n, status, text, called, e, s)
              | inr bad ↦ inl bad
            ],
      )

  attempts :
      (method : Text)
      → Attempted f
          (or_default (default_retryable f net_error) cfg.retry.retryable)
          (if may_retry f net_error cfg method then 5 else 1)
          t
          (do_with_response f net_error is_retryable
            (new_client f net_error is_retryable cfg)
            method
            t)
  unfolding do_with_response new_client
  attempts method = elim (Bool-cases (may_retry f net_error cfg method)) [
    | inl again ↦ rw again (looped ((new_client f net_error is_retryable cfg).retry))
    | inr once_only ↦
        rw once_only (once (or_default (default_retryable f net_error) cfg.retry.retryable))
  ]

  -- HTTPClient.Do on a client of NewHTTPClient, whatever its configuration, with a breaker or none: a
  -- request is sent at most five times, and at most once if its method is not idempotent and
  -- RetryNonIdempotent is off; every attempt but the last ended in an error that the configured
  -- Retryable accepts, or its default where there is none; and if Do returns no error, the last
  -- attempt was answered with a status from 200 to 299. An error of http.Client.Do is not nil.
  pub request_attempts :
      (breaker : Option Breaker) (req : Request) (start done : ℕ)
      → Attempted f
          (or_default (default_retryable f net_error) cfg.retry.retryable)
          (if may_retry f net_error cfg req.method then 5 else 1)
          t
          (do_request f net_error is_retryable
            (new_client f net_error is_retryable cfg)
            breaker
            req
            t
            start
            done).1
  unfolding do_request
  request_attempts breaker req start done =
      let client = new_client f net_error is_retryable cfg in
      let retry = or_default (default_retryable f net_error) cfg.retry.retryable in
      let limit = if may_retry f net_error cfg req.method then 5 else 1 in
      let out = do_with_response f net_error is_retryable client req.method t in
      let problem = buffer_error f net_error client req in
      if_cases {A = Option Breaker × Outcome} (λ p. Attempted f retry limit t p.1) (is_nil problem)
        (λ h.
          through_lem f retry limit t net_error breaker out (t.ctx_err 0) start done
            (attempts req.method))
        (λ h. unsent f retry limit t problem h)
