-- ===== src/Clientx/Http.antt =====
-- clientx/http.go: an outgoing request, with the breaker and the retry loop around it. Headers, spans and
-- metrics are left out. What http.Client.Do gives at each attempt is an input.
pub mod Requests
pub mod Body
use dilu_go_kit.Base.{
  ℕ, ◌+◌, ◌*◌, ◌-◌, ◌%◌, ◌^◌, List, [], ◌∷◌, Option, none, some, Bool, true, false, ◌&&◌, ◌||◌, not,
  ◌==◌, if◌then◌else◌, ltb, leb, map, length,
}
use dilu_go_kit.Base.Int.{ℤ, pos, negsuc, leb_ℤ, ltb_ℤ, pos_part, clamped}
use dilu_go_kit.Base.Float.{Float64}
use dilu_go_kit.Base.Text.{Text, beq, codes}
use dilu_go_kit.Errors.{
  Error, nil, sentinel, canceled, deadline_exceeded, request_body_too_large, app, app_nil, client,
  http_status, wrap, foreign, is, is_nil,
}
use dilu_go_kit.Clientx.Retry
use dilu_go_kit.Clientx.Retry.{RetryConfig, World, Outcome, run_retry, or_default}
use dilu_go_kit.Clientx.Breaker
use dilu_go_kit.Clientx.Breaker.{Breaker, do_call}

-- errors.As(err, &statusErr): the status of the first *HTTPStatusError of the chain.
unfoldable pub as_http_status : Error → Option ℤ
as_http_status nil = none
as_http_status (sentinel s) = none
as_http_status (app c m cause r) = as_http_status cause
as_http_status app_nil = none
as_http_status (client c m err) = as_http_status err
as_http_status (http_status status text) = some status
as_http_status (wrap text err) = as_http_status err
as_http_status (foreign n) = none

-- unicode.ToUpper on ASCII, and on the two other letters whose upper case is ASCII.
unfoldable pub to_upper : ℕ → ℕ
to_upper c =
    if leb b'a' c && leb c b'z'
    then c - 32
    else if c == 0x131
    then b'I'
    else if c == 0x17F
    then b'S'
    else c

-- isIdempotent
unfoldable pub is_idempotent : Text → Bool
unfolding to_upper
is_idempotent method =
    let m = map to_upper method in
    beq m (codes "GET")
    || beq m (codes "HEAD")
    || beq m (codes "PUT")
    || beq m (codes "DELETE")
    || beq m (codes "OPTIONS")
    || beq m (codes "TRACE")

-- The size limits: 10 MiB by default, 256 MiB at most.
abbrev pub byte_limit : ℤ → ℤ
byte_limit = clamped (pos 10_485_760) (pos 268_435_456)

-- A product of int64 that are not negative.
abbrev pub wrap_int64 : ℕ → ℤ
wrap_int64 n = let m = n % 2 ^ 64 in if ltb m (2 ^ 63) then pos m else negsuc (2 ^ 64 - m - 1)

-- HTTPClientConfig; the breaker stands beside it.
pub record ClientConfig (f : Float64) : Type 0 where
  pub timeout : ℤ
  pub retry : RetryConfig f
  pub retry_non_idempotent : Bool
  pub max_body_bytes : ℤ
  pub max_response_body_bytes : ℤ

-- A request body: what it holds, and the error after that, nil for io.EOF.
pub record Request : Type 0 where
  pub method : Text
  pub body : Option (List ℕ × Error)

-- What http.Client.Do returns.
pub data Reply : Type 0 where
  failed : Error → Reply
  response : (status : ℤ) → Text → Reply

abbrev pub is_success : ℤ → Bool
is_success status = leb_ℤ (pos 200) status && ltb_ℤ status (pos 300)

-- single: the error of one attempt.
unfoldable pub single : Reply → Error
single (failed err) = err
single (response status text) = if is_success status then nil else http_status status text

-- What the attempts of a request meet.
pub record Transport (f : Float64) : Type 0 where
  pub ctx_err : ℕ → Error
  pub reply : ℕ → Reply
  pub slept : ℕ → Error
  pub random : ℕ → f.F

-- io.ReadAll(io.LimitReader(req.Body, maxBodyBytes+1)) and the checks after it.
unfoldable pub buffer : ℕ → Option (List ℕ × Error) → Error
buffer limit none = nil
buffer limit (some (bytes, err)) =
    if ltb limit (length bytes) then sentinel request_body_too_large else err

module _ (f : Float64) (net_error : Error → Bool) where
  -- The default of Retryable; `net_error` is errors.As with a net.Error.
  unfoldable pub default_retryable : Error → Bool
  unfolding as_http_status is
  default_retryable err = elim (as_http_status err) [
    | some status ↦ leb_ℤ (pos 429) status && leb_ℤ status (pos 429) || leb_ℤ (pos 500) status
    | none ↦ not (is err canceled) && (net_error err || is err deadline_exceeded)
  ]

  -- NewHTTPClient; `is_retryable` is the default of normalizeRetryConfig, which is not reached.
  unfoldable pub new_client : (is_retryable : Error → Bool) → ClientConfig f → ClientConfig f
  unfolding default_retryable Retry.normalize
  new_client is_retryable cfg =
      let timeout = if leb_ℤ cfg.timeout (pos 0) then pos 10_000_000_000 else cfg.timeout in
      let retry = Retry.normalize f is_retryable (record (cfg.retry) {
        retryable = some (or_default default_retryable cfg.retry.retryable);
      }) in
      let budget =
        if leb_ℤ retry.budget (pos 0)
        then wrap_int64 (pos_part timeout * pos_part retry.max_attempts)
        else retry.budget in
      record {
        timeout = timeout;
        retry = record retry { budget = budget };
        retry_non_idempotent = cfg.retry_non_idempotent;
        max_body_bytes = byte_limit cfg.max_body_bytes;
        max_response_body_bytes = byte_limit cfg.max_response_body_bytes;
      }

  abbrev pub may_retry : ClientConfig f → Text → Bool
  may_retry cfg method = cfg.retry_non_idempotent || is_idempotent method

  abbrev pub world_of : Transport f → World f
  world_of t = record {
    ctx_err = t.ctx_err;
    fn = λ i. single (t.reply i);
    slept = t.slept;
    random = t.random;
  }

  -- doWithResponse
  unfoldable pub do_with_response :
      (is_retryable : Error → Bool) → ClientConfig f → Text → Transport f → Outcome
  unfolding run_retry single is_idempotent
  do_with_response is_retryable cfg method t =
      if may_retry cfg method
      then run_retry f is_retryable cfg.retry (world_of t)
      else record { result = single (t.reply 1); called = 1; sleeps = [] }

  -- What the breaker makes of the attempts.
  abbrev pub guarded : Outcome → Breaker × Breaker.Outcome → Option Breaker × Outcome
  guarded out (b, told) = (
    some b,
    if told.called then out else record { result = told.result; called = 0; sleeps = [] },
  )

  abbrev pub through :
      Option Breaker → Outcome → Error → (start done : ℕ) → Option Breaker × Outcome
  through none out ctx_err start done = (none, out)
  through (some b) out ctx_err start done =
      guarded out (do_call b ctx_err (some out.result) start done)

  -- The body is buffered where the request may be sent again.
  abbrev pub buffer_error : ClientConfig f → Request → Error
  buffer_error cfg req =
      let limit = if leb_ℤ cfg.max_body_bytes (pos 0) then pos 10_485_760 else cfg.max_body_bytes in
      if ltb_ℤ (pos 1) cfg.retry.max_attempts && may_retry cfg req.method
      then buffer (pos_part limit) req.body
      else nil

  -- HTTPClient.Do on a client and a request that are not nil, which goes on from `start` to `done`; the
  -- breaker reads the context before the first attempt.
  unfoldable pub do_request :
      (is_retryable : Error → Bool)
      → ClientConfig f
      → Option Breaker
      → Request
      → Transport f
      → (start done : ℕ) → Option Breaker × Outcome
  unfolding do_with_response do_call buffer is_idempotent
  do_request is_retryable cfg breaker req t start done =
      let problem = buffer_error cfg req in
      if is_nil problem
      then through breaker (do_with_response is_retryable cfg req.method t) (t.ctx_err 0) start done
      else (breaker, record { result = problem; called = 0; sleeps = [] })
