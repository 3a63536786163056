-- ===== src/Tests/RetryRuns.antt =====
-- A retried operation that succeeds at its second call, and an error that crosses gRPC.
use dilu_go_kit.Base.{
  ℕ, suc, ◌+◌, ◌<◌, ◌≡◌, refl, ◌⊎◌, Bool, true, false, none, ◌==◌, if◌then◌else◌,
}
use dilu_go_kit.Base.Int.{pos}
use dilu_go_kit.Base.Text.{codes}
use dilu_go_kit.Errors.{Error, nil, foreign, app, is_nil}
use dilu_go_kit.Resp.{http_status_for_code}
use dilu_go_kit.Clientx.Retry.{RetryConfig, World, run_retry, normalize, or_default, loop, round}
use dilu_go_kit.Clientx.Retry.Attempts.{retry_outcome}
use dilu_go_kit.Clientx.Grpc
use dilu_go_kit.Clientx.Grpc.{map_grpc_error}
use dilu_go_kit.Apperr.{grpc_status}
use dilu_go_kit.Clientx.Transport.{is_standard, transport_status}
use dilu_go_kit.Tests.Parameters.{status, float}

abbrev always : Error → Bool
always err = true

abbrev config : RetryConfig float
config = record {
  max_attempts = pos 9;
  budget = pos 0;
  initial_backoff = pos 100;
  max_backoff = pos 0;
  multiplier = 0;
  retryable = none;
  jitter_fraction = 0;
  disable_jitter = true;
}

-- The second call succeeds.
abbrev world : World float
world = record {
  ctx_err = λ i. nil;
  fn = λ i. if i == 2 then nil else foreign i;
  slept = λ i. nil;
  random = λ i. 5;
}

twice : (run_retry float always config world).called ≡ 2
unfolding run_retry loop round normalize
twice = refl

retry_outcome_example :
    let out = run_retry float always config world in
    (n : ℕ) × (out.called ≡ suc n)
    × (out.result ≡ world.fn (n + 1))
    × ((is_nil (world.fn (n + 1)) ≡ true)
        ⊎ ((or_default always config.retryable (world.fn (n + 1)) ≡ false)
            ⊎ (pos (suc n) ≡ (normalize float always config).max_attempts)))
    × ((i : ℕ)
        → i < n
        → (is_nil (world.fn (i + 1)) ≡ false)
          × (or_default always config.retryable (world.fn (i + 1)) ≡ true))
retry_outcome_example = retry_outcome float always config world (λ i. (refl, refl))

transport_status_example :
    http_status_for_code (
      Grpc.code_of
        (map_grpc_error status (grpc_status status (app (pos 40401) (codes "gone") nil false))))
    ≡ (if is_standard (pos 40401) then http_status_for_code (pos 40401) else 500)
transport_status_example = transport_status status (pos 40401) (codes "gone") nil false
