-- ===== src/Tests/HttpRuns.antt =====
-- A request that is answered at the second attempt, and a body of five bytes read with a limit of four.
use dilu_go_kit.Base.{
  ℕ, suc, ◌≡◌, refl, ap, List, [], ◌∷◌, ◌++◌, none, some, Bool, true, false, ◌==◌, if◌then◌else◌,
  length, ◌≤◌, arith,
}
use Prim.Native.Nat.{zero}
use dilu_go_kit.Base.Int.{pos}
use dilu_go_kit.Base.Text.{codes}
use dilu_go_kit.Errors.{Error, nil, foreign, is}
use dilu_go_kit.Clientx.Retry.{or_default}
use dilu_go_kit.Clientx.Http.{
  ClientConfig, Request, response, Transport, default_retryable, may_retry, new_client, do_request,
}
use dilu_go_kit.Clientx.Http.Requests.{Attempted, request_attempts}
use dilu_go_kit.Clientx.Http.Body.{Reader, Limited, LimitedBody, deliver, is_limit, deliver-Limited}
use dilu_go_kit.Tests.Parameters.{float}

abbrev config : ClientConfig float
config = record {
  timeout = pos 0;
  retry = record {
    max_attempts = pos 3;
    budget = pos 0;
    initial_backoff = pos 0;
    max_backoff = pos 0;
    multiplier = 0;
    retryable = none;
    jitter_fraction = 0;
    disable_jitter = true;
  };
  retry_non_idempotent = false;
  max_body_bytes = pos 8;
  max_response_body_bytes = pos 4;
}

abbrev never : Error → Bool
never err = false

abbrev request : Request
request = record { method = codes "put"; body = some (1 ∷ 2 ∷ [], nil) }

abbrev transport : Transport float
transport = record {
  ctx_err = λ i. nil;
  reply = λ i. response (if i == 1 then pos 503 else pos 200) [];
  slept = λ i. nil;
  random = λ i. 5;
}

request_attempts_example :
    Attempted float
      (or_default (default_retryable float never) none)
      (if may_retry float never config (codes "put") then 5 else 1)
      transport
      (do_request float never never
        (new_client float never never config)
        none
        request
        transport
        0
        9).1
request_attempts_example =
    request_attempts float never never config transport (λ i. refl) none request 0 9

-- A reader that gives all it has.
abbrev take : ℕ → List ℕ → List ℕ
take n [] = []
take zero (x ∷ xs) = []
take (suc n) (x ∷ xs) = x ∷ take n xs

abbrev drop : ℕ → List ℕ → List ℕ
drop n [] = []
drop zero (x ∷ xs) = x ∷ xs
drop (suc n) (x ∷ xs) = drop n xs

length-take-le : (n : ℕ) (xs : List ℕ) → length (take n xs) ≤ n
length-take-le n [] = omega arith
length-take-le zero (x ∷ xs) = omega arith
length-take-le (suc n) (x ∷ xs) = omega (arith, length-take-le n xs)

take-drop : (n : ℕ) (xs : List ℕ) → take n xs ++ drop n xs ≡ xs
take-drop n [] = refl
take-drop zero (x ∷ xs) = refl
take-drop (suc n) (x ∷ xs) = ap (λ ys. x ∷ ys) (take-drop n xs)

not_limit : (n : ℕ) → is_limit (foreign n) ≡ false
unfolding is
not_limit n = refl

abbrev reader : Reader
reader = record {
  S = List ℕ;
  read = λ n xs. record { bytes = take n xs; err = foreign 0; next = drop n xs };
  content = λ xs. xs;
  fits = length-take-le;
  in_order = take-drop;
  own_errors = λ n xs. not_limit 0;
}

abbrev body : LimitedBody (List ℕ)
body = record { source = 1 ∷ 2 ∷ 3 ∷ 4 ∷ 5 ∷ []; remaining = 4 }

deliver-Limited_example : Limited reader body (deliver reader (3 ∷ 3 ∷ 3 ∷ []) body)
deliver-Limited_example = deliver-Limited reader (3 ∷ 3 ∷ 3 ∷ []) body
