-- ===== src/Apperr.antt =====
-- apperr/error.go: application errors and their HTTP and gRPC faces.
use dilu_go_kit.Base.{ℕ, ◌/◌, Bool, false, none, some, [], ◌==◌, if◌then◌else◌}
use dilu_go_kit.Base.Int.{ℤ, pos, negsuc}
use dilu_go_kit.Base.Text.{Text, codes, beq}
use dilu_go_kit.Errors.{Error, nil, app, as_app, is_nil}
use dilu_go_kit.Resp.{http_status_for_code}
use dilu_go_kit.Status.{
  Code, Status, invalid_argument, unauthenticated, permission_denied, not_found, aborted,
  resource_exhausted, internal, unknown,
}

-- New
unfoldable pub new : ℤ → Text → Error
new code message = app code message nil false

-- Wrap
unfoldable pub wrap_cause : ℤ → Text → Error → Error
wrap_cause code message cause = app code message cause false

-- WithRetryable on a *apperr.Error; the nil pointer stays nil.
unfoldable pub with_retryable : Error → Bool → Error
with_retryable (app c m cause _) r = app c m cause r
with_retryable e r = e

unfoldable pub code_of : Error → ℤ
code_of err = elim (as_app err) [ none ↦ pos 0 | some v ↦ v.code ]

abbrev pub internal_message : Text
internal_message = codes "服务内部错误"

unfoldable pub public_message : Error → Text
public_message err = elim (as_app err) [
  | none ↦ internal_message
  | some v ↦ if beq v.message [] then internal_message else v.message
]

unfoldable pub retryable : Error → Bool
retryable err = elim (as_app err) [ none ↦ false | some v ↦ v.retryable ]

abbrev pub is_zero : ℤ → Bool
is_zero (pos n) = n == 0
is_zero (negsuc n) = false

unfoldable pub http_status : Error → ℕ
unfolding code_of
http_status err = let code = code_of err in if is_zero code then 500 else http_status_for_code code

-- The switch on code / 100; a negative code meets the default.
unfoldable pub grpc_code : ℤ → Code
grpc_code (pos n) =
    let family = n / 100 in
    if family == 400
    then invalid_argument
    else if family == 401
    then unauthenticated
    else if family == 403
    then permission_denied
    else if family == 404
    then not_found
    else if family == 409
    then aborted
    else if family == 429
    then resource_exhausted
    else if family == 500
    then internal
    else unknown
grpc_code (negsuc n) = unknown

-- GRPCStatus
unfoldable pub grpc_status : Status → Error → Error
unfolding code_of grpc_code public_message
grpc_status status err =
    let code = code_of err in
    if is_nil err
    then nil
    else if is_zero code
    then status.make internal internal_message
    else status.make (grpc_code code) (public_message err)
