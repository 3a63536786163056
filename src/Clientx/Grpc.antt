-- ===== src/Clientx/Grpc.antt =====
-- clientx/grpc.go and the ClientError of clientx/client.go.
use dilu_go_kit.Base.{Bool, true, false, none, some, if◌then◌else◌}
use dilu_go_kit.Base.Int.{ℤ, pos}
use dilu_go_kit.Base.Text.{Text, codes}
use dilu_go_kit.Errors.{Error, nil, client, canceled, circuit_open, is, is_nil, as_client}
use dilu_go_kit.Errors
use dilu_go_kit.Resp.Codes
use dilu_go_kit.Status.{
  Code, Status, ok, invalid_argument, unauthenticated, permission_denied, not_found, already_exists,
  aborted, resource_exhausted, unavailable, deadline_exceeded,
}
use dilu_go_kit.Apperr

-- NewError
unfoldable pub new_error : ℤ → Text → Error → Error
new_error code message err = client code message err

-- CodeOf
unfoldable pub code_of : Error → ℤ
code_of err = elim (as_client err) [ none ↦ pos 0 | some code ↦ code ]

abbrev pub is_transient : Code → Bool
is_transient unavailable = true
is_transient deadline_exceeded = true
is_transient resource_exhausted = true
is_transient _ = false

-- IsRetryable
unfoldable pub is_retryable : Status → Error → Bool
is_retryable status err =
    if is_nil err
    then false
    else if is err canceled
    then false
    else if is err Errors.deadline_exceeded
    then true
    else if is err circuit_open
    then false
    else if Apperr.is_zero (Apperr.code_of err)
    then is_transient (status.code_of err)
    else Apperr.retryable err

-- The switch of MapGRPCError.
unfoldable pub map_code : Code → Error → Error
unfolding new_error
map_code ok err = nil
map_code invalid_argument err = new_error Codes.invalid_param (codes "参数错误") err
map_code unauthenticated err = new_error Codes.unauthorized (codes "未登录") err
map_code permission_denied err = new_error Codes.forbidden (codes "无权操作") err
map_code not_found err = new_error Codes.not_found (codes "资源不存在") err
map_code already_exists err = new_error Codes.conflict (codes "资源冲突") err
map_code aborted err = new_error Codes.conflict (codes "资源冲突") err
map_code resource_exhausted err = new_error Codes.too_many_reqs (codes "请求过于频繁") err
map_code unavailable err = new_error Codes.service_down (codes "外部服务不可用") err
map_code deadline_exceeded err = new_error Codes.service_down (codes "外部服务不可用") err
map_code _ err = new_error Codes.internal (codes "服务错误") err

-- MapGRPCError
unfoldable pub map_grpc_error : Status → Error → Error
unfolding map_code new_error
map_grpc_error status err =
    if is_nil err
    then nil
    else if is err circuit_open
    then new_error Codes.service_down (codes "服务熔断") err
    else map_code (status.code_of err) err
