-- ===== src/Resp.antt =====
-- resp/resp.go: the response envelope and the HTTP status of a business code. gin writes the
-- envelope; what is modelled is the status and the envelope that it is given.
pub mod Codes
use dilu_go_kit.Base.{ℕ, ◌/◌, ◌==◌, if◌then◌else◌}
use dilu_go_kit.Base.Int.{ℤ, pos, negsuc, leb_ℤ}
use dilu_go_kit.Base.Text.{Text, codes}
use Codes

-- R, without its data, and the HTTP status that it is sent with.
pub record Response : Type 0 where
  pub status : ℕ
  pub code : ℤ
  pub msg : Text

pub fail_status : ℕ → ℤ → Text → Response
fail_status status code msg = record { status = status; code = code; msg = msg }

-- The status of the family code / 100. Go's division truncates towards zero, so that a negative
-- code meets the default.
unfoldable pub http_status_for_code : ℤ → ℕ
http_status_for_code (pos n) =
    let family = n / 100 in
    if family == 400
    then 400
    else if family == 401
    then 401
    else if family == 403
    then 403
    else if family == 404
    then 404
    else if family == 409
    then 409
    else if family == 429
    then 429
    else if family == 500
    then 500
    else 400
http_status_for_code (negsuc n) = 400

-- The response to a binding error: the error itself is dropped.
pub error {ℓ} : {E : Type ℓ} → E → Response
unfolding fail_status
error err = fail_status 400 Codes.invalid_param (codes "参数错误")

-- `CurrentPage` of Page.
pub current_page : ℤ → ℤ
current_page page = if leb_ℤ page (pos 0) then pos 1 else page
