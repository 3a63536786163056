-- ===== src/Errors.antt =====
-- Go's error values as the kit makes and inspects them, with errors.Is and errors.As.
use dilu_go_kit.Base.{ℕ, ◌≡◌, refl, Bool, true, false, Option, none, some}
use dilu_go_kit.Base.Int.{ℤ}
use dilu_go_kit.Base.Text.{Text}

-- The error variables that the kit compares with: context.Canceled, context.DeadlineExceeded,
-- clientx.ErrCircuitOpen, clientx.ErrNilOperation and the two body limits of clientx/http.go.
pub data Sentinel : Type 0 where
  canceled deadline_exceeded circuit_open nil_operation : Sentinel
  request_body_too_large response_body_too_large : Sentinel

-- An `error`, `nil` included. `app` is a *apperr.Error, `app_nil` the nil pointer of that type in an
-- interface, `client` a *clientx.ClientError, `http_status` a *clientx.HTTPStatusError, `wrap` the
-- result of fmt.Errorf with %w. `foreign` is an error of another package that wraps none of these.
pub data Error : Type 0 where
  nil : Error
  sentinel : Sentinel → Error
  app : ℤ → Text → Error → Bool → Error
  app_nil : Error
  client : ℤ → Text → Error → Error
  http_status : ℤ → Text → Error
  wrap : Text → Error → Error
  foreign : ℕ → Error

abbrev pub same : Sentinel → Sentinel → Bool
same canceled canceled = true
same deadline_exceeded deadline_exceeded = true
same circuit_open circuit_open = true
same nil_operation nil_operation = true
same request_body_too_large request_body_too_large = true
same response_body_too_large response_body_too_large = true
same _ _ = false

-- `err == nil`
abbrev pub is_nil : Error → Bool
is_nil nil = true
is_nil _ = false

pub is_nil_lem : (e : Error) → is_nil e ≡ true → e ≡ nil
is_nil_lem nil h = refl
is_nil_lem (sentinel s) h = cc
is_nil_lem (app c m e r) h = cc
is_nil_lem app_nil h = cc
is_nil_lem (client c m e) h = cc
is_nil_lem (http_status c m) h = cc
is_nil_lem (wrap m e) h = cc
is_nil_lem (foreign n) h = cc

-- errors.Is(err, target): the target stands somewhere along the chain of Unwrap.
unfoldable pub is : Error → Sentinel → Bool
is nil t = false
is (sentinel s) t = same s t
is (app code message cause retryable) t = is cause t
is app_nil t = false
is (client code message err) t = is err t
is (http_status status text) t = false
is (wrap text err) t = is err t
is (foreign n) t = false

-- What a caller reads through a *apperr.Error that is not nil.
pub record AppView : Type 0 where
  pub code : ℤ
  pub message : Text
  pub retryable : Bool

-- errors.As(err, &appErr) && appErr != nil: the first *apperr.Error of the chain.
unfoldable pub as_app : Error → Option AppView
as_app nil = none
as_app (sentinel s) = none
as_app (app c m cause r) = some (record { code = c; message = m; retryable = r })
as_app app_nil = none
as_app (client code message err) = as_app err
as_app (http_status status text) = none
as_app (wrap text err) = as_app err
as_app (foreign n) = none

-- errors.As(err, &clientErr): the code of the first *clientx.ClientError of the chain.
unfoldable pub as_client : Error → Option ℤ
as_client nil = none
as_client (sentinel s) = none
as_client (app code message cause retryable) = as_client cause
as_client app_nil = none
as_client (client code message err) = some code
as_client (http_status status text) = none
as_client (wrap text err) = as_client err
as_client (foreign n) = none
