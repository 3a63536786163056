-- ===== src/Status.antt =====
-- The status package of grpc-go, as the kit uses it: a parameter with its documented laws.
use dilu_go_kit.Base.{ℕ, ◌≡◌}
use dilu_go_kit.Base.Text.{Text}
use dilu_go_kit.Errors.{Error, nil, is, Sentinel, as_app}
use dilu_go_kit.Base.{false, none}

-- codes.Code: the codes that the kit names, and the others by their number.
pub data Code : Type 0 where
  ok invalid_argument unauthenticated permission_denied not_found already_exists aborted : Code
  resource_exhausted unavailable deadline_exceeded internal unknown : Code
  other : ℕ → Code

-- status.Error makes an error of the status package, which wraps no error of the kit, and
-- status.Code reads its code; the code of nil is OK, and so is an error made of OK (which is nil).
pub record Status : Type 0 where
  pub make : Code → Text → Error
  pub code_of : Error → Code
  pub code_of-make : (c : Code) (m : Text) → code_of (make c m) ≡ c
  pub code_of-nil : code_of nil ≡ ok
  pub is-make : (c : Code) (m : Text) (s : Sentinel) → is (make c m) s ≡ false
  pub as_app-make : (c : Code) (m : Text) → as_app (make c m) ≡ none
