-- ===== src/Tests/Parameters.antt =====
-- Concrete values of the parameters: a status package, and numbers in tenths in place of float64.
use dilu_go_kit.Base.{
  ℕ, ◌+◌, ◌-◌, ◌*◌, ◌/◌, ◌≡◌, refl, false, none, if◌then◌else◌, leb, ltb, ◌==◌, arith,
}
use dilu_go_kit.Base.Int.{ℤ, pos, negsuc}
use dilu_go_kit.Base.Float.{Float64}
use dilu_go_kit.Base.Text.{Text}
use dilu_go_kit.Errors.{Error, nil, foreign, is, as_app, Sentinel}
use dilu_go_kit.Status.{
  Code, Status, ok, invalid_argument, unauthenticated, permission_denied, not_found, already_exists,
  aborted, resource_exhausted, unavailable, deadline_exceeded, internal, unknown, other,
}

abbrev pub make : Code → Text → Error
make ok m = nil
make invalid_argument m = foreign 1
make unauthenticated m = foreign 2
make permission_denied m = foreign 3
make not_found m = foreign 4
make already_exists m = foreign 5
make aborted m = foreign 6
make resource_exhausted m = foreign 7
make unavailable m = foreign 8
make deadline_exceeded m = foreign 9
make internal m = foreign 10
make unknown m = foreign 11
make (other n) m = foreign (n + 12)

abbrev pub code_at : ℕ → Code
code_at n =
    if n == 1
    then invalid_argument
    else if n == 2
    then unauthenticated
    else if n == 3
    then permission_denied
    else if n == 4
    then not_found
    else if n == 5
    then already_exists
    else if n == 6
    then aborted
    else if n == 7
    then resource_exhausted
    else if n == 8
    then unavailable
    else if n == 9
    then deadline_exceeded
    else if n == 10
    then internal
    else if n == 11
    then unknown
    else other (n - 12)

abbrev pub code_of : Error → Code
code_of nil = ok
code_of (foreign n) = code_at n
code_of _ = unknown

pub code_of-make : (c : Code) (m : Text) → code_of (make c m) ≡ c
code_of-make (other n) m = ground arith
code_of-make _ m = refl

pub is-make : (c : Code) (m : Text) (s : Sentinel) → is (make c m) s ≡ false
unfolding is
is-make (other n) m s = refl
is-make _ m s = refl

pub as_app-make : (c : Code) (m : Text) → as_app (make c m) ≡ none
unfolding as_app
as_app-make (other n) m = refl
as_app-make _ m = refl

abbrev pub status : Status
status = record {
  make = make;
  code_of = code_of;
  code_of-make = code_of-make;
  code_of-nil = refl;
  is-make = is-make;
  as_app-make = as_app-make;
}

-- Whole numbers of a duration, in tenths.
abbrev pub tenths : ℤ → ℕ
tenths (pos n) = n * 10
tenths (negsuc n) = 0

abbrev pub float : Float64
float = record {
  F = ℕ;
  leb = leb;
  ltb = ltb;
  add = ◌+◌;
  sub = ◌-◌;
  mul = λ a b. a * b / 10;
  of_int = tenths;
  to_int = λ a. pos (a / 10);
  zero = 0;
  fifth = 2;
  one = 10;
  two = 20;
  ten = 100;
  not_fifth_le_zero = refl;
  not_one_le_zero = refl;
  not_two_le_zero = refl;
  not_ten_le_zero = refl;
  not_one_lt_zero = refl;
  not_one_lt_fifth = refl;
  not_one_lt_one = refl;
  not_ten_lt_two = refl;
  not_ten_lt_ten = refl;
}
