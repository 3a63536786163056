-- ===== src/Base/Float.antt =====
-- Go's float64, which is not modelled: an abstract type with the operations that the kit uses.
use dilu_go_kit.Base.{Bool, false, ◌≡◌}
use dilu_go_kit.Base.Int.{ℤ}

-- `zero` to `ten` are the constants 0, 0.2, 1, 2 and 10; `of_int` and `to_int` convert from and to
-- an int64, a time.Duration. `leb` and `ltb` are `<=` and `<`, both false at a NaN. The laws compare
-- the constants.
pub record Float64 : Type 1 where
  pub F : Type 0
  pub leb : F → F → Bool
  pub ltb : F → F → Bool
  pub add : F → F → F
  pub sub : F → F → F
  pub mul : F → F → F
  pub of_int : ℤ → F
  pub to_int : F → ℤ
  pub zero : F
  pub fifth : F
  pub one : F
  pub two : F
  pub ten : F
  pub not_fifth_le_zero : leb fifth zero ≡ false
  pub not_one_le_zero : leb one zero ≡ false
  pub not_two_le_zero : leb two zero ≡ false
  pub not_ten_le_zero : leb ten zero ≡ false
  pub not_one_lt_zero : ltb one zero ≡ false
  pub not_one_lt_fifth : ltb one fifth ≡ false
  pub not_one_lt_one : ltb one one ≡ false
  pub not_ten_lt_two : ltb ten two ≡ false
  pub not_ten_lt_ten : ltb ten ten ≡ false
