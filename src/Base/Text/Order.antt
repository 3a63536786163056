-- ===== src/Base/Text/Order.antt =====
-- The order of strings: by their bytes, which is by their code points.
use mathlib.Core.Path.{◌≡◌, refl}
use mathlib.Core.Bool.{Bool, true, false}
use mathlib.Core.Logic.{◌⊎◌}
use mathlib.Core.List.{[], ◌∷◌}
use native.Mathlib.Omega.{arith}
use dilu_go_kit.Base.Tests.{◌==◌, ltb, if◌then◌else◌}
use dilu_go_kit.Base.Text.{Text}

unfoldable pub before : Text → Text → Bool
before [] [] = false
before [] (y ∷ ys) = true
before (x ∷ xs) [] = false
before (x ∷ xs) (y ∷ ys) =
    let rest = before xs ys in if ltb x y then true else if x == y then rest else false

pub before_irrefl : (a : Text) → before a a ≡ false
unfolding before
before_irrefl [] = refl
before_irrefl (x ∷ xs) = ground (arith, before_irrefl xs)

pub before_trans : (a b c : Text) → before a b ≡ true → before b c ≡ true → before a c ≡ true
unfolding before
before_trans [] [] c p q = cc
before_trans [] (y ∷ b) [] p q = cc
before_trans [] (y ∷ b) (z ∷ c) p q = refl
before_trans (x ∷ a) [] c p q = cc
before_trans (x ∷ a) (y ∷ b) [] p q = cc
before_trans (x ∷ a) (y ∷ b) (z ∷ c) p q = ground (arith, before_trans a b c)

pub before_total : (a b : Text) → (before a b ≡ true) ⊎ ((a ≡ b) ⊎ (before b a ≡ true))
unfolding before
before_total [] [] = ground arith
before_total [] (y ∷ b) = ground arith
before_total (x ∷ a) [] = ground arith
before_total (x ∷ a) (y ∷ b) = ground (arith, before_total a b)
