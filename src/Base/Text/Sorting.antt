-- ===== src/Base/Text/Sorting.antt =====
-- Lists of distinct strings, and sorting them.
use mathlib.Core.Path.{◌≡◌, refl}
use mathlib.Core.Bool.{Bool, true, false, ◌||◌}
use mathlib.Core.Logic.{inl, inr}
use mathlib.Core.List.{List, [], ◌∷◌}
use native.Mathlib.Omega.{arith}
use dilu_go_kit.Base.Tests.{if◌then◌else◌, Bool-cases}
use dilu_go_kit.Base.Text.{Text, beq, beq_iff}
use dilu_go_kit.Base.Text.Order.{before, before_total}

-- sort.Strings
pub place : Text → List Text → List Text
place x [] = x ∷ []
place x (y ∷ ys) = if before y x then y ∷ place x ys else x ∷ y ∷ ys

unfoldable pub sort : List Text → List Text
unfolding place
sort [] = []
sort (x ∷ xs) = place x (sort xs)

abbrev pub has : Text → List Text → Bool
has x [] = false
has x (y ∷ ys) = beq y x || has x ys

abbrev pub IsDistinct : List Text → Type 0
IsDistinct [] = Unit {0}
IsDistinct (x ∷ xs) = (has x xs ≡ false) × IsDistinct xs

abbrev pub above : Text → List Text → Bool
above x [] = true
above x (y ∷ ys) = before x y

abbrev pub IsSorted : List Text → Type 0
IsSorted [] = Unit {0}
IsSorted (x ∷ xs) = (above x xs ≡ true) × IsSorted xs

pub has-place : (j x : Text) (ys : List Text) → has j (place x ys) ≡ (beq x j || has j ys)
unfolding place
has-place j x [] = refl
has-place j x (y ∷ ys) = ground (arith, has-place j x ys)

pub has-sort : (j : Text) (xs : List Text) → has j (sort xs) ≡ has j xs
unfolding sort
has-sort j [] = refl
has-sort j (x ∷ xs) = ground (arith, has-place j x (sort xs), has-sort j xs)

above-place :
    (z x : Text) (ys : List Text)
    → before z x ≡ true
    → above z ys ≡ true
    → above z (place x ys) ≡ true
unfolding place
above-place z x [] p q = p
above-place z x (y ∷ ys) p q = ground arith

place-IsSorted :
    (x : Text) (ys : List Text) → has x ys ≡ false → IsSorted ys → IsSorted (place x ys)
unfolding place
place-IsSorted x [] h s = (refl, tt)
place-IsSorted x (y ∷ ys) h s = elim (Bool-cases (before y x)) [
  | inl less ↦ rw less (above-place y x ys less s.0, place-IsSorted x ys (ground arith) s.1)
  | inr more ↦ rw more (ground (arith, before_total x y, beq_iff y x), (s.0, s.1))
]

-- Distinct strings are sorted into strictly ascending order.
pub sort-IsSorted : (xs : List Text) → IsDistinct xs → IsSorted (sort xs)
unfolding sort
sort-IsSorted [] d = tt
sort-IsSorted (x ∷ xs) d =
    place-IsSorted x (sort xs) (rw (has-sort x xs) d.0) (sort-IsSorted xs d.1)
