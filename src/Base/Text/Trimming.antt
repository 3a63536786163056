-- ===== src/Base/Text/Trimming.antt =====
-- Trimming a text that is trimmed.
use mathlib.Core.Path.{◌≡◌, refl, sym, ap, ◌∙◌}
use mathlib.Core.Bool.{Bool, true, not}
use mathlib.Core.Logic.{inl, inr}
use mathlib.Core.List.{[], ◌∷◌, ◌++◌, reverse, reverse-reverse, reverse-cons}
use native.Mathlib.Omega.{arith}
use dilu_go_kit.Base.Tests.{Bool-cases}
use dilu_go_kit.Base.Text.{Text, is_space, trim_left, trim_space}

-- No space at the start.
abbrev starts : Text → Bool
starts [] = true
starts (c ∷ s) = not (is_space c)

starts-trim_left : (s : Text) → starts (trim_left s) ≡ true
unfolding trim_left
starts-trim_left [] = refl
starts-trim_left (c ∷ s) = ground (arith, starts-trim_left s)

trim_left_fixed : (s : Text) → starts s ≡ true → trim_left s ≡ s
unfolding trim_left
trim_left_fixed [] h = refl
trim_left_fixed (c ∷ s) h = ground arith

starts_front : (r t : Text) → starts (r ++ t) ≡ true → starts r ≡ true
starts_front [] t h = refl
starts_front (d ∷ r) t h = h

-- Trimming on the left leaves the end as it is.
trim_left_end : (s : Text) → starts (reverse s) ≡ true → starts (reverse (trim_left s)) ≡ true
unfolding trim_left
trim_left_end [] h = refl
trim_left_end (c ∷ s) h = elim (Bool-cases (is_space c)) [
  | inl space ↦
      rw space (
        trim_left_end s
          (starts_front (reverse s) (c ∷ []) (ap starts (sym (reverse-cons c s)) ∙ h)))
  | inr other ↦ rw other h
]

pub trim_space_idem : (s : Text) → trim_space (trim_space s) ≡ trim_space s
unfolding trim_space
trim_space_idem s =
    let a = trim_left s in
    let b = trim_left (reverse a) in
    let a_end : starts (reverse (reverse a)) ≡ true =
      ap starts (reverse-reverse a) ∙ starts-trim_left s in
    let b_end : starts (reverse b) ≡ true = trim_left_end (reverse a) a_end in
    let outer : trim_left (reverse b) ≡ reverse b = trim_left_fixed (reverse b) b_end in
    ap (λ t. reverse (trim_left (reverse t))) outer
    ∙ ap (λ t. reverse (trim_left t)) (reverse-reverse b)
    ∙ ap reverse (trim_left_fixed b (starts-trim_left (reverse a)))
