-- ===== src/Base/Text.antt =====
-- Text as its code points: the strings of the model are valid UTF-8. `len` counts bytes, and a loop
-- over the bytes that looks for ASCII characters is a loop over the code points.
pub mod Commas
pub mod Order
pub mod Sorting
pub mod Trimming
use Prim.Native.Char.{code}
use Prim.Native.String.{String}
use Prim.Native.Nat.{ℕ, ◌+◌, ◌-◌}
use mathlib.Core.Path.{◌≡◌, refl, sym, ◌∙◌, ap}
use mathlib.Core.Bool.{Bool, true, false, ◌&&◌, ◌||◌, not}
use mathlib.Core.Logic.{◌↔◌}
use mathlib.Core.List.{List, [], ◌∷◌, ◌++◌, map, reverse, reverse-reverse, reverse-cons}
use native.Mathlib.Omega.{arith}
use dilu_go_kit.Base.Tests.{◌==◌, leb, ltb, if◌then◌else◌}
use dilu_go_kit.Base.Lists.{All, all, All-snoc}

abbrev pub Text : Type 0
Text = List ℕ

abbrev pub codes : String → Text
codes String.[] = []
codes (String.◌∷◌ c s) = code c ∷ codes s

-- `a == b` on strings.
unfoldable pub beq : Text → Text → Bool
beq [] [] = true
beq [] (y ∷ ys) = false
beq (x ∷ xs) [] = false
beq (x ∷ xs) (y ∷ ys) = x == y && beq xs ys

pub beq_iff : (a b : Text) → (beq a b ≡ true) ↔ (a ≡ b)
unfolding beq
beq_iff [] [] = ground arith
beq_iff [] (y ∷ ys) = ground arith
beq_iff (x ∷ xs) [] = ground arith
beq_iff (x ∷ xs) (y ∷ ys) = ground (arith, beq_iff xs ys)

-- The bytes of a code point in UTF-8.
abbrev pub width : ℕ → ℕ
width c = if ltb c 0x80 then 1 else if ltb c 0x800 then 2 else if ltb c 0x10000 then 3 else 4

-- `len(s)`
unfoldable pub len : Text → ℕ
len [] = 0
len (c ∷ s) = width c + len s

-- unicode.IsSpace
unfoldable pub is_space : ℕ → Bool
is_space c =
    (leb 9 c && leb c 13)
    || c == 32
    || c == 0x85
    || c == 0xA0
    || c == 0x1680
    || (leb 0x2000 c && leb c 0x200A)
    || c == 0x2028
    || c == 0x2029
    || c == 0x202F
    || c == 0x205F
    || c == 0x3000

unfoldable pub trim_left : Text → Text
trim_left [] = []
trim_left (c ∷ s) = let rest = trim_left s in if is_space c then rest else c ∷ s

-- strings.TrimSpace
unfoldable pub trim_space : Text → Text
unfolding trim_left
trim_space s = reverse (trim_left (reverse (trim_left s)))

-- unicode.ToLower on ASCII, and on the two other letters whose lower case is ASCII.
unfoldable pub to_lower : ℕ → ℕ
to_lower c =
    if leb b'A' c && leb c b'Z'
    then c + 32
    else if c == 0x130
    then b'i'
    else if c == 0x212A
    then b'k'
    else c

-- strings.Contains for a one-character needle.
unfoldable pub contains : ℕ → Text → Bool
contains b [] = false
contains b (c ∷ s) = c == b || contains b s

-- strings.ContainsAny(s, "\r\n\x00")
unfoldable pub has_control : Text → Bool
has_control [] = false
has_control (c ∷ s) = c == 13 || c == 10 || c == 0 || has_control s

-- Whether `rest` is what is left of the text behind a prefix: strings.HasPrefix and TrimPrefix.
unfoldable pub has_prefix : Text → Text → Bool
has_prefix [] s = true
has_prefix (c ∷ p) [] = false
has_prefix (c ∷ p) (d ∷ s) = c == d && has_prefix p s

unfoldable pub drop_prefix : Text → Text → Text
drop_prefix [] s = s
drop_prefix (c ∷ p) [] = []
drop_prefix (c ∷ p) (d ∷ s) = drop_prefix p s

-- No character of the text is a space.
abbrev pub SpaceFree : Text → Type 0
SpaceFree = All (λ c. is_space c ≡ false)

trim_left_free : (s : Text) → SpaceFree s → trim_left s ≡ s
unfolding trim_left
trim_left_free [] h = refl
trim_left_free (c ∷ s) h = rw (h.0)

SpaceFree-reverse : (s : Text) → SpaceFree s → SpaceFree (reverse s)
SpaceFree-reverse [] h = tt
SpaceFree-reverse (c ∷ s) h =
    rw (reverse-cons c s)
      (All-snoc (λ d. is_space d ≡ false) (reverse s) c h.0 (SpaceFree-reverse s h.1))

pub trim_space_free : (s : Text) → SpaceFree s → trim_space s ≡ s
unfolding trim_space
trim_space_free s h =
    rw (trim_left_free s h, trim_left_free (reverse s) (SpaceFree-reverse s h)) (reverse-reverse s)

pub has_prefix-append : (p s : Text) → has_prefix p (p ++ s) ≡ true
unfolding has_prefix
has_prefix-append [] s = refl
has_prefix-append (c ∷ p) s = ground (arith, has_prefix-append p s)

pub drop_prefix-append : (p s : Text) → drop_prefix p (p ++ s) ≡ s
unfolding drop_prefix
drop_prefix-append [] s = refl
drop_prefix-append (c ∷ p) s = drop_prefix-append p s
