-- ===== src/Base/Int.antt =====
-- Signed integers (Go's int, int64 and time.Duration) over the native numbers.
use Prim.Native.Nat.{ℕ, suc, ◌+◌, ◌-◌, ◌≤◌, ◌<◌}
use mathlib.Core.Path.{◌≡◌}
use mathlib.Core.Bool.{Bool}
use native.Mathlib.Omega.{arith}
use dilu_go_kit.Base.Tests.{ltb, leb, if◌then◌else◌}

-- `negsuc n` is -(n + 1).
pub data ℤ : Type 0 where
  pos : ℕ → ℤ
  negsuc : ℕ → ℤ

abbrev pub pos_part : ℤ → ℕ
pos_part (pos n) = n
pos_part (negsuc n) = 0

abbrev pub neg_part : ℤ → ℕ
neg_part (pos n) = 0
neg_part (negsuc n) = suc n

abbrev pub sub_ℕ : ℕ → ℕ → ℤ
sub_ℕ a b = if leb b a then pos (a - b) else negsuc (b - a - 1)

infixl 65 ◌-ℤ◌
abbrev pub ◌-ℤ◌ : ℤ → ℤ → ℤ
a -ℤ b = sub_ℕ (pos_part a + neg_part b) (neg_part a + pos_part b)

infix 50 ◌≤ℤ◌ ◌<ℤ◌
abbrev pub ◌≤ℤ◌ : ℤ → ℤ → Type 0
a ≤ℤ b = pos_part a + neg_part b ≤ pos_part b + neg_part a

abbrev pub ◌<ℤ◌ : ℤ → ℤ → Type 0
a <ℤ b = pos_part a + neg_part b < pos_part b + neg_part a

abbrev pub ltb_ℤ : ℤ → ℤ → Bool
ltb_ℤ a b = ltb (pos_part a + neg_part b) (pos_part b + neg_part a)

abbrev pub leb_ℤ : ℤ → ℤ → Bool
leb_ℤ a b = leb (pos_part a + neg_part b) (pos_part b + neg_part a)

-- `if v <= 0 { v = d }`: the value is positive from then on, and is kept as a natural number.
abbrev pub positive_or : ℕ → ℤ → ℕ
positive_or d (pos n) = if ltb 0 n then n else d
positive_or d (negsuc n) = d

-- `if v <= 0 { v = d }; if v > hi { v = hi }`
abbrev pub clamped : ℤ → ℤ → ℤ → ℤ
clamped d hi v = let w = if leb_ℤ v (pos 0) then d else v in if ltb_ℤ hi w then hi else w

pub clamped_again :
    (d hi : ℕ) (v : ℤ)
    → (0 < d) × (d ≤ hi)
    → clamped (pos d) (pos hi) (clamped (pos d) (pos hi) v) ≡ clamped (pos d) (pos hi) v
clamped_again d hi v h = ground arith
