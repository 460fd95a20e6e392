-- ===== src/Base/Int.antt =====
-- Signed integers over the native numbers, and Rust's `i64` as the integers in its range.
use Prim.Native.Nat.{ℕ, suc, ◌+◌, ◌-◌, ◌≤◌, ◌<◌, ◌^◌}
use mathlib.Core.Path.{◌≡◌}
use mathlib.Core.Bool.{Bool, ◌&&◌}
use mathlib.Core.Option.{Option, none, some}
use native.Mathlib.Omega.{arith}
use entros_governance_plugin.Base.Tests.{ltb, leb, if◌then◌else◌}

-- `negsuc n` is -(n + 1).
pub data ℤ : Type 0 where
  pos : ℕ → ℤ
  negsuc : ℕ → ℤ

abbrev pub pos_part : ℤ → ℕ
pos_part (pos n) = n
pos_part (negsuc n) = 0

abbrev pub neg_part : ℤ → ℕ
neg_part (pos n) = 0
neg_part (negsuc n) = suc n

abbrev pub sub_ℕ : ℕ → ℕ → ℤ
sub_ℕ a b = if leb b a then pos (a - b) else negsuc (b - a - 1)

infixl 65 ◌+ℤ◌ ◌-ℤ◌
infix 50 ◌≤ℤ◌ ◌<ℤ◌
unfoldable pub ◌+ℤ◌ : ℤ → ℤ → ℤ
a +ℤ b = sub_ℕ (pos_part a + pos_part b) (neg_part a + neg_part b)

unfoldable pub ◌-ℤ◌ : ℤ → ℤ → ℤ
a -ℤ b = sub_ℕ (pos_part a + neg_part b) (neg_part a + pos_part b)

abbrev pub ◌≤ℤ◌ : ℤ → ℤ → Type 0
a ≤ℤ b = pos_part a + neg_part b ≤ pos_part b + neg_part a

abbrev pub ◌<ℤ◌ : ℤ → ℤ → Type 0
a <ℤ b = pos_part a + neg_part b < pos_part b + neg_part a

abbrev pub ltb_ℤ : ℤ → ℤ → Bool
ltb_ℤ a b = ltb (pos_part a + neg_part b) (pos_part b + neg_part a)

abbrev pub leb_ℤ : ℤ → ℤ → Bool
leb_ℤ a b = leb (pos_part a + neg_part b) (pos_part b + neg_part a)

-- With these the operations can stay shut.
pub +ℤ_parts :
    (a b : ℤ)
    → pos_part (a +ℤ b) + neg_part a + neg_part b ≡ neg_part (a +ℤ b) + pos_part a + pos_part b
unfolding ◌+ℤ◌
+ℤ_parts a b = ground arith

pub -ℤ_parts :
    (a b : ℤ)
    → pos_part (a -ℤ b) + neg_part a + pos_part b ≡ neg_part (a -ℤ b) + pos_part a + neg_part b
unfolding ◌-ℤ◌
-ℤ_parts a b = ground arith

abbrev pub i64_max : ℤ
i64_max = pos (2 ^ 63 - 1)

abbrev pub i64_min : ℤ
i64_min = negsuc (2 ^ 63 - 1)

abbrev pub IsI64 : ℤ → Type 0
IsI64 a = (i64_min ≤ℤ a) × (a ≤ℤ i64_max)

-- `i64::checked_sub`: the exact difference, or `none` where it does not fit.
unfoldable pub checked_sub : ℤ → ℤ → Option ℤ
checked_sub a b = let d = a -ℤ b in if leb_ℤ i64_min d && leb_ℤ d i64_max then some d else none

-- The 64-bit pattern of an `i64`, and the `i64` of a pattern.
unfoldable pub i64_of_pattern : ℕ → ℤ
i64_of_pattern w = if ltb w (2 ^ 63) then pos w else negsuc (2 ^ 64 - w - 1)

unfoldable pub pattern_of_i64 : ℤ → ℕ
pattern_of_i64 (pos n) = n
pattern_of_i64 (negsuc n) = 2 ^ 64 - n - 1

pub i64_of_pattern-pattern_of_i64 : (a : ℤ) → IsI64 a → i64_of_pattern (pattern_of_i64 a) ≡ a
unfolding i64_of_pattern pattern_of_i64
i64_of_pattern-pattern_of_i64 (pos n) h = ground arith
i64_of_pattern-pattern_of_i64 (negsuc n) h = ground arith

pub pattern_of_i64-lt : (a : ℤ) → IsI64 a → pattern_of_i64 a < 2 ^ 64
unfolding pattern_of_i64
pattern_of_i64-lt (pos n) h = omega arith
pattern_of_i64-lt (negsuc n) h = omega arith

pub i64_of_pattern-IsI64 : (w : ℕ) → w < 2 ^ 64 → IsI64 (i64_of_pattern w)
unfolding i64_of_pattern
i64_of_pattern-IsI64 w h = ground arith
