-- ===== src/Prelude/Number.antt =====
-- JavaScript numbers as far as the program computes with them: the integers and NaN. Integers are
-- exact here at every size (the source's are exact up to 2^53, which no timestamp in seconds or
-- milliseconds reaches); ±Infinity and fractions do not arise from the program's `parseInt`,
-- `Math.floor` and `Date.now` at the sizes in question.
use Prim.Native.Nat.{ℕ, suc, ◌+◌, ◌-◌}
use mathlib.Core.Bool.{Bool, false}
use zuul_proxy.Prelude.Tests.{ltb, leb, if◌then◌else◌}

-- `negsuc n` is -(n + 1).
pub data ℤ : Type 0 where
  pos : ℕ → ℤ
  negsuc : ℕ → ℤ

abbrev pub pos_part : ℤ → ℕ
pos_part (pos n) = n
pos_part (negsuc n) = 0

abbrev pub neg_part : ℤ → ℕ
neg_part (pos n) = 0
neg_part (negsuc n) = suc n

-- a - b, as an integer.
abbrev pub sub_ℕ : ℕ → ℕ → ℤ
sub_ℕ a b = if leb b a then pos (a - b) else negsuc (b - a - 1)

infixl 65 ◌-ℤ◌
unfoldable pub ◌-ℤ◌ : ℤ → ℤ → ℤ
a -ℤ b = sub_ℕ (pos_part a + neg_part b) (neg_part a + pos_part b)

pub data Number : Type 0 where
  nan : Number
  int : ℤ → Number

-- A natural number as a JavaScript number.
abbrev pub nat : ℕ → Number
nat n = int (pos n)

-- `a - b`
abbrev pub sub : Number → Number → Number
sub nan b = nan
sub (int a) nan = nan
sub (int a) (int b) = int (a -ℤ b)

-- `Math.abs(a)`
abbrev pub abs : Number → Number
abs nan = nan
abs (int a) = nat (pos_part a + neg_part a)

-- `a > b`: false where an operand is NaN
abbrev pub gt : Number → Number → Bool
gt nan b = false
gt (int a) nan = false
gt (int a) (int b) = ltb (pos_part b + neg_part a) (pos_part a + neg_part b)

-- `a < b`
abbrev pub lt : Number → Number → Bool
lt a b = gt b a
