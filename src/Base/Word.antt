-- ===== src/Base/Word.antt =====
-- Go's int64 (and int on a 64-bit machine) as its bit pattern, a number below 2 ^ 64. Sums and
-- differences wrap; orders read the pattern as a two's complement number.
use lite_aig.Base.Tests.{ltb, leb, if◌then◌else◌}
use lite_aig.Base.Int.{ℤ, pos, sub_ℕ}
use Prim.Native.Nat.{ℕ, ◌+◌, ◌-◌, ◌%◌, ◌≤◌, ◌<◌}
use mathlib.Core.Path.{◌≡◌}
use mathlib.Core.Bool.{Bool, false}
use native.Mathlib.Omega.{arith}

abbrev pub Int64 : Type 0
Int64 = ℕ

abbrev pub word : ℕ
word = 18446744073709551616

-- Half the range: the patterns below it are the numbers that are not negative.
abbrev pub half : ℕ
half = 9223372036854775808

unfoldable pub add64 : Int64 → Int64 → Int64
add64 a b = (a + b) % word

unfoldable pub sub64 : Int64 → Int64 → Int64
sub64 a b = (a + word - b) % word

-- a < b and a ≤ b as signed numbers.
unfoldable pub slt : Int64 → Int64 → Bool
slt a b = ltb ((a + half) % word) ((b + half) % word)

unfoldable pub sle : Int64 → Int64 → Bool
sle a b = leb ((a + half) % word) ((b + half) % word)

-- The number that an int stands for.
unfoldable pub signed : Int64 → ℤ
signed w = if slt w 0 then sub_ℕ w word else pos w

pub add64-lt : (a b : ℕ) → add64 a b < word
unfolding add64
add64-lt a b = omega arith

pub sub64-lt : (a b : ℕ) → sub64 a b < word
unfolding sub64
sub64-lt a b = omega arith

pub add64_fits : (a b : ℕ) → a + b < word → add64 a b ≡ a + b
unfolding add64
add64_fits a b h = omega arith

pub sub64_fits : (a b : ℕ) → b ≤ a → a < word → sub64 a b ≡ a - b
unfolding sub64
sub64_fits a b h k = omega arith

pub slt_small : (a b : ℕ) → a < half → b < half → slt a b ≡ ltb a b
unfolding slt
slt_small a b h k = ground arith

pub sle_small : (a b : ℕ) → a < half → b < half → sle a b ≡ leb a b
unfolding sle
sle_small a b h k = ground arith

-- A pattern in the upper half is a negative number, below every number that is not.
pub slt_wrapped : (a b : ℕ) → a < half → half ≤ b → b < word → slt a b ≡ false
unfolding slt
slt_wrapped a b h k l = ground arith
