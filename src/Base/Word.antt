-- ===== src/Base/Word.antt =====
-- Go's int and int64 as 64-bit patterns: numbers below 2^64, the upper half negative.
use Prim.Native.Nat.{ℕ, ◌+◌, ◌-◌, ◌%◌, ◌<◌}
use mathlib.Core.Path.{◌≡◌}
use mathlib.Core.Bool.{Bool, ◌||◌}
use native.Mathlib.Omega.{arith}
use accounts.Base.Tests.{ltb, leb, ◌==◌}

abbrev pub word : ℕ
word = 18446744073709551616

abbrev pub half_word : ℕ
half_word = 9223372036854775808

abbrev pub add64 : ℕ → ℕ → ℕ
add64 a b = (a + b) % word

abbrev pub sub64 : ℕ → ℕ → ℕ
sub64 a b = (a + word - b) % word

-- Equality of ints, whatever numbers stand for them.
abbrev pub eq64 : ℕ → ℕ → Bool
eq64 a b = a % word == b % word

-- The signed orders: flipping the top bit turns them into the orders of the patterns.
abbrev pub flip_sign : ℕ → ℕ
flip_sign a = (a + half_word) % word

abbrev pub slt : ℕ → ℕ → Bool
slt a b = ltb (flip_sign a) (flip_sign b)

abbrev pub sle : ℕ → ℕ → Bool
sle a b = leb (flip_sign a) (flip_sign b)

-- `n >= m` for a count n of entries, a number that is never negative and no pattern.
abbrev pub reaches : ℕ → ℕ → Bool
reaches n m = leb half_word (m % word) || leb (m % word) n

-- The signed order of numbers that are not negative is that of the numbers.
pub sle-leb : (a b : ℕ) → a < half_word → b < half_word → sle a b ≡ leb a b
sle-leb a b p q = ground arith
