-- ===== src/Int64.antt =====
-- Go's int64 and uint64.
--
-- An int64 x is kept as the number x + 2^63, below 2^64. So the order of the integers is the order
-- of the numbers, and `-1` is `2^63 - 1`. Sums and differences wrap round, as they do in Go.
-- A uint64 is kept as itself. A conversion keeps the two's complement pattern.
use disruptor_go.Prelude.{ℕ, ◌+◌, ◌-◌, ◌%◌, ◌^◌, ◌≤◌, ◌<◌, ◌≡◌, refl, arith}

-- The int64 of a numeral below 2^63.
abbrev pub of_nat : ℕ → ℕ
of_nat n = 2 ^ 63 + n

-- -1
abbrev pub minus_one : ℕ
minus_one = 2 ^ 63 - 1

-- int64(^uint64(0) >> 1)
abbrev pub max_int64 : ℕ
max_int64 = 2 ^ 64 - 1

abbrev pub add : ℕ → ℕ → ℕ
add a b = (a + b + 2 ^ 63) % 2 ^ 64

abbrev pub sub : ℕ → ℕ → ℕ
sub a b = (a + 2 ^ 63 + 2 ^ 64 - b) % 2 ^ 64

abbrev pub to_u64 : ℕ → ℕ
to_u64 a = (a + 2 ^ 63) % 2 ^ 64

abbrev pub of_u64 : ℕ → ℕ
of_u64 u = (u + 2 ^ 63) % 2 ^ 64

-- The numbers that stand for an int64.
abbrev pub IsInt64 : ℕ → Type 0
IsInt64 a = a < 2 ^ 64

wraps : add max_int64 (of_nat 1) ≡ 0
wraps = refl

below_zero : (sub (of_nat 0) (of_nat 1) ≡ minus_one) × (to_u64 minus_one ≡ 0xffff_ffff_ffff_ffff)
below_zero = (refl, refl)

-- Where a sum or a difference of integers fits, it is that of the numbers.
pub add_one_lem : (a : ℕ) → a + 1 < 2 ^ 64 → add a (of_nat 1) ≡ a + 1
add_one_lem a h = omega arith

pub add_lem : (a n : ℕ) → n < 2 ^ 63 → a + n < 2 ^ 64 → add a (of_nat n) ≡ a + n
add_lem a n p h = omega arith

pub sub_lem : (a n : ℕ) → n < 2 ^ 63 → n ≤ a → a < 2 ^ 64 → sub a (of_nat n) ≡ a - n
sub_lem a n p h q = omega arith
