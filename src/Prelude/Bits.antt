-- ===== src/Prelude/Bits.antt =====
-- `x & (size - 1)` and `flag << 2 | state` as arithmetic: the bit operations at any width.
use Prim.Native.Nat.{min, max, digits, bit_and-bitwise, bit_or-bitwise}
use Prim.Native.Nat.{ℕ, zero, suc, ◌+◌, ◌-◌, ◌*◌, ◌/◌, ◌%◌, ◌^◌, ◌≤◌, ◌<◌, bit_and, bit_or}
use mathlib.Core.Path.{◌≡◌, refl, ap, ◌∙◌}
use mathlib.Core.Logic.{◌≢◌}
use native.Mathlib.Nat.{pow-suc, one-le-pow}
use native.Mathlib.Decide.{ℕ_discrete}
use native.Mathlib.Omega.{arith}

-- The recursion on digits behind the native operations does not depend on its fuel.
enough_digits :
    (z : ℕ → ℕ) (f : ℕ → ℕ → ℕ) (n k a b : ℕ) → a ≤ n → a ≤ k → digits z f n a b ≡ digits z f k a b
enough_digits z f zero zero zero b p q = refl
enough_digits z f zero (suc k) zero b p q = refl
enough_digits z f (suc n) zero zero b p q = refl
enough_digits z f (suc n) (suc k) zero b p q = refl
enough_digits z f zero k (suc a) b p q = absurd (omega arith)
enough_digits z f (suc n) zero (suc a) b p q = absurd (omega arith)
enough_digits z f (suc n) (suc k) (suc a) b p q =
    rw (enough_digits z f n k (suc a / 2) (b / 2) (omega arith) (omega arith))

pub bit_or-digit : (a b : ℕ) → bit_or a b ≡ bit_or (a / 2) (b / 2) * 2 + max (a % 2) (b % 2)
bit_or-digit zero b = omega (arith, bit_or-bitwise 0 b, bit_or-bitwise 0 (b / 2))
bit_or-digit (suc a) b = omega (
  arith,
  bit_or-bitwise (suc a) b,
  bit_or-bitwise (suc a / 2) (b / 2),
  enough_digits (λ y. y) max a (suc a / 2) (suc a / 2) (b / 2) (omega arith) (omega arith),
)

pub bit_and-digit : (a b : ℕ) → bit_and a b ≡ bit_and (a / 2) (b / 2) * 2 + min (a % 2) (b % 2)
bit_and-digit zero b = omega (arith, bit_and-bitwise 0 b, bit_and-bitwise 0 (b / 2))
bit_and-digit (suc a) b = omega (
  arith,
  bit_and-bitwise (suc a) b,
  bit_and-bitwise (suc a / 2) (b / 2),
  enough_digits (λ y. 0) min a (suc a / 2) (suc a / 2) (b / 2) (omega arith) (omega arith),
)

-- Each law below goes from `a / 2` to `a`, so it is proved for all numbers up to a bound.
and-zero_upto : (n a : ℕ) → a ≤ n → bit_and a 0 ≡ 0
and-zero_upto n zero h = refl
and-zero_upto zero (suc a) h = absurd (omega arith)
and-zero_upto (suc n) (suc a) h =
    omega (arith, bit_and-digit (suc a) 0, and-zero_upto n (suc a / 2) (omega arith))

or-zero_upto : (n a : ℕ) → a ≤ n → bit_or a 0 ≡ a
or-zero_upto n zero h = refl
or-zero_upto zero (suc a) h = absurd (omega arith)
or-zero_upto (suc n) (suc a) h =
    omega (arith, bit_or-digit (suc a) 0, or-zero_upto n (suc a / 2) (omega arith))

self_and_upto : (n a : ℕ) → a ≤ n → bit_and a a ≡ a
self_and_upto n zero h = refl
self_and_upto zero (suc a) h = absurd (omega arith)
self_and_upto (suc n) (suc a) h =
    omega (arith, bit_and-digit (suc a) (suc a), self_and_upto n (suc a / 2) (omega arith))

pub bit_and_self : (a : ℕ) → bit_and a a ≡ a
bit_and_self a = self_and_upto a a (omega arith)

-- A mask of `k` ones keeps the `k` low digits of a number that is given by its two parts.
mask_parts : (k hi lo m : ℕ) → lo < 2 ^ k → m + 1 ≡ 2 ^ k → bit_and (hi * 2 ^ k + lo) m ≡ lo
mask_parts zero hi lo m h e =
    let none_left : m ≡ 0 = omega arith in
    rw none_left (omega (arith, and-zero_upto (hi * 2 ^ 0 + lo) (hi * 2 ^ 0 + lo) (omega arith)))
mask_parts (suc k) hi lo m h e =
    let doubled : hi * 2 ^ suc k ≡ 2 * (hi * 2 ^ k) =
      omega (arith, ap (λ (t : ℕ). hi * t) (pow-suc 2 k)) in
    let shifted : (hi * 2 ^ suc k + lo) / 2 ≡ hi * 2 ^ k + lo / 2 = omega (arith, doubled) in
    let rest : bit_and (hi * 2 ^ k + lo / 2) (m / 2) ≡ lo / 2 =
      mask_parts k hi (lo / 2) (m / 2) (omega (arith, pow-suc 2 k)) (omega (arith, pow-suc 2 k)) in
    let halved : bit_and ((hi * 2 ^ suc k + lo) / 2) (m / 2) ≡ lo / 2 = rw shifted rest in
    omega (arith, pow-suc 2 k, doubled, bit_and-digit (hi * 2 ^ suc k + lo) m, halved)

-- `x & (2^k - 1)` is the remainder by `2 ^ k`.
pub bit_and-mask : (k a : ℕ) → bit_and a (2 ^ k - 1) ≡ a % 2 ^ k
bit_and-mask k a = rw (split) at parts
  where
    pos : 1 ≤ 2 ^ k
    pos = one-le-pow k 2 (omega arith)

    split : a / 2 ^ k * 2 ^ k + a % 2 ^ k ≡ a
    split = grind (arith, pos)

    parts : bit_and (a / 2 ^ k * 2 ^ k + a % 2 ^ k) (2 ^ k - 1) ≡ a % 2 ^ k
    parts =
        mask_parts k (a / 2 ^ k) (a % 2 ^ k) (2 ^ k - 1) (omega (arith, pos)) (omega (arith, pos))

-- A state below four fits under a number shifted left by two.
pub bit_or_low : (x s : ℕ) → s < 4 → bit_or (x * 4) s ≡ x * 4 + s
bit_or_low x s h = omega (arith, bit_or-digit (x * 4) s, twice, quarter)
  where
    bare : bit_or x 0 ≡ x
    bare = or-zero_upto x x (omega arith)

    once : bit_or (x * 4 / 2 / 2) (s / 2 / 2) ≡ x
    once =
        let a : x * 4 / 2 / 2 ≡ x = omega arith in
        let b : s / 2 / 2 ≡ 0 = omega arith in rw (a, b) bare

    quarter : bit_or (x * 4 / 2) (s / 2) ≡ x * 2 + s / 2 % 2
    quarter = omega (arith, once, bit_or-digit (x * 4 / 2) (s / 2))

    twice : s ≡ s / 2 * 2 + s % 2
    twice = omega arith

-- `n & (n - 1)` is zero exactly at the powers of two.
power_upto : (f n : ℕ) → n ≤ f → 0 < n → bit_and n (n - 1) ≡ 0 → (k : ℕ) × (n ≡ 2 ^ k)
power_upto zero n le pos h = absurd (omega arith)
power_upto (suc f) n le pos h = elim (ℕ_discrete (n % 2) 1) [
  | yes odd ↦ (0, omega (arith, bit_and-digit n (n - 1), halves_equal odd))
  | no even ↦
      (let (k, e) = power_upto f (n / 2) (omega arith) (omega arith) (halved even) in
        (suc k, omega (arith, e, pow-suc 2 k)))
]
  where
    halves_equal : n % 2 ≡ 1 → bit_and (n / 2) ((n - 1) / 2) ≡ n / 2
    halves_equal odd =
        let same : (n - 1) / 2 ≡ n / 2 = omega arith in rw same (bit_and_self (n / 2))

    halved : n % 2 ≢ 1 → bit_and (n / 2) (n / 2 - 1) ≡ 0
    halved even =
        let same : (n - 1) / 2 ≡ n / 2 - 1 = omega arith in
        let digit : bit_and (n / 2) ((n - 1) / 2) ≡ 0 = omega (arith, h, bit_and-digit n (n - 1)) in
        rw same at digit

pub power_of_bit_and : (n : ℕ) → 0 < n → bit_and n (n - 1) ≡ 0 → (k : ℕ) × (n ≡ 2 ^ k)
power_of_bit_and n = power_upto n n (omega arith)

pub bit_and-power : (k : ℕ) → bit_and (2 ^ k) (2 ^ k - 1) ≡ 0
bit_and-power k = bit_and-mask k (2 ^ k) ∙ grind (arith, one-le-pow k 2 (omega arith))
