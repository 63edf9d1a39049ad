-- ===== src/Prelude/Slots.antt =====
-- Logical positions and their slots: remainder and quotient by the number of slots.
use Prim.Native.Nat.{ℕ, ◌+◌, ◌*◌, ◌/◌, ◌%◌, ◌≤◌, ◌<◌}
use mathlib.Core.Path.{◌≡◌, ap}
use native.Mathlib.Nat.{div-add-mod}
use native.Mathlib.Decide.{dec_lt}
use native.Mathlib.Omega.{arith}

pub eq_of_slot_lap : (k n m : ℕ) → n % k ≡ m % k → n / k ≡ m / k → n ≡ m
eq_of_slot_lap k n m r q = omega (arith, div-add-mod n k, div-add-mod m k, ap (λ (t : ℕ). k * t) q)

-- Two positions that share a slot are a whole lap apart.
pub lap_apart : (k n m : ℕ) → n % k ≡ m % k → n < m → n + k ≤ m
lap_apart k n m r h = elim (dec_lt (n / k) (m / k)) [
  | yes later ↦ grind (arith, div-add-mod n k, div-add-mod m k)
  | no not_later ↦ absurd (grind (arith, div-add-mod n k, div-add-mod m k))
]

pub eq_of_slot_near : (k n m : ℕ) → n % k ≡ m % k → n < m + k → m < n + k → n ≡ m
eq_of_slot_near k n m r p q = elim (dec_lt n m) [
  | yes below ↦ absurd (omega (arith, lap_apart k n m r below))
  | no above ↦ elim (dec_lt m n) [
    | yes below ↦ absurd (omega (arith, lap_apart k m n (omega arith) below))
    | no not_below ↦ omega arith
  ]
]
