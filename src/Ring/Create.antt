-- ===== src/Ring/Create.antt =====
-- ring_buffer.go: `New` accepts the powers of two, and makes a ring that is safe to claim from.
use disruptor_go.Prelude.{
  ℕ, ◌-◌, ◌^◌, ◌≤◌, ◌<◌, ◌≡◌, refl, ◌⊎◌, inl, inr, Bool, false, not, ◌||◌, List, arith, ltb, ◌==◌,
  Bool-cases, Option, none, some, bit_and,
}
use native.Mathlib.Nat.{one-le-pow}
use disruptor_go.Prelude.Bits.{power_of_bit_and, bit_and-power}
use disruptor_go.Int64.{of_nat, sub, to_u64}
use disruptor_go.Errors.{Result, ok, err, invalid_buffer_size, nil_factory}
use disruptor_go.Heap.{Heap, producer_wait_yielding}
use disruptor_go.Sequencer.{WaitStrategy}
use disruptor_go.Ring.{RingBuffer, new, new_ring, new_sequencer, apply_options}

-- The check of `New` on its size.
abbrev bad_size : ℕ → Bool
bad_size size =
    ltb size (of_nat 1) || not (bit_and (to_u64 size) (to_u64 (sub size (of_nat 1))) == 0)

-- A positive int64 that is a power of two.
abbrev pub IsPowerOfTwo : ℕ → Type 0
IsPowerOfTwo size = (k : ℕ) × (size ≡ of_nat (2 ^ k))

size_numbers :
    (size : ℕ)
    → of_nat 1 ≤ size
    → size < 2 ^ 64
    → (to_u64 size ≡ size - of_nat 0) × (to_u64 (sub size (of_nat 1)) ≡ size - of_nat 0 - 1)
size_numbers size h few = omega arith

bad_size-false : (size : ℕ) → size < 2 ^ 64 → bad_size size ≡ false → IsPowerOfTwo size
bad_size-false size few good =
    let big : of_nat 1 ≤ size = ground arith in
    let numbers = size_numbers size big few in
    let masked : bit_and (to_u64 size) (to_u64 (sub size (of_nat 1))) ≡ 0 = ground arith in
    let (k, e) =
      power_of_bit_and (size - of_nat 0) (omega arith) (rw (numbers.0, numbers.1) at masked) in
    (k, omega (arith, e))

bad_size-power : (k size : ℕ) → size < 2 ^ 64 → size ≡ of_nat (2 ^ k) → bad_size size ≡ false
bad_size-power k size few e =
    let pos : 1 ≤ 2 ^ k = one-le-pow k 2 (omega arith) in
    let numbers = size_numbers size (omega arith) few in
    let same : size - of_nat 0 ≡ 2 ^ k = omega arith in
    let masked : bit_and (to_u64 size) (to_u64 (sub size (of_nat 1))) ≡ 0 =
      rw (numbers.0, numbers.1, same) (bit_and-power k) in
    ground arith

-- What `New` does with a good size, in the order of its checks.
abbrev pub past_size {ℓ} :
    {T : Type ℓ} (size producer_type : ℕ) (factory : Option (ℕ → T)) (wait : Option WaitStrategy)
    (options : List (ℕ → Result ℕ)) (h : Heap)
    → Result (RingBuffer T)
past_size size producer_type none wait options h = err nil_factory
past_size size producer_type (some make) wait options h =
    elim (apply_options options producer_wait_yielding) [
      | err e ↦ err e
      | ok mode ↦ new_ring size make (new_sequencer size producer_type wait mode h)
    ]

-- Every int64 size is either no positive power of two, and `New` refuses it as such whatever its
-- other arguments, or it is one, and `New` then refuses a nil factory first, then passes on an
-- option's error, then refuses an unknown producer type, and otherwise makes a ring.
pub new-branches {ℓ} :
    {T : Type ℓ} (size producer_type : ℕ) (factory : Option (ℕ → T)) (wait : Option WaitStrategy)
    (options : List (ℕ → Result ℕ)) (h : Heap)
    → size < 2 ^ 64
    → ((¬ IsPowerOfTwo size)
        × (new size producer_type factory wait options h ≡ err invalid_buffer_size))
      ⊎ (IsPowerOfTwo size
          × (new size producer_type factory wait options h
              ≡ past_size size producer_type factory wait options h))
unfolding new
new-branches {T} size producer_type factory wait options h few = elim (Bool-cases (bad_size size)) [
  | inl refused ↦
      inl ((λ (k, e). ground (arith, refused, bad_size-power k size few e)), rw refused refl)
  | inr good ↦ inr (bad_size-false size few good, passed good factory)
]
  where
    passed :
        (bad_size size ≡ false)
        → (f : Option (ℕ → T))
        → new size producer_type f wait options h ≡ past_size size producer_type f wait options h
    passed good none = rw good refl
    passed good (some make) = rw good refl
