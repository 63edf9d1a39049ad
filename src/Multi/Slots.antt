-- ===== src/Multi/Slots.antt =====
-- sequencer_multi.go: the slot, the flag and the word of a sequence.
use disruptor_go.Prelude.{
  ℕ, ◌+◌, ◌-◌, ◌/◌, ◌%◌, ◌^◌, ◌≤◌, ◌<◌, ◌≡◌, sym, ◌∙◌, Bool, arith, ◌==◌, length, get_or,
}
use native.Mathlib.Nat.{mod-lt, one-le-pow, div-le_self}
use disruptor_go.Prelude.Bits.{bit_and-mask}
use disruptor_go.Prelude.Slots.{eq_of_slot_lap, eq_of_slot_near}
use disruptor_go.Int64.{of_nat, of_u64, to_u64}
use disruptor_go.Publication.{publication_value, publication_value-injective, unresolved}
use disruptor_go.Multi.{MultiProducerSequencer, index, flag}

-- A sequence of the first 2^62. Beyond those the word of a ring of one slot repeats.
abbrev pub InRange : ℕ → Type 0
InRange q = (of_nat 0 ≤ q) × (q < of_nat (2 ^ 62))

-- The ring has 2^k slots.
pub record IsRing (k : ℕ) (s : MultiProducerSequencer) : Type 0 where
  pub mask : s.index_mask ≡ 2 ^ k - 1
  pub shift : s.index_shift ≡ k
  pub slots : length s.available ≡ 2 ^ k
  pub size : s.buffer_size ≡ of_nat (2 ^ k)
  pub small : 2 ^ k ≤ 2 ^ 62

-- The word of a sequence's slot.
abbrev pub word : MultiProducerSequencer → ℕ → ℕ
word s q = get_or s.available (index s q) (of_nat 0)

-- Whether a sequence is claimed and not resolved: what `resolve` exchanges.
unfoldable pub is_claimed : MultiProducerSequencer → ℕ → Bool
is_claimed s q = word s q == publication_value (flag s q) unresolved

module _ {k : ℕ} {s : MultiProducerSequencer} (ring : IsRing k s) where
  open ring use {mask, shift, slots}

  pub index_lem : (q : ℕ) → InRange q → index s q ≡ (q - of_nat 0) % 2 ^ k
  unfolding index
  index_lem q r =
      let at_zero : to_u64 q ≡ q - of_nat 0 = omega arith in rw (mask, at_zero) (bit_and-mask k _)

  pub flag_lem : (q : ℕ) → InRange q → flag s q ≡ of_u64 ((q - of_nat 0) / 2 ^ k)
  unfolding flag
  flag_lem q r = let at_zero : to_u64 q ≡ q - of_nat 0 = omega arith in rw (shift, at_zero)

  -- `Get` and the publication words never leave their slices.
  pub index-lt : (q : ℕ) → InRange q → index s q < length s.available
  index-lt q r = rw (index_lem q r, slots) (mod-lt _ (one-le-pow k 2 (omega arith)))

  pub lap-lt : (q : ℕ) → InRange q → (q - of_nat 0) / 2 ^ k < 2 ^ 62
  lap-lt q r = omega (arith, div-le_self (q - of_nat 0) (2 ^ k))

  -- Two sequences put the same word in the same slot only if they are one, in one state.
  pub word-injective :
      (q r a b : ℕ)
      → InRange q
      → InRange r
      → a < 4
      → b < 4
      → index s q ≡ index s r
      → publication_value (flag s q) a ≡ publication_value (flag s r) b
      → (q ≡ r) × (a ≡ b)
  word-injective q r a b hq hr ha hb slot e = (omega (arith, same), both.1)
    where
      n : ℕ
      n = q - of_nat 0

      m : ℕ
      m = r - of_nat 0

      words : publication_value (of_u64 (n / 2 ^ k)) a ≡ publication_value (of_u64 (m / 2 ^ k)) b
      words = rw (flag_lem q hq, flag_lem r hr) at e

      both : (n / 2 ^ k ≡ m / 2 ^ k) × (a ≡ b)
      both =
          publication_value-injective (n / 2 ^ k) (m / 2 ^ k) a b (lap-lt q hq) (lap-lt r hr) ha hb
            words

      rests : n % 2 ^ k ≡ m % 2 ^ k
      rests = sym (index_lem q hq) ∙ slot ∙ index_lem r hr

      same : n ≡ m
      same = eq_of_slot_lap (2 ^ k) n m rests both.0

  -- Sequences less than a lap apart have slots of their own.
  pub eq_of_index :
      (q r : ℕ)
      → InRange q
      → InRange r
      → r < q + 2 ^ k
      → q < r + 2 ^ k
      → index s q ≡ index s r
      → q ≡ r
  eq_of_index q r hq hr below above slot =
      let same : q - of_nat 0 ≡ r - of_nat 0 =
        eq_of_slot_near (2 ^ k) (q - of_nat 0) (r - of_nat 0)
          (sym (index_lem q hq) ∙ slot ∙ index_lem r hr) (omega arith) (omega arith) in
      omega (arith, same)
