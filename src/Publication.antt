-- ===== src/Publication.antt =====
-- publication.go: the word that a slot of the multi-producer sequencer holds.
use disruptor_go.Prelude.{
  ℕ, ◌+◌, ◌*◌, ◌%◌, ◌^◌, ◌<◌, bit_or, List, replicate, length, ◌≡◌, ◌≢◌, sym, ap, ◌∙◌, arith,
}
use disruptor_go.Prelude.Bits.{bit_or_low}
use disruptor_go.Int64.{of_u64, to_u64, minus_one}

-- publicationUnresolved, publicationPublished and publicationDiscarded
abbrev pub unresolved : ℕ
unresolved = 0

abbrev pub published : ℕ
published = 1

abbrev pub discarded : ℕ
discarded = 2

-- publicationValue: `int64(uint64(flag)<<2 | uint64(state))`
unfoldable pub publication_value : ℕ → ℕ → ℕ
publication_value flag state = of_u64 (bit_or (to_u64 flag * 4 % 2 ^ 64) state)

-- discardMarker
unfoldable pub discard_marker : List ℕ → List ℕ
discard_marker slots = replicate (length slots) minus_one

-- For a flag below 2^62 the word is the flag and the state side by side.
pub publication_value_lem :
    (u state : ℕ)
    → u < 2 ^ 62
    → state < 4
    → to_u64 (publication_value (of_u64 u) state) ≡ u * 4 + state
unfolding publication_value
publication_value_lem u state hu hs = rw same (rw (bit_or_low u state hs) (omega arith))
  where
    same : to_u64 (of_u64 u) * 4 % 2 ^ 64 ≡ u * 4
    same = omega arith

-- For flags below 2^62 and states below 4, words are equal only where flag and state are.
pub publication_value-injective :
    (u v s t : ℕ)
    → u < 2 ^ 62
    → v < 2 ^ 62
    → s < 4
    → t < 4
    → publication_value (of_u64 u) s ≡ publication_value (of_u64 v) t
    → (u ≡ v) × (s ≡ t)
publication_value-injective u v s t hu hv hs ht e =
    let both : u * 4 + s ≡ v * 4 + t =
      sym (publication_value_lem u s hu hs) ∙ ap to_u64 e ∙ publication_value_lem v t hv ht in
    omega arith

-- The word of a fresh slot, -1, is the word of no flag below 2^62 and no state that is in use.
pub publication_value-ne-minus_one :
    (u s : ℕ) → u < 2 ^ 62 → s < 3 → publication_value (of_u64 u) s ≢ minus_one
publication_value-ne-minus_one u s hu hs e =
    let word : u * 4 + s ≡ to_u64 minus_one =
      sym (publication_value_lem u s hu (omega arith)) ∙ ap to_u64 e in
    omega arith
