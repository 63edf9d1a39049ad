-- ===== src/Multi/Words.antt =====
-- sequencer_multi.go: what one round of `prepare` and of `resolve` does to every sequence.
use disruptor_go.Prelude.{
  ℕ, ◌<◌, ◌≡◌, ◌≢◌, true, false, ◌&&◌, arith, ◌==◌, if◌then◌else◌, get_or-set_self, get_or-set_ne,
  length-set,
}
use disruptor_go.Int64.{of_nat}
use disruptor_go.Publication.{publication_value, unresolved, published, discarded}
use disruptor_go.Multi.{MultiProducerSequencer, index, flag, prepare_one, resolve_one, resolution}
use disruptor_go.Multi.Slots.{InRange, IsRing, word, is_claimed, index-lt, word-injective}

pub prepare_one-IsRing :
    {k : ℕ} {s : MultiProducerSequencer} (q : ℕ) → IsRing k s → IsRing k (prepare_one q s)
unfolding prepare_one
prepare_one-IsRing {k} {s} q ring =
    ground (arith, length-set s.available (index s q) (publication_value (flag s q) unresolved))

pub resolve_one-IsRing :
    {k : ℕ} {s : MultiProducerSequencer} (x q : ℕ) → IsRing k s → IsRing k (resolve_one x q s)
unfolding resolve_one
resolve_one-IsRing {k} {s} x q ring =
    ground (arith, length-set s.available (index s q) (publication_value (flag s q) x))

module _ {k : ℕ} {s : MultiProducerSequencer} (ring : IsRing k s) (q r : ℕ) (hq : InRange q) where
  word-prepare_one :
      word (prepare_one q s) r
      ≡ (if index s q == index s r then publication_value (flag s q) unresolved else word s r)
  unfolding prepare_one index flag
  word-prepare_one = ground (
    arith,
    index-lt ring q hq,
    get_or-set_self s.available (index s q) (publication_value (flag s q) unresolved) (of_nat 0),
    get_or-set_ne s.available (index s q) (index s r) (publication_value (flag s q) unresolved)
        (of_nat 0),
  )

  word-resolve_one :
      (x : ℕ)
      → word (resolve_one x q s) r ≡ (
          if (index s q == index s r) && is_claimed s q
          then publication_value (flag s q) x
          else word s r)
  unfolding resolve_one is_claimed index flag
  word-resolve_one x = ground (
    arith,
    index-lt ring q hq,
    get_or-set_self s.available (index s q) (publication_value (flag s q) x) (of_nat 0),
    get_or-set_ne s.available (index s q) (index s r) (publication_value (flag s q) x) (of_nat 0),
  )

-- A claim makes its own sequence claimed, and wipes what an earlier lap left in the slot.
module _ {k : ℕ} {s : MultiProducerSequencer} (ring : IsRing k s) where
  pub is_claimed-prepare_one :
      (q r : ℕ)
      → InRange q
      → InRange r
      → is_claimed (prepare_one q s) r
        ≡ (if q == r then true else if index s q == index s r then false else is_claimed s r)
  unfolding is_claimed prepare_one index flag
  is_claimed-prepare_one q r hq hr = ground (
    arith,
    word-prepare_one ring q r hq,
    word-injective ring q r unresolved unresolved hq hr (omega arith) (omega arith),
  )

  pub resolution-prepare_one :
      (q r : ℕ)
      → InRange q
      → InRange r
      → resolution (prepare_one q s) r
        ≡ (if index s q == index s r then unresolved else resolution s r)
  unfolding resolution prepare_one index flag
  resolution-prepare_one q r hq hr = ground (
    arith,
    word-prepare_one ring q r hq,
    word-injective ring q r unresolved published hq hr (omega arith) (omega arith),
    word-injective ring q r unresolved discarded hq hr (omega arith) (omega arith),
  )

  -- A resolution takes effect on a claimed sequence alone, and takes the claim away.
  pub is_claimed-resolve_one :
      (x q r : ℕ)
      → x ≢ unresolved
      → x < 3
      → InRange q
      → InRange r
      → is_claimed (resolve_one x q s) r ≡ (if q == r then false else is_claimed s r)
  unfolding is_claimed resolve_one index flag
  is_claimed-resolve_one x q r nx hx hq hr = ground (
    arith,
    word-resolve_one ring q r hq x,
    word-injective ring q r x unresolved hq hr (omega arith) (omega arith),
    word-injective ring q r unresolved unresolved hq hr (omega arith) (omega arith),
  )

  pub resolution-resolve_one :
      (x q r : ℕ)
      → x ≢ unresolved
      → x < 3
      → InRange q
      → InRange r
      → resolution (resolve_one x q s) r
        ≡ (if (q == r) && is_claimed s q then x else resolution s r)
  unfolding resolution resolve_one index flag
  resolution-resolve_one x q r nx hx hq hr = ground (
    arith,
    word-resolve_one ring q r hq x,
    word-injective ring q r x published hq hr (omega arith) (omega arith),
    word-injective ring q r x discarded hq hr (omega arith) (omega arith),
    word-injective ring q r unresolved published hq hr (omega arith) (omega arith),
    word-injective ring q r unresolved discarded hq hr (omega arith) (omega arith),
  )
