-- ===== src/Multi/Company.antt =====
-- sequencer_multi.go: claims among any sequence of operations of other goroutines.
use disruptor_go.Prelude.{
  ℕ, ◌+◌, ◌^◌, ◌≤◌, ◌≡◌, Bool, true, false, ◌&&◌, not, arith, ltb, leb, ◌==◌, List, [], ◌∷◌, Option,
  some, ltb→lt,
}
use disruptor_go.Int64.{of_nat}
use disruptor_go.Heap.{Heap, load, store}
use disruptor_go.Sequencer.{
  WaitStrategy, add_gating_sequences, remove_gating_sequence, close, begin_shutdown,
}
use disruptor_go.Sequencer.Waiting.{Turn, Wake, signalled}
use disruptor_go.Sequencer.Positions.{
  close-Still, begin_shutdown-Still, remove_gating_sequence-Still,
}
use disruptor_go.Multi.{MultiProducerSequencer, with_heap, publish, discard, new_multi}
use disruptor_go.Multi.Claim.{set_base, try_next}
use disruptor_go.Multi.Safety.{cursor_of, IsSafe, IsShort, Kept, Rely, IsClean}
use disruptor_go.Multi.Rivals.{try_next-EndsKept}
use disruptor_go.Ring.Fresh.{cursor-new_multi, new_multi-IsSafe, new_multi-IsClean}
use disruptor_go.Multi.Undisturbed.{undisturbed}
use disruptor_go.Multi.Steps.{own-Kept, then-Rely}
use disruptor_go.Multi.Others.{
  Still-Kept, publish-Kept, discard-Kept, store-Kept, add_gating_sequences-Kept,
}

-- An operation of another goroutine. None adds a gate: AddGatingSequences reads the cursor before
-- it stores its gates, and the producers may claim laps in between.
pub data Op : Type 0 where
  claims : (count : ℕ) → Op
  publishes discards : (low high : ℕ) → Op
  consumes : (p v : ℕ) → Op
  removes : (p : ℕ) → Op
  closes shuts_down : Op

abbrev in_range : ℕ → Bool
in_range q = leb (of_nat 0) q && ltb q (of_nat (2 ^ 62))

-- The operation as the code does it, in one step; a claim is a call of `TryNext`.
abbrev pub perform : Op → MultiProducerSequencer → MultiProducerSequencer
perform (claims count) s = (try_next (undisturbed false signalled ∷ []) count s).1
perform (publishes low high) s = publish low high s
perform (discards low high) s = discard low high s
perform (consumes p v) s = with_heap (store p v s.heap) s
perform (removes p) s = set_base (remove_gating_sequence p s.base).1 s
perform closes s = set_base (close s.base) s
perform shuts_down s = set_base (begin_shutdown s.base).1 s

-- Whether `p` may be a gate, and has not passed the cursor.
abbrev may_gate : ℕ → MultiProducerSequencer → Bool
may_gate p s = not (p == s.cursor) && not (p == s.gate_cache) && leb (load p s.heap) (cursor_of s)

-- When a goroutine that keeps to the rules does it: a claim below 2^62, a resolution among the
-- first 2^62 sequences, a consumer forwards and not past the cursor, with a sequence apart from the
-- ring's own two.
abbrev pub allowed : ℕ → Op → MultiProducerSequencer → Bool
allowed k (claims count) s = ltb (cursor_of (perform (claims count) s) + 2 ^ k) (of_nat (2 ^ 62))
allowed k (publishes low high) s = in_range low && in_range high
allowed k (discards low high) s = in_range low && in_range high
allowed k (consumes p v) s = (may_gate p s && leb (load p s.heap) v) && leb v (cursor_of s)
allowed k (removes p) s = true
allowed k closes s = true
allowed k shuts_down s = true

-- The operations one after the other.
abbrev pub performs : List Op → MultiProducerSequencer → MultiProducerSequencer
performs [] s = s
performs (op ∷ ops) s = performs ops (perform op s)

-- Each of the operations is allowed in the state in which it is done.
abbrev pub AreAllowed : ℕ → List Op → MultiProducerSequencer → Type 0
AreAllowed k [] s = Unit
AreAllowed k (op ∷ ops) s = (allowed k op s ≡ true) × AreAllowed k ops (perform op s)

perform-Rely :
    {k : ℕ} (op : Op) (s : MultiProducerSequencer) → allowed k op s ≡ true → Rely k s (perform op s)
perform-Rely (claims count) s fits =
    λ safe short. try_next-EndsKept signalled count safe short (ltb→lt _ _ fits)
perform-Rely (publishes low high) s fits = publish-Kept low high s (ground arith) (ground arith)
perform-Rely (discards low high) s fits = discard-Kept low high s (ground arith) (ground arith)
perform-Rely (consumes p v) s fits =
    store-Kept p v s (ground arith) (ground arith) (ground arith) (ground arith)
perform-Rely (removes p) s fits = Still-Kept s _ (remove_gating_sequence-Still p s.base)
perform-Rely closes s fits = Still-Kept s _ (close-Still s.base)
perform-Rely shuts_down s fits = Still-Kept s _ (begin_shutdown-Still s.base)

-- Whatever the other goroutines do that is allowed, in any order, is what a claim relies on.
performs-Rely :
    {k : ℕ} (ops : List Op) (s : MultiProducerSequencer)
    → AreAllowed k ops s
    → Rely k s (performs ops s)
performs-Rely [] s fits = own-Kept s
performs-Rely {k} (op ∷ ops) s fits =
    then-Rely s (perform op s) _ (perform-Rely op s fits.0)
      (performs-Rely ops (perform op s) fits.1)

-- What the others do in one round of a claim, which may depend on the state they find, and how the
-- round's wait is decided.
pub record Crowd : Type 0 where
  pub before : MultiProducerSequencer → List Op
  pub during : MultiProducerSequencer → List Op
  pub ctx_done : Bool
  pub wake : Wake

abbrev pub turn_of : Crowd → Turn MultiProducerSequencer
turn_of c = record {
  before = λ s. performs (c.before s) s;
  during = λ s. performs (c.during s) s;
  ctx_done = c.ctx_done;
  wake = c.wake;
}

-- In whatever state they are found, the others do nothing that is not allowed.
pub record Orderly (k : ℕ) (c : Crowd) : Type 0 where
  pub before : (s : MultiProducerSequencer) → AreAllowed k (c.before s) s
  pub during : (s : MultiProducerSequencer) → AreAllowed k (c.during s) s

new_multi-IsShort :
    (k : ℕ) (wait : Option WaitStrategy) (mode : ℕ) (h : Heap)
    → 2 ^ k ≤ 2 ^ 61
    → IsShort k (new_multi (of_nat (2 ^ k)) wait mode h)
new_multi-IsShort k wait mode h few = omega (arith, cursor-new_multi (of_nat (2 ^ k)) wait mode h)

-- The gates that the caller adds one by one, before any other goroutine uses the ring.
abbrev pub add_gates : List ℕ → MultiProducerSequencer → MultiProducerSequencer
add_gates [] s = s
add_gates (p ∷ ps) s = add_gates ps (set_base (add_gating_sequences (some p ∷ []) s.base) s)

-- No gate is one of the ring's own two sequences, or past the cursor.
abbrev pub AreGates : List ℕ → MultiProducerSequencer → Type 0
AreGates [] s = Unit
AreGates (p ∷ ps) s =
    (may_gate p s ≡ true) × AreGates ps (set_base (add_gating_sequences (some p ∷ []) s.base) s)

add_gates-Rely :
    {k : ℕ} (ps : List ℕ) (s : MultiProducerSequencer) → AreGates ps s → Rely k s (add_gates ps s)
add_gates-Rely [] s fits = own-Kept s
add_gates-Rely (p ∷ ps) s fits =
    then-Rely s (set_base (add_gating_sequences (some p ∷ []) s.base) s) _
      (add_gating_sequences-Kept p s (ground (arith, fits.0)) (ground (arith, fits.0))
        (ground (arith, fits.0)))
      (add_gates-Rely ps (set_base (add_gating_sequences (some p ∷ []) s.base) s) fits.1)

-- From a new ring of at most 2^61 slots on, to which its gates are added first, sequences apart from
-- the ring's own and not past the cursor, whatever operations follow in whatever order, where each is allowed in the state in which it is done (`allowed`: a
-- claim that stays below 2^62, a resolution among the first 2^62 sequences, a consumer that moves
-- forwards and not past the cursor): no claim is more than a lap ahead of a gate, and no sequence
-- that is not claimed yet looks claimed, published or discarded. Each operation is done in one step.
pub acts-new_multi :
    (k : ℕ) (wait : Option WaitStrategy) (mode : ℕ) (h : Heap) (gates : List ℕ) (ops : List Op)
    → 2 ^ k ≤ 2 ^ 61
    → AreGates gates (new_multi (of_nat (2 ^ k)) wait mode h)
    → AreAllowed k ops (add_gates gates (new_multi (of_nat (2 ^ k)) wait mode h))
    → IsSafe k (performs ops (add_gates gates (new_multi (of_nat (2 ^ k)) wait mode h)))
      × IsClean (performs ops (add_gates gates (new_multi (of_nat (2 ^ k)) wait mode h)))
acts-new_multi k wait mode h gates ops few set_up fits =
    (kept.safe, kept.clean (new_multi-IsClean k wait mode h (omega arith)))
  where
    s : MultiProducerSequencer
    s = new_multi (of_nat (2 ^ k)) wait mode h

    kept : Kept k s (performs ops (add_gates gates s))
    kept =
        then-Rely s (add_gates gates s) _ (add_gates-Rely gates s set_up)
          (performs-Rely ops (add_gates gates s) fits)
          (new_multi-IsSafe k wait mode h (omega arith)) (new_multi-IsShort k wait mode h few)
