-- ===== src/Multi/Atomic.antt =====
-- sequencer_multi.go: producers and consumers one atomic operation after the other.
--
-- The loads, stores and exchanges of `Next`, `TryNext`, `Publish` and `Discard` are steps of their
-- own here, in which any number of goroutines take turns.
pub mod Fits
pub mod Sound
pub mod Calm
pub mod Aim
pub mod Turns
pub mod Written
pub mod Resolve
pub mod Lasting
pub mod Whole
pub mod Claimed
use disruptor_go.Prelude.{
  ℕ, ◌+◌, ◌^◌, ◌≤◌, ◌<◌, ◌≡◌, ◌≢◌, Bool, true, false, ◌&&◌, ◌||◌, ltb, leb, ◌==◌, if◌then◌else◌,
  List, [], ◌∷◌, Option, none, some,
}
use disruptor_go.Int64.{of_nat, add, sub, minus_one}
use disruptor_go.Heap.{load, store, store_value, update, contains}
use disruptor_go.Sequencer.{signal_strategy}
use disruptor_go.Multi.{MultiProducerSequencer, with_heap, prepare_one, resolve_one, is_available}
use disruptor_go.Multi.Safety.{cursor_of, IsSafe, IsShort, IsClean}
use disruptor_go.Publication.{unresolved}

-- Where a producer is: it has read the cursor; it reads the gates, with the least so far and those
-- that are left; it is about to exchange the cursor; it prepares its range from a sequence on; it
-- holds its range; or it resolves a part of it from a sequence on.
pub data Phase : Type 0 where
  idle : Phase
  looking : (current next : ℕ) → Phase
  scanning : (current next : ℕ) (least : Option ℕ) (rest : List ℕ) → Phase
  aiming : (current next : ℕ) → Phase
  preparing : (low at high : ℕ) → Phase
  holding : (low high : ℕ) → Phase
  resolving : (at mid high x : ℕ) → Phase

-- The ring, and the phase of each producer.
pub record System : Type 0 where
  pub ring : MultiProducerSequencer
  pub phases : ℕ → Phase

abbrev pub goes : ℕ → Phase → MultiProducerSequencer → System → System
goes i ph s y = record { ring = s; phases = update y.phases i ph }

-- The least of the gates that were read, or else what `minimumGate` falls back on.
abbrev pub least_of : ℕ → Option ℕ → ℕ
least_of current none = current
least_of current (some m) = m

abbrev pub lower : Option ℕ → ℕ → ℕ
lower none v = v
lower (some m) v = if ltb v m then v else m

abbrev pub wrap_point : ℕ → MultiProducerSequencer → ℕ
wrap_point next s = sub next s.buffer_size

abbrev pub store_cache : ℕ → MultiProducerSequencer → MultiProducerSequencer
store_cache m s = with_heap (store_value s.gate_cache m s.heap) s

-- What follows the preparation and the resolution of a sequence.
abbrev pub prepared_upto : ℕ → ℕ → ℕ → Phase
prepared_upto low at high = if at == high then holding low high else preparing low (at + 1) high

abbrev pub resolved_upto : ℕ → ℕ → ℕ → ℕ → Phase
resolved_upto at mid high x =
    if at == mid
    then (if mid == high then idle else holding (mid + 1) high)
    else resolving (at + 1) mid high x

-- An atomic operation of the producer `i`, of a consumer, or of a goroutine that signals.
pub data Step (k : ℕ) (y : System) : System → Type 0 where
  read_cursor :
      (i count : ℕ)
      → y.phases i ≡ idle
      → of_nat 1 ≤ count
      → count ≤ y.ring.buffer_size
      → Step k y (goes i (looking (cursor_of y.ring) (add (cursor_of y.ring) count)) y.ring y)
  trust_cache :
      (i current next : ℕ)
      → y.phases i ≡ looking current next
      → (ltb (load y.ring.gate_cache y.ring.heap) (wrap_point next y.ring)
          || ltb current (load y.ring.gate_cache y.ring.heap))
        ≡ false
      → Step k y (goes i (aiming current next) y.ring y)
  distrust_cache :
      (i current next : ℕ)
      → y.phases i ≡ looking current next
      → (ltb (load y.ring.gate_cache y.ring.heap) (wrap_point next y.ring)
          || ltb current (load y.ring.gate_cache y.ring.heap))
        ≡ true
      → Step k y (goes i (scanning current next none y.ring.gating) y.ring y)
  read_gate :
      (i current next : ℕ) (least : Option ℕ) (p : ℕ) (ps : List ℕ)
      → y.phases i ≡ scanning current next least (p ∷ ps)
      → Step k y
          (goes i (scanning current next (some (lower least (load p y.ring.heap))) ps) y.ring y)
  wait :
      (i current next : ℕ) (least : Option ℕ)
      → y.phases i ≡ scanning current next least []
      → ltb (least_of current least) (wrap_point next y.ring) ≡ true
      → Step k y (goes i idle y.ring y)
  give_up :
      (i current next : ℕ) (least : Option ℕ)
      → y.phases i ≡ scanning current next least []
      → ltb (least_of current least) (wrap_point next y.ring) ≡ true
      → Step k y (goes i idle (store_cache (least_of current least) y.ring) y)
  make_room :
      (i current next : ℕ) (least : Option ℕ)
      → y.phases i ≡ scanning current next least []
      → ltb (least_of current least) (wrap_point next y.ring) ≡ false
      → Step k y (goes i (aiming current next) (store_cache (least_of current least) y.ring) y)
  lose :
      (i current next : ℕ)
      → y.phases i ≡ aiming current next
      → cursor_of y.ring ≢ current
      → Step k y (goes i idle y.ring y)
  win :
      (i current next : ℕ)
      → y.phases i ≡ aiming current next
      → cursor_of y.ring ≡ current
      → next + 2 ^ k < of_nat (2 ^ 62)
      → Step k y (
          goes i
            (preparing (add current (of_nat 1)) (add current (of_nat 1)) next)
            (with_heap (store_value y.ring.cursor next y.ring.heap) y.ring)
            y)
  prepare :
      (i low at high : ℕ)
      → y.phases i ≡ preparing low at high
      → Step k y (goes i (prepared_upto low at high) (prepare_one at y.ring) y)
  publish :
      (i low mid high x : ℕ)
      → y.phases i ≡ holding low high
      → low ≤ mid
      → mid ≤ high
      → x ≢ unresolved
      → x < 3
      → Step k y (goes i (resolving low mid high x) y.ring y)
  resolve :
      (i at mid high x : ℕ)
      → y.phases i ≡ resolving at mid high x
      → Step k y (goes i (resolved_upto at mid high x) (resolve_one x at y.ring) y)
  consume :
      (p v : ℕ)
      → contains y.ring.gating p ≡ true
      → load p y.ring.heap ≤ v
      → v ≤ cursor_of y.ring
      → ((q : ℕ) → load p y.ring.heap < q → q ≤ v → is_available y.ring q ≡ true)
      → Step k y (record y { ring = with_heap (store p v y.ring.heap) y.ring })
  signal : Step k y (record y { ring = with_heap (signal_strategy y.ring.wait y.ring.heap) y.ring })

-- A ring that is safe and has gates, and of which nothing is claimed.
pub record IsStart (k : ℕ) (s : MultiProducerSequencer) : Type 0 where
  pub safe : IsSafe k s
  pub short : IsShort k s
  pub clean : IsClean s
  pub empty : cursor_of s ≡ minus_one
  pub gated : s.gating ≢ []

-- What such a ring leads to.
pub data Reachable (k : ℕ) : System → Type 0 where
  start :
      {s : MultiProducerSequencer}
      → IsStart k s
      → Reachable k (record { ring = s; phases = λ i. idle })
  step : {y y' : System} → Reachable k y → Step k y y' → Reachable k y'

-- Whether a producer has still to resolve a sequence, and has still to prepare it.
abbrev pub between : ℕ → ℕ → ℕ → Bool
between low high q = leb low q && leb q high

abbrev pub owes : Phase → ℕ → Bool
owes idle q = false
owes (looking current next) q = false
owes (scanning current next least rest) q = false
owes (aiming current next) q = false
owes (preparing low at high) q = between low high q
owes (holding low high) q = between low high q
owes (resolving at mid high x) q = between at high q

abbrev pub unprepared : Phase → ℕ → Bool
unprepared (preparing low at high) q = between at high q
unprepared idle q = false
unprepared (looking current next) q = false
unprepared (scanning current next least rest) q = false
unprepared (aiming current next) q = false
unprepared (holding low high) q = false
unprepared (resolving at mid high x) q = false
