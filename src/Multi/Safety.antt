-- ===== src/Multi/Safety.antt =====
-- sequencer_multi.go: no claim overtakes a gate, whatever other goroutines do meanwhile.
use disruptor_go.Prelude.{
  ℕ, zero, suc, ◌+◌, ◌-◌, ◌^◌, ◌≤◌, ◌<◌, ◌≡◌, refl, ◌≢◌, false, inl, inr, arith, ltb, Bool-cases,
  All, All-map, All-map₂,
}
use disruptor_go.Int64.{of_nat, minus_one, add}
use disruptor_go.Heap.{ProducerWaiter, load, store_value}
use disruptor_go.Sequencer.{SequencerBase}
use disruptor_go.Sequencer.Waiting.{Turn}
use disruptor_go.Multi.{MultiProducerSequencer, prepare, prepare_loop, prepare_one, resolution}
use disruptor_go.Publication.{unresolved}
use disruptor_go.Multi.Slots.{IsRing, InRange, is_claimed}
use disruptor_go.Multi.Ranges.{prepare-IsRing}

abbrev pub cursor_of : MultiProducerSequencer → ℕ
cursor_of s = load s.cursor s.heap

-- A gate is at most a ring behind the cursor, not ahead of it, and not behind the cached gate.
pub record IsGate (k : ℕ) (b : SequencerBase) (cache p : ℕ) : Type 0 where
  pub not_cursor : p ≢ b.cursor
  pub not_cache : p ≢ cache
  pub cached : load cache b.heap ≤ load p b.heap
  pub behind : load p b.heap ≤ load b.cursor b.heap
  pub room : load b.cursor b.heap ≤ load p b.heap + 2 ^ k

pub record IsGuarded (k : ℕ) (b : SequencerBase) (cache : ℕ) : Type 0 where
  pub cache_apart : cache ≢ b.cursor
  pub started : minus_one ≤ load cache b.heap
  pub cache_behind : load cache b.heap ≤ load b.cursor b.heap
  pub gates : All (IsGate k b cache) b.gating

pub record IsSafe (k : ℕ) (s : MultiProducerSequencer) : Type 0 where
  pub ring : IsRing k s
  pub guarded : IsGuarded k s.base s.gate_cache

-- The ring is more than a lap short of its 2^62nd event.
abbrev pub IsShort : ℕ → MultiProducerSequencer → Type 0
IsShort k s = cursor_of s + 2 ^ k < of_nat (2 ^ 62)

-- No sequence past the cursor is claimed or resolved.
abbrev pub IsClean : MultiProducerSequencer → Type 0
IsClean s =
    (q : ℕ) → InRange q → cursor_of s < q → (is_claimed s q ≡ false) × (resolution s q ≡ unresolved)

-- What holds from one state of a ring to a later one: it is safe and short of its last events, its
-- cursor has not gone back, a bound that all gates had reached is still reached, and what is past
-- the cursor is still neither claimed nor resolved.
pub record Kept (k : ℕ) (s s' : MultiProducerSequencer) : Type 0 where
  pub safe : IsSafe k s'
  pub short : IsShort k s'
  pub forward : cursor_of s ≤ cursor_of s'
  pub reached :
      (m : ℕ)
      → m ≤ cursor_of s
      → All (λ p. m ≤ load p s.heap) s.gating
      → All (λ p. m ≤ load p s'.heap) s'.gating
  pub clean : IsClean s → IsClean s'

-- What a claim relies on of the other goroutines.
abbrev pub Rely : ℕ → MultiProducerSequencer → MultiProducerSequencer → Type 0
Rely k s s' = IsSafe k s → IsShort k s → Kept k s s'

-- In every turn the others keep their part.
pub record IsFair (k : ℕ) (t : Turn MultiProducerSequencer) : Type 0 where
  pub before : (s : MultiProducerSequencer) → Rely k s (t.before s)
  pub during : (s : MultiProducerSequencer) → Rely k s (t.during s)

base-prepare_loop :
    (n q : ℕ) (s : MultiProducerSequencer)
    → ((prepare_loop n q s).base ≡ s.base) × ((prepare_loop n q s).gate_cache ≡ s.gate_cache)
unfolding prepare_loop prepare_one
base-prepare_loop zero q s = (refl, refl)
base-prepare_loop (suc n) q s = base-prepare_loop n (add q (of_nat 1)) (prepare_one q s)

-- `prepare` writes to the slots alone.
pub base-prepare :
    (low high : ℕ) (s : MultiProducerSequencer)
    → ((prepare low high s).base ≡ s.base) × ((prepare low high s).gate_cache ≡ s.gate_cache)
unfolding prepare
base-prepare low high s = elim (Bool-cases (ltb high low)) [
  | inl none_at_all ↦ rw none_at_all (refl, refl)
  | inr some_at_least ↦ rw some_at_least (base-prepare_loop (high - low + 1) low s)
]

pub prepare-IsSafe :
    {k : ℕ} (low high : ℕ) (s : MultiProducerSequencer) → IsSafe k s → IsSafe k (prepare low high s)
prepare-IsSafe {k} low high s safe = record {
  ring = prepare-IsRing low high safe.ring;
  guarded = rw ((base-prepare low high s).0, (base-prepare low high s).1) safe.guarded;
}

-- The gate cache may be set to any bound of the gates at or below the cursor.
pub store_cache-IsGuarded :
    {k : ℕ} (b : SequencerBase) (cache m : ℕ)
    → IsGuarded k b cache
    → minus_one ≤ m
    → m ≤ load b.cursor b.heap
    → All (λ p. m ≤ load p b.heap) b.gating
    → IsGuarded k (record b { heap = store_value cache m b.heap }) cache
store_cache-IsGuarded {k} b cache m g up below reached = record {
  cache_apart = g.cache_apart;
  started = ground (arith, g);
  cache_behind = ground (arith, g);
  gates = All-map₂ b.gating gate g.gates reached;
}
  where
    gate :
        (p : ℕ)
        → IsGate k b cache p
        → m ≤ load p b.heap
        → IsGate k (record b { heap = store_value cache m b.heap }) cache p
    gate p q r = ground (arith, q, g.cache_apart)

-- The cursor may be moved up to a ring ahead of the slowest gate.
pub store_cursor-IsGuarded :
    {k : ℕ} (b : SequencerBase) (cache n : ℕ)
    → IsGuarded k b cache
    → load b.cursor b.heap ≤ n
    → All (λ p. n ≤ load p b.heap + 2 ^ k) b.gating
    → IsGuarded k (record b { heap = store_value b.cursor n b.heap }) cache
store_cursor-IsGuarded {k} b cache n g up near = record {
  cache_apart = g.cache_apart;
  started = ground (arith, g);
  cache_behind = ground (arith, g);
  gates = All-map₂ b.gating gate g.gates near;
}
  where
    gate :
        (p : ℕ)
        → IsGate k b cache p
        → n ≤ load p b.heap + 2 ^ k
        → IsGate k (record b { heap = store_value b.cursor n b.heap }) cache p
    gate p q r = ground (arith, q, g.cache_apart)

-- The waiters do not matter.
pub waiters-IsGuarded :
    {k : ℕ} (b : SequencerBase) (cache : ℕ) (w : ℕ → ProducerWaiter)
    → IsGuarded k b cache
    → IsGuarded k (record b { heap = record b.heap { waiters = w } }) cache
waiters-IsGuarded {k} b cache w g = record {
  cache_apart = g.cache_apart;
  started = g.started;
  cache_behind = g.cache_behind;
  gates = All-map b.gating gate g.gates;
}
  where
    gate :
        (p : ℕ)
        → IsGate k b cache p
        → IsGate k (record b { heap = record b.heap { waiters = w } }) cache p
    gate p q = record {
      not_cursor = q.not_cursor;
      not_cache = q.not_cache;
      cached = q.cached;
      behind = q.behind;
      room = q.room;
    }
