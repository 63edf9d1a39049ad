-- ===== src/Multi/Others.antt =====
-- sequencer_multi.go: what the other goroutines may do to a ring while a claim goes on.
use disruptor_go.Prelude.{
  ℕ, zero, suc, ◌+◌, ◌-◌, ◌≤◌, ◌<◌, ◌≡◌, ◌≢◌, refl, ◌∙◌, arith, ltb, ◌==◌, if◌then◌else◌, [], ◌∷◌,
  ◌++◌, All-append, get_or, All-map, if_elim, some, Bool-cases, inl, inr,
}
use disruptor_go.Int64.{of_nat, add}
use disruptor_go.Publication.{publication_value, unresolved, published, discarded}
use disruptor_go.Heap.{Heap, load, store_value, store, needs_signals, add_signal}
use disruptor_go.Heap.Laws.{load-store, load-signal_all, load-add_signal}
use disruptor_go.Sequencer.{SequencerBase, signal_strategy, add_gating_sequences}
use disruptor_go.Sequencer.Positions.{Still, heap-Still, load-signal_strategy}
use disruptor_go.Multi.{
  MultiProducerSequencer, with_heap, index, flag, resolution, resolve, resolve_loop, resolve_one,
  publish, discard,
}
use disruptor_go.Multi.Slots.{InRange, is_claimed}
use disruptor_go.Multi.Ranges.{resolve_lem, resolve-IsRing}
use disruptor_go.Multi.Claim.{set_base}
use disruptor_go.Multi.Safety.{cursor_of, IsGate, Rely}
use disruptor_go.Multi.Kept.{set_base-IsSafe}
use disruptor_go.Multi.Steps.{own-Kept, then-Rely, set_base-Kept, store_gate-Kept}

pub Still-Kept :
    {k : ℕ} (s : MultiProducerSequencer) (b : SequencerBase)
    → Still s.base b
    → Rely k s (set_base b s)
Still-Kept s b still = set_base-Kept s b still.size still.cursor still.values still.among

pub base-resolve_one :
    (x q : ℕ) (s : MultiProducerSequencer)
    → ((resolve_one x q s).base ≡ s.base) × ((resolve_one x q s).gate_cache ≡ s.gate_cache)
unfolding resolve_one
base-resolve_one x q s =
    if_elim (λ (s' : MultiProducerSequencer). (s'.base ≡ s.base) × (s'.gate_cache ≡ s.gate_cache))
      (get_or s.available (index s q) (of_nat 0) == publication_value (flag s q) unresolved) _ s
      (λ claimed. (refl, refl)) (λ other. (refl, refl))

base-resolve_loop :
    (x n q : ℕ) (s : MultiProducerSequencer)
    → ((resolve_loop x n q s).base ≡ s.base) × ((resolve_loop x n q s).gate_cache ≡ s.gate_cache)
unfolding resolve_loop
base-resolve_loop x zero q s = (refl, refl)
base-resolve_loop x (suc n) q s = (
  (base-resolve_loop x n (add q (of_nat 1)) (resolve_one x q s)).0 ∙ (base-resolve_one x q s).0,
  (base-resolve_loop x n (add q (of_nat 1)) (resolve_one x q s)).1 ∙ (base-resolve_one x q s).1,
)

base-resolve :
    (low high x : ℕ) (s : MultiProducerSequencer)
    → ((resolve low high x s).base ≡ s.base) × ((resolve low high x s).gate_cache ≡ s.gate_cache)
unfolding resolve
base-resolve low high x s = elim (Bool-cases (ltb high low)) [
  | inl none_at_all ↦ rw none_at_all (refl, refl)
  | inr some_at_least ↦ rw some_at_least (base-resolve_loop x (high - low + 1) low s)
]

resolve-Kept :
    {k : ℕ} (low high x : ℕ) (s : MultiProducerSequencer)
    → InRange low
    → InRange high
    → x ≢ unresolved
    → x < 3
    → Rely k s (resolve low high x s)
resolve-Kept low high x s hl hh nx hx safe short = record {
  safe = record {
    ring = resolve-IsRing low high x safe.ring;
    guarded = rw ((base-resolve low high x s).0, (base-resolve low high x s).1) safe.guarded;
  };
  short = rw ((base-resolve low high x s).0) short;
  forward = rw ((base-resolve low high x s).0) (omega arith);
  reached = λ m a p. rw ((base-resolve low high x s).0) p;
  clean = λ c q r above.
      let above' : cursor_of s < q = rw ((base-resolve low high x s).0) at above in
      ground (arith, c q r above', resolve_lem low high x q safe.ring nx hx hl hh r);
}

pub signal-Kept :
    {k : ℕ} (s : MultiProducerSequencer) → Rely k s (with_heap (signal_strategy s.wait s.heap) s)
signal-Kept s =
    Still-Kept s _ (
      heap-Still s.base (signal_strategy s.wait s.heap) (λ p. load-signal_strategy s.wait p s.heap))

pub publish-Kept :
    {k : ℕ} (low high : ℕ) (s : MultiProducerSequencer)
    → InRange low
    → InRange high
    → Rely k s (publish low high s)
unfolding publish
publish-Kept low high s hl hh =
    then-Rely s _ _ (resolve-Kept low high published s hl hh (λ e. cc) (omega arith))
      (signal-Kept (resolve low high published s))

pub discard-Kept :
    {k : ℕ} (low high : ℕ) (s : MultiProducerSequencer)
    → InRange low
    → InRange high
    → Rely k s (discard low high s)
unfolding discard
discard-Kept low high s hl hh =
    then-Rely s _ _ (resolve-Kept low high discarded s hl hh (λ e. cc) (omega arith))
      (signal-Kept (resolve low high discarded s))

-- A consumer's store to its sequence.
pub store-Kept :
    {k : ℕ} (p v : ℕ) (s : MultiProducerSequencer)
    → p ≢ s.cursor
    → p ≢ s.gate_cache
    → load p s.heap ≤ v
    → v ≤ cursor_of s
    → Rely k s (with_heap (store p v s.heap) s)
unfolding store
store-Kept p v s apart apart' up below =
    then-Rely s _ _ (store_gate-Kept s p v apart apart' up below) (
      Still-Kept (with_heap (store_value p v s.heap) s) _
        (heap-Still _ _ (λ q. load-signal_all p q (store_value p v s.heap))))

-- A gate that is added stands at the cursor.
append-Kept :
    {k : ℕ} (p : ℕ) (s : MultiProducerSequencer)
    → p ≢ s.cursor
    → p ≢ s.gate_cache
    → load p s.heap ≡ cursor_of s
    → Rely k s (set_base (record s.base { gating = s.gating ++ p ∷ [] }) s)
unfolding is_claimed resolution index flag
append-Kept {k} p s apart apart' here safe short = record {
  safe = set_base-IsSafe s _ refl safe.ring (record {
    cache_apart = safe.guarded.cache_apart;
    started = safe.guarded.started;
    cache_behind = safe.guarded.cache_behind;
    gates = All-append _ s.gating (p ∷ []) (All-map s.gating gate safe.guarded.gates) (
      record {
        not_cursor = apart;
        not_cache = apart';
        cached = omega (arith, here, safe.guarded.cache_behind);
        behind = omega (arith, here);
        room = omega (arith, here);
      },
      tt,
    );
  });
  short = short;
  forward = omega arith;
  reached = λ m a h. All-append _ s.gating (p ∷ []) h (omega (arith, here, a), tt);
  clean = λ c. c;
}
  where
    gate :
        (q : ℕ)
        → IsGate k s.base s.gate_cache q
        → IsGate k (record s.base { gating = s.gating ++ p ∷ [] }) s.gate_cache q
    gate q g = record {
      not_cursor = g.not_cursor;
      not_cache = g.not_cache;
      cached = g.cached;
      behind = g.behind;
      room = g.room;
    }

pub add_gating_sequences-Kept :
    {k : ℕ} (p : ℕ) (s : MultiProducerSequencer)
    → p ≢ s.cursor
    → p ≢ s.gate_cache
    → load p s.heap ≤ cursor_of s
    → Rely k s (set_base (add_gating_sequences (some p ∷ []) s.base) s)
unfolding add_gating_sequences
add_gating_sequences-Kept {k} p s apart apart' up =
    if_elim (λ b. Rely k s (set_base b s)) s.is_closed s.base _ (λ over. own-Kept s)
      (λ on. then-Rely s _ _ (store-Kept p at s apart apart' up (omega arith)) (
        then-Rely _ _ _ (Still-Kept (with_heap stored s) _ (heap-Still _ signalling values))
          (append-Kept p (with_heap signalling s) apart apart' here)))
  where
    at : ℕ
    at = load s.cursor s.heap

    stored : Heap
    stored = store p at s.heap

    signalling : Heap
    signalling =
        if needs_signals s.producer_wait stored then add_signal p s.producer_wait stored else stored

    values : (q : ℕ) → load q signalling ≡ load q stored
    values q =
        if_elim (λ h. load q h ≡ load q stored) (needs_signals s.producer_wait stored)
          (add_signal p s.producer_wait stored) stored
          (λ blocking. load-add_signal p s.producer_wait q stored) (λ busy. refl)

    here : load p signalling ≡ load s.cursor signalling
    here = ground (
      arith,
      values p,
      values s.cursor,
      load-store p at p s.heap,
      load-store p at s.cursor s.heap,
    )
