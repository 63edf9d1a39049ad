-- ===== src/Sequencer/Positions.antt =====
-- sequencer.go: the operations that move no sequence, and what they keep of the gates.
use mathlib.Core.List.{append_assoc, append-nil}
use disruptor_go.Prelude.{
  sym, false, map, ◌++◌, some, ℕ, ◌≡◌, refl, ◌∙◌, Bool, true, ◌==◌, if◌then◌else◌, not, ◌||◌, List,
  [], ◌∷◌, All, if_elim,
}
use disruptor_go.Errors.{Result}
use disruptor_go.Heap.{
  Heap, load, contains, remove_first, needs_signals, signal_waiter, remove_signal,
}
use disruptor_go.Heap.Laws.{load-remove_signal, load-signal_waiter}
use disruptor_go.Sequencer.{
  WaitStrategy, busy_spin_wait, yielding_wait, sleeping_wait, blocking_wait, SequencerBase,
  signal_strategy, remove_signals, remove_gate_signals, close, close_body, begin_shutdown,
  remove_gating_sequence, register, add_gating_sequences,
}

-- The same size and the same cursor, every sequence where it was, and no gates but the old ones.
pub record Still (b b' : SequencerBase) : Type 1 where
  pub size : b'.buffer_size ≡ b.buffer_size
  pub cursor : b'.cursor ≡ b.cursor
  pub values : (p : ℕ) → load p b'.heap ≡ load p b.heap
  pub among : (P : ℕ → Type 0) → All P b.gating → All P b'.gating

then-Still : (a b c : SequencerBase) → Still a b → Still b c → Still a c
then-Still a b c p q = record {
  size = q.size ∙ p.size;
  cursor = q.cursor ∙ p.cursor;
  values = λ s. q.values s ∙ p.values s;
  among = λ P h. q.among P (p.among P h);
}

pub heap-Still :
    (b : SequencerBase) (h : Heap)
    → ((p : ℕ) → load p h ≡ load p b.heap)
    → Still b (record b { heap = h })
heap-Still b h values = record { size = refl; cursor = refl; values = values; among = λ P a. a }

pub load-signal_strategy :
    (wait : WaitStrategy) (q : ℕ) (h : Heap) → load q (signal_strategy wait h) ≡ load q h
unfolding signal_strategy
load-signal_strategy busy_spin_wait q h = refl
load-signal_strategy yielding_wait q h = refl
load-signal_strategy (sleeping_wait _ _ _) q h = refl
load-signal_strategy (blocking_wait p) q h = refl

load-remove_signals :
    (w : ℕ) (ps seen : List ℕ) (q : ℕ) (h : Heap) → load q (remove_signals w ps seen h) ≡ load q h
unfolding remove_signals
load-remove_signals w [] seen q h = refl
load-remove_signals w (p ∷ ps) seen q h =
    if_elim (λ h'. load q h' ≡ load q h) (contains seen p) (remove_signals w ps seen h)
      (remove_signals w ps (p ∷ seen) (remove_signal p w h))
      (λ old. load-remove_signals w ps seen q h)
      (λ new.
        load-remove_signals w ps (p ∷ seen) q (remove_signal p w h) ∙ load-remove_signal p w q h)

remove_gate_signals-Still : (b : SequencerBase) → Still b (remove_gate_signals b)
unfolding remove_gate_signals
remove_gate_signals-Still b =
    if_elim (Still b) (needs_signals b.producer_wait b.heap) _ b
      (λ blocking. heap-Still b _ (λ p. load-remove_signals b.producer_wait b.gating [] p b.heap))
      (λ busy. heap-Still b b.heap (λ p. refl))

pub close-Still : (b : SequencerBase) → Still b (close b)
unfolding close close_body
close-Still b =
    if_elim (Still b) b.close_once (record b { is_sealed = true })
      (close_body (record b { is_sealed = true }))
      (λ again. record { size = refl; cursor = refl; values = λ p. refl; among = λ P a. a })
      (λ first.
        then-Still b shut _
          (record { size = refl; cursor = refl; values = signalled; among = λ P a. a })
          (remove_gate_signals-Still shut))
  where
    shut : SequencerBase
    shut = record b {
      is_sealed = true;
      is_closed = true;
      closed_ch = true;
      close_once = true;
      heap = signal_strategy b.wait (signal_waiter b.producer_wait b.heap);
    }

    signalled :
        (p : ℕ)
        → load p (signal_strategy b.wait (signal_waiter b.producer_wait b.heap)) ≡ load p b.heap
    signalled p =
        load-signal_strategy b.wait p (signal_waiter b.producer_wait b.heap)
        ∙ load-signal_waiter b.producer_wait p b.heap

pub begin_shutdown-Still : (b : SequencerBase) → Still b (begin_shutdown b).1
unfolding begin_shutdown
begin_shutdown-Still b =
    if_elim (λ (r : Result (Unit {0}) × SequencerBase). Still b r.1) (b.is_closed || b.is_sealed) _
      _ (λ over. heap-Still b b.heap (λ p. refl))
      (λ on. record {
        size = refl;
        cursor = refl;
        values = λ p. load-signal_waiter b.producer_wait p b.heap;
        among = λ P a. a;
      })

All-remove_first : (P : ℕ → Type 0) (l : List ℕ) (x : ℕ) → All P l → All P (remove_first l x)
All-remove_first P [] x h = tt
All-remove_first P (y ∷ ys) x h =
    if_elim (All P) (y == x) ys (y ∷ remove_first ys x) (λ here. h.1)
      (λ on. (h.0, All-remove_first P ys x h.1))

pub remove_gating_sequence-Still :
    (p : ℕ) (b : SequencerBase) → Still b (remove_gating_sequence p b).1
unfolding remove_gating_sequence
remove_gating_sequence-Still p b =
    if_elim Q (not (contains b.gating p)) _ _ (λ absent. heap-Still b b.heap (λ q. refl))
      (λ there.
        if_elim Q (needs_signals b.producer_wait b.heap) _ _
          (λ blocking. record {
            size = refl;
            cursor = refl;
            values = λ q. load-signal_waiter b.producer_wait q _ ∙ unsignalled q;
            among = λ P. All-remove_first P b.gating p;
          })
          (λ busy. record {
            size = refl;
            cursor = refl;
            values = λ q. refl;
            among = λ P. All-remove_first P b.gating p;
          }))
  where
    Q : Bool × SequencerBase → Type 1
    Q r = Still b r.1

    unsignalled :
        (q : ℕ)
        → load q (
            if contains (remove_first b.gating p) p
            then b.heap
            else remove_signal p b.producer_wait b.heap)
          ≡ load q b.heap
    unsignalled q =
        if_elim (λ h. load q h ≡ load q b.heap) (contains (remove_first b.gating p) p) b.heap
          (remove_signal p b.producer_wait b.heap) (λ still. refl)
          (λ gone. load-remove_signal p b.producer_wait q b.heap)

gating-register :
    (cursor waiter : ℕ) (ps next : List ℕ) (h : Heap)
    → (register cursor waiter (map some ps) (next, h)).0 ≡ next ++ ps
unfolding register
gating-register cursor waiter [] next h = sym (append-nil next)
gating-register cursor waiter (p ∷ ps) next h =
    gating-register cursor waiter ps (next ++ p ∷ []) _ ∙ append_assoc next (p ∷ []) ps

-- On an open ring the new gates come after the old ones.
pub gating-add_gating_sequences :
    (ps : List ℕ) (b : SequencerBase)
    → b.is_closed ≡ false
    → (add_gating_sequences (map some ps) b).gating ≡ b.gating ++ ps
unfolding add_gating_sequences
gating-add_gating_sequences ps b e =
    rw e (gating-register (load b.cursor b.heap) b.producer_wait ps b.gating b.heap)
