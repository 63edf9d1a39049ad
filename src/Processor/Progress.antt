-- ===== src/Processor/Progress.antt =====
-- processor.go: what a run of a processor has handled, and what it has acknowledged.
use disruptor_go.Prelude.{ℕ, ◌+◌, ◌-◌, ◌≤◌, ◌<◌, ◌≡◌, List, ◌∷◌, All, ◌⊎◌, Option, some, none}
use disruptor_go.Int64.{of_nat}
use disruptor_go.Errors.{Error, alerted, closed, cancelled, ok}
use disruptor_go.Heap.{load}
use disruptor_go.Ring.{seq_highest_published}
use disruptor_go.Barrier.Waiting.{View, available_of, heap_of, wait_for}
use disruptor_go.Barrier.Unmoved.{Keeps}
use disruptor_go.Processor.Batch.{process_batch, batch_end}
use disruptor_go.Processor.Run.{
  World, Episode, BatchProcessor, Ran, heap, view, set_view, acknowledged, halted,
}
use disruptor_go.Processor.Bounds.{IsBounded}

module _ {ℓ κ} {T : Type ℓ} {X : Type κ} (p : BatchProcessor T X) where
  -- The end of a batch that starts at `next`, after a wait that ended with the view.
  abbrev end_of : ℕ → View → ℕ
  end_of next v =
      batch_end p.max_batch_size next (seq_highest_published v.sequencer next (available_of v))

  -- How the loop may end without a failed batch, from the state of the handler after the last batch
  -- that was handled.
  pub data Ending (x : X) : Option (Option Error) → World T X → Type (ℓ ⊔ κ) where
    going_on : {w : World T X} → w.user ≡ x → Ending x none w
    halting : {w : World T X} → w.user ≡ x → w.state ≡ halted → Ending x (some none) w
    stopped :
        {e : Error} {w : World T X}
        → w.user ≡ x
        → (e ≡ alerted) ⊎ (e ≡ closed) ⊎ (e ≡ cancelled)
        → Ending x (some (some e)) w

  -- The wait of an episode's round ended with the view, and returned what the view has published
  -- without a gap.
  abbrev pub Waited : Episode T X → ℕ → World T X → View → Type 0
  Waited t next w v =
      wait_for t.waits next (view (t.before w))
      ≡ (some (ok (seq_highest_published v.sequencer next (available_of v))), v)

  -- The world after the wait of an episode's round.
  abbrev pub awake : Episode T X → World T X → View → World T X
  awake t w v = t.after (set_view v (t.before w))

  -- What a run does in its episodes, from a world, a next sequence and a state of the handler on, up
  -- to a sequence and a state of the handler: each round waits, handles all of a batch and
  -- acknowledges it, and the next round starts after it, until the run ends or a batch fails.
  pub data Course : List (Episode T X) → World T X → ℕ → X → ℕ → X → Ran T X → Type (ℓ ⊔ κ) where
    ends :
        {ts : List (Episode T X)} {w : World T X} {next : ℕ} {x : X} {o : Ran T X}
        → Ending x o.0 o.1
        → Course ts w next x next x o
    fails :
        {t : Episode T X} {ts : List (Episode T X)} {w w' : World T X} {next : ℕ} {x : X}
        {e : Error} (v : View)
        → Waited t next w v
        → process_batch (awake t w v).ring p.handler next (end_of next v) x ≡ (some e, w'.user)
        → Course (t ∷ ts) w next x next x (some (some e), w')
    batch :
        {t : Episode T X} {ts : List (Episode T X)} {w : World T X} {next : ℕ} {x x' : X} {upto : ℕ}
        {x'' : X} {o : Ran T X} (v : View)
        → Waited t next w v
        → next ≤ available_of v
        → next ≤ end_of next v + 1
        → end_of next v ≤ available_of v
        → end_of next v < next + (p.max_batch_size - of_nat 0)
        → process_batch (awake t w v).ring p.handler next (end_of next v) x ≡ (none, x')
        → Course ts
            (acknowledged p (end_of next v) (record (awake t w v) { user = x' }))
            (end_of next v + 1)
            x'
            upto
            x''
            o
        → Course (t ∷ ts) w next x upto x'' o

  -- What was handled from `next` on, and that it is what the processor's sequence says.
  pub record Outcome (ts : List (Episode T X)) (w : World T X) (next : ℕ) (x : X) (o : Ran T X)
      : Type (ℓ ⊔ κ) where
    pub upto : ℕ
    pub user : X
    pub course : Course ts w next x upto user o
    pub acknowledges : load p.sequence (heap o.1) + 1 ≡ upto

  pub record At (next : ℕ) (x : X) (w : World T X) : Type κ where
    pub position : load p.sequence (heap w) + 1 ≡ next
    pub same : w.user ≡ x
    pub small : IsBounded (heap w)

  pub record AtView (next : ℕ) (v : View) : Type 0 where
    pub position : load p.sequence (heap_of v) + 1 ≡ next
    pub small : IsBounded (heap_of v)

  -- The others leave the processor's sequence and its handler's state alone.
  pub record IsApart (t : Episode T X) : Type (ℓ ⊔ κ) where
    pub before : (next : ℕ) (x : X) (w : World T X) → At next x w → At next x (t.before w)
    pub after : (next : ℕ) (x : X) (w : World T X) → At next x w → At next x (t.after w)
    pub waits : (next : ℕ) → All (Keeps (AtView next)) t.waits
