-- ===== src/Processor/Run.antt =====
-- processor.go: `NewBatchProcessor`, `Run`, `Running` and `Halt`.
--
-- The processor's loop takes an episode for each of its rounds: what the others did before the
-- round and around its wait, and the turns of the wait.
use disruptor_go.Prelude.{
  ℕ, Bool, true, false, ◌&&◌, ◌||◌, not, List, [], ◌∷◌, Option, none, some, ltb, if◌then◌else◌,
}
use disruptor_go.Int64.{of_nat, add, max_int64}
use disruptor_go.Errors.{
  Error, alerted, cancelled, already_running, nil_handler, invalid_batch_size, Result, ok, err,
}
use disruptor_go.Heap.{Heap, load, store, new_sequence, initial_sequence}
use disruptor_go.Sequencer.Waiting.{Turn}
use disruptor_go.Ring.{RingBuffer, apply_options, base_of, with_base}
use disruptor_go.Barrier.{SequenceBarrier, alert, clear_alert}
use disruptor_go.Barrier.Waiting.{View, Found, wait_for}
use disruptor_go.Processor.Batch.{Handler, process_batch, batch_end}

-- processorIdle, processorStarting, processorRunning and processorHalted
pub data ProcessorState : Type 0 where
  idle starting running halted : ProcessorState

-- `WithMaxBatchSize`, a change of the configuration, whose one field is the size.
unfoldable pub with_max_batch_size : ℕ → ℕ → Result ℕ
with_max_batch_size size config = if ltb size (of_nat 1) then err invalid_batch_size else ok size

-- The fields of `BatchProcessor` but those of the world: the ring, the barrier and the state.
pub record BatchProcessor {ℓ κ} (T : Type ℓ) (X : Type κ) : Type (ℓ ⊔ κ) where
  pub handler : Handler T X
  pub sequence : ℕ
  pub max_batch_size : ℕ  -- int64

-- What a processor shares with other goroutines, and the state of its handler.
pub record World {ℓ κ} (T : Type ℓ) (X : Type κ) : Type (ℓ ⊔ κ) where
  pub ring : RingBuffer T
  pub barrier : SequenceBarrier
  pub state : ProcessorState
  pub user : X

pub record Episode {ℓ κ} (T : Type ℓ) (X : Type κ) : Type (ℓ ⊔ κ) where
  pub before : World T X → World T X
  pub ctx_done : Bool
  pub waits : List (Turn View)
  pub after : World T X → World T X

-- What the others do between the first steps of `Run`.
pub record Start {ℓ κ} (T : Type ℓ) (X : Type κ) : Type (ℓ ⊔ κ) where
  pub entered : World T X → World T X
  pub cleared : World T X → World T X

abbrev pub is_alert : Error → Bool
is_alert alerted = true
is_alert _ = false

abbrev pub is_idle : ProcessorState → Bool
is_idle idle = true
is_idle _ = false

abbrev pub is_starting : ProcessorState → Bool
is_starting starting = true
is_starting _ = false

abbrev pub is_halted : ProcessorState → Bool
is_halted halted = true
is_halted _ = false

-- Running
unfoldable pub is_running : ProcessorState → Bool
is_running running = true
is_running halted = true
is_running _ = false

-- How `Run` ends: `none` goes on, and a returned nil is `some none`.
abbrev pub Ran {ℓ κ} : Type ℓ → Type κ → Type (ℓ ⊔ κ)
Ran T X = Option (Option Error) × World T X

module _ {ℓ κ} {T : Type ℓ} {X : Type κ} where
  -- `NewBatchProcessor`, with the store that has its sequence; a handler of `none` is nil.
  unfoldable pub new_batch_processor :
      Option (Handler T X) → List (ℕ → Result ℕ) → Heap → Result (BatchProcessor T X × Heap)
  unfolding apply_options new_sequence
  new_batch_processor none options h = err nil_handler
  new_batch_processor (some f) options h = elim (apply_options options max_int64) [
    | err e ↦ err e
    | ok size ↦
        (let (sequence, h') = new_sequence initial_sequence h in
          ok (record { handler = f; sequence = sequence; max_batch_size = size }, h'))
  ]

  abbrev pub heap : World T X → Heap
  heap w = (base_of w.ring.sequencer).heap

  abbrev pub set_state : ProcessorState → World T X → World T X
  set_state state w = record w { state = state }

  -- What a wait looks at, and the world as it was when the wait was over.
  abbrev pub view : World T X → View
  view w = record { sequencer = w.ring.sequencer; barrier = w.barrier }

  abbrev pub set_view : View → World T X → World T X
  set_view v w = record w { ring = record w.ring { sequencer = v.sequencer }; barrier = v.barrier }

  -- `p.sequence.Store(end)`
  abbrev pub acknowledged : BatchProcessor T X → ℕ → World T X → World T X
  acknowledged p end w = record w {
    ring = record w.ring {
      sequencer =
          with_base (record (base_of w.ring.sequencer) { heap = store p.sequence end (heap w) })
            w.ring.sequencer;
    };
  }

  -- What follows a batch.
  abbrev pub after_batch :
      BatchProcessor T X → ℕ → World T X → Option Error × X → (World T X → Ran T X) → Ran T X
  after_batch p end w (some e, x) rest = (some (some e), record w { user = x })
  after_batch p end w (none, x) rest = rest (acknowledged p end (record w { user = x }))

  -- What follows the wait of a round.
  abbrev pub after_wait_for :
      BatchProcessor T X
      → (World T X → World T X)
      → ℕ
      → World T X
      → Found
      → (ℕ → World T X → Ran T X)
      → Ran T X
  after_wait_for p after next w (none, v) rest = (none, set_view v w)
  after_wait_for p after next w (some (err e), v) rest =
      let w' = after (set_view v w) in
      if is_alert e && is_halted w'.state then (some none, w') else (some (some e), w')
  after_wait_for p after next w (some (ok available), v) rest =
      let w' = after (set_view v w) in
      let end = batch_end p.max_batch_size next available in
      after_batch p end w' (process_batch w'.ring p.handler next end w'.user)
        (rest (add end (of_nat 1)))

  -- The loop of `Run`.
  unfoldable pub run_loop : List (Episode T X) → BatchProcessor T X → ℕ → World T X → Ran T X
  unfolding wait_for batch_end process_batch
  run_loop [] p next w = (none, w)
  run_loop (t ∷ ts) p next w =
      let w' = t.before w in
      if t.ctx_done
      then (some (some cancelled), w')
      else after_wait_for p t.after next w' (wait_for t.waits next (view w'))
          (λ next' w''. run_loop ts p next' w'')

  -- The deferred reset of the state.
  abbrev pub leave : Ran T X → Ran T X
  leave (none, w) = (none, w)
  leave (some r, w) = (some r, set_state idle w)

  -- Run
  unfoldable pub run : Start T X → List (Episode T X) → BatchProcessor T X → World T X → Ran T X
  unfolding run_loop clear_alert
  run s ts p w =
      if is_idle w.state
      then (let w₁ = s.entered (set_state starting w) in
          let w₂ = s.cleared (record w₁ { barrier = clear_alert w₁.barrier }) in
          if is_starting w₂.state
          then leave
              (run_loop ts p (add (load p.sequence (heap w₂)) (of_nat 1)) (set_state running w₂))
          else leave (some none, w₂))
      else (some (some already_running), w)

  -- One round of the loop of `Halt`, in which nobody changes the state between its two looks.
  unfoldable pub halt : World T X → World T X
  unfolding alert
  halt w =
      if is_starting w.state || (is_running w.state && not (is_halted w.state))
      then (let (barrier, h) = alert w.barrier (heap w) in
          record w {
            state = halted;
            barrier = barrier;
            ring = record w.ring {
              sequencer =
                  with_base (record (base_of w.ring.sequencer) { heap = h }) w.ring.sequencer;
            };
          })
      else w
