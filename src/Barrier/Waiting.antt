-- ===== src/Barrier/Waiting.antt =====
-- wait_strategy.go and `WaitFor` of barrier.go: a consumer waits for a sequence.
--
-- A consumer that waits changes nothing, so a loop returns what it found beside the state then.
use disruptor_go.Prelude.{
  [], ℕ, ◌+◌, Bool, List, ◌∷◌, Option, none, some, ltb, leb, ◌==◌, if◌then◌else◌, bit_and,
}
use disruptor_go.Errors.{Error, alerted, closed, cancelled, Result, ok, err}
use disruptor_go.Heap.{Heap, load}
use disruptor_go.Sequencer.{
  WaitStrategy, busy_spin_wait, yielding_wait, sleeping_wait, blocking_wait,
}
use disruptor_go.Sequencer.Waiting.{Turn, Wake, signalled, done, shut}
use disruptor_go.Ring.{Sequencer, base_of, seq_highest_published}
use disruptor_go.Barrier.{load_reader, SequenceBarrier}

-- What a waiting consumer looks at.
pub record View : Type 0 where
  pub sequencer : Sequencer
  pub barrier : SequenceBarrier

abbrev pub heap_of : View → Heap
heap_of v = (base_of v.sequencer).heap

abbrev pub available_of : View → ℕ
available_of v = load_reader (heap_of v) v.barrier.dependent

-- `checkWait`, with whether the context is done.
unfoldable pub check_wait : Bool → View → Option Error
check_wait ctx_done v =
    if v.barrier.is_alerted
    then some alerted
    else if (base_of v.sequencer).is_closed
    then some closed
    else if ctx_done
    then some cancelled
    else none

-- What a wait found, and the state then; `none` waits still.
abbrev pub Found : Type 0
Found = Option (Result ℕ) × View

-- `if err := checkWait(...); err != nil { return 0, err }`
abbrev pub unless_stopped : Option Error → View → Found → Found
unless_stopped none v rest = rest
unless_stopped (some e) v rest = (some (err e), v)

-- `BusySpinWaitStrategy.waitFor`, from a number of spins on.
unfoldable pub busy_spin : List (Turn View) → ℕ → ℕ → View → Found
busy_spin [] spins desired v = (none, v)
busy_spin (t ∷ ts) spins desired v =
    let v' = t.before v in
    let rest = busy_spin ts (spins + 1) desired (t.during v') in
    if leb desired (available_of v')
    then (some (ok (available_of v')), v')
    else if bit_and spins 63 == 0
    then unless_stopped (check_wait t.ctx_done v') v' rest
    else rest

-- `YieldingWaitStrategy.waitFor`, and the last loop of `BlockingWaitStrategy.waitFor`.
unfoldable pub yielding : List (Turn View) → ℕ → View → Found
yielding [] desired v = (none, v)
yielding (t ∷ ts) desired v =
    let v' = t.before v in
    let rest = yielding ts desired (t.during v') in
    if leb desired (available_of v')
    then (some (ok (available_of v')), v')
    else unless_stopped (check_wait t.ctx_done v') v' rest

-- The `select` of a sleeping wait; its timer fires in any case.
abbrev pub nap : Wake → Bool → View → Option Error
nap signalled ctx_done v = none
nap done ctx_done v = if ctx_done then some cancelled else none
nap shut ctx_done v = if (base_of v.sequencer).closed_ch then some closed else none

-- `SleepingWaitStrategy.waitFor`, from a number of tries on; `spins` are spins and yields together.
unfoldable pub sleeping : List (Turn View) → ℕ → ℕ → ℕ → View → Found
sleeping [] tries awake desired v = (none, v)
sleeping (t ∷ ts) tries awake desired v =
    let v' = t.before v in
    let v'' = t.during v' in
    let rest = sleeping ts (tries + 1) awake desired v'' in
    if leb desired (available_of v')
    then (some (ok (available_of v')), v')
    else unless_stopped (check_wait t.ctx_done v') v'
        (if ltb tries awake then rest else unless_stopped (nap t.wake t.ctx_done v'') v'' rest)

-- The `select` of a blocking wait, with whether its channel was closed.
abbrev pub select_publication : Wake → Bool → Bool → View → Found → Found
select_publication signalled ctx_done woken v rest = if woken then rest else (none, v)
select_publication done ctx_done woken v rest =
    if ctx_done then (some (err cancelled), v) else (none, v)
select_publication shut ctx_done woken v rest =
    if (base_of v.sequencer).closed_ch then (some (err closed), v) else (none, v)

-- The first loop of `BlockingWaitStrategy.waitFor`, on the producer's cursor. A round takes two
-- turns: in the first it looks at the cursor, takes the channel, and after what the others do during
-- the turn looks at the cursor again and checks; with the channel it has taken, the second turn is
-- its `select`.
unfoldable pub blocking : List (Turn View) → Option ℕ → ℕ → ℕ → View → Found
unfolding yielding check_wait
blocking [] taken p desired v = (none, v)
blocking (t ∷ ts) none p desired v =
    let v' = t.before v in
    let ch = (heap_of v').strategies p in
    let v'' = t.during v' in
    let rest = blocking ts (some ch) p desired v'' in
    if leb desired (load v'.barrier.cursor (heap_of v'))
    then yielding (t ∷ ts) desired v
    else if leb desired (load v''.barrier.cursor (heap_of v''))
    then yielding ts desired v''
    else unless_stopped (check_wait t.ctx_done v'') v'' rest
blocking (t ∷ ts) (some ch) p desired v =
    let v' = t.before v in
    let rest = blocking ts none p desired (t.during v') in
    select_publication t.wake t.ctx_done (ltb ch ((heap_of v').strategies p)) v' rest

-- `waitFor` of each strategy
unfoldable pub strategy_wait : List (Turn View) → WaitStrategy → ℕ → View → Found
unfolding busy_spin yielding sleeping blocking
strategy_wait ts busy_spin_wait desired v = busy_spin ts 0 desired v
strategy_wait ts yielding_wait desired v = yielding ts desired v
strategy_wait ts (sleeping_wait spins yields _) desired v = sleeping ts 0 (spins + yields) desired v
strategy_wait ts (blocking_wait p) desired v = blocking ts none p desired v

-- What `WaitFor` makes of it: no more than is published without a gap.
abbrev pub up_to_gap : ℕ → Found → Found
up_to_gap desired (none, v) = (none, v)
up_to_gap desired (some (err e), v) = (some (err e), v)
up_to_gap desired (some (ok available), v) =
    if ltb available desired
    then (some (ok available), v)
    else (some (ok (seq_highest_published v.sequencer desired available)), v)

-- WaitFor
unfoldable pub wait_for : List (Turn View) → ℕ → View → Found
unfolding strategy_wait
wait_for ts desired v =
    if v.barrier.is_alerted
    then (some (err alerted), v)
    else up_to_gap desired (strategy_wait ts v.barrier.wait desired v)
