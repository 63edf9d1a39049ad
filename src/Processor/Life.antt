-- ===== src/Processor/Life.antt =====
-- processor.go: the runs of a processor and the halts of it, one atomic step after the other.
use disruptor_go.Prelude.{ℕ, ◌+◌, ◌≡◌, ◌≢◌, Bool, true, false, List, [], ◌∷◌, ◌⊎◌}
use disruptor_go.Processor.Run.{ProcessorState, idle, starting, running, halted}

-- Where a call of `Run` that was not refused is: before `ClearAlert`, before its second swap, in its
-- loop, or before its deferred reset.
pub data Phase : Type 0 where
  entered cleared looping leaving : Phase

-- The processor's state, its barrier's alert, the calls of `Run`, and those of `Halt` that have
-- halted the processor and not yet alerted the barrier.
pub record Life : Type 0 where
  pub state : ProcessorState
  pub is_alerted : Bool
  pub runs : List Phase
  pub halts : ℕ

-- One of the calls goes from a phase to another.
pub data Moves (from upto : Phase) : List Phase → List Phase → Type 0 where
  here : {rs : List Phase} → Moves from upto (from ∷ rs) (upto ∷ rs)
  there :
      {r : Phase} {rs rs' : List Phase}
      → Moves from upto rs rs'
      → Moves from upto (r ∷ rs) (r ∷ rs')

-- One of the calls in a phase returns.
pub data Returns (from : Phase) : List Phase → List Phase → Type 0 where
  now : {rs : List Phase} → Returns from (from ∷ rs) rs
  later : {r : Phase} {rs rs' : List Phase} → Returns from rs rs' → Returns from (r ∷ rs) (r ∷ rs')

-- The atomic steps of `Run` and `Halt`. `stop` is any end of the loop. A `Halt` whose swap fails
-- looks again, so it takes no step until it returns or swaps.
pub data Step (l : Life) : Life → Type 0 where
  enter : l.state ≡ idle → Step l (record l { state = starting; runs = entered ∷ l.runs })
  refuse : l.state ≢ idle → Step l l
  clear :
      {rs : List Phase}
      → Moves entered cleared l.runs rs
      → Step l (record l { is_alerted = false; runs = rs })
  begin :
      {rs : List Phase}
      → l.state ≡ starting
      → Moves cleared looping l.runs rs
      → Step l (record l { state = running; runs = rs })
  give_up :
      {rs : List Phase}
      → l.state ≢ starting
      → Moves cleared leaving l.runs rs
      → Step l (record l { runs = rs })
  stop : {rs : List Phase} → Moves looping leaving l.runs rs → Step l (record l { runs = rs })
  leave :
      {rs : List Phase} → Returns leaving l.runs rs → Step l (record l { state = idle; runs = rs })
  halt :
      (l.state ≡ starting) ⊎ (l.state ≡ running)
      → Step l (record l { state = halted; halts = l.halts + 1 })
  halt_idle : (l.state ≡ idle) ⊎ (l.state ≡ halted) → Step l l
  alert : (n : ℕ) → l.halts ≡ n + 1 → Step l (record l { is_alerted = true; halts = n })

-- What a new processor leads to.
pub data Reachable : Life → Type 0 where
  fresh :
      (alerted : Bool)
      → Reachable (record { state = idle; is_alerted = alerted; runs = []; halts = 0 })
  then : {l l' : Life} → Reachable l → Step l l' → Reachable l'
