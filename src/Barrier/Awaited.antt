-- ===== src/Barrier/Awaited.antt =====
-- wait_strategy.go and barrier.go: how a consumer's wait ends, with each of the strategies.
use disruptor_go.Prelude.{
  ℕ, ◌+◌, ◌≤◌, ◌≡◌, refl, Bool, true, false, ◌||◌, arith, ltb, leb, ◌==◌, List, [], ◌∷◌, ◌⊎◌, inl,
  inr, Option, some, none, if_elim, leb→le, bit_and, ap, if◌then◌else◌,
}
use disruptor_go.Errors.{Error, alerted, closed, cancelled, ok, err}
use disruptor_go.Heap.{load}
use disruptor_go.Sequencer.{
  WaitStrategy, busy_spin_wait, yielding_wait, sleeping_wait, blocking_wait,
}
use disruptor_go.Sequencer.Waiting.{Turn, Wake, signalled, done, shut}
use disruptor_go.Ring.{base_of, seq_highest_published}
use disruptor_go.Barrier.Waiting.{
  View, heap_of, available_of, check_wait, Found, unless_stopped, busy_spin, yielding, nap,
  select_publication, sleeping, blocking, strategy_wait, up_to_gap, wait_for,
}

-- Whether a context is done in one of the turns.
abbrev pub some_done : List (Turn View) → Bool
some_done [] = false
some_done (t ∷ ts) = t.ctx_done || some_done ts

-- Why a wait may give up: an alert, a closed ring, or its context.
abbrev pub Stopped : List (Turn View) → Error → View → Type 0
Stopped ts e v =
    ((e ≡ alerted) × (v.barrier.is_alerted ≡ true))
    ⊎ ((e ≡ closed) × ((base_of v.sequencer).is_closed || (base_of v.sequencer).closed_ch ≡ true))
    ⊎ ((e ≡ cancelled) × (some_done ts ≡ true))

-- How a wait of a strategy ends, beside the state then.
abbrev Awaited : List (Turn View) → ℕ → Found → Type 0
Awaited ts desired (none, v) = Unit
Awaited ts desired (some (ok n), v) = (desired ≤ n) × (n ≡ available_of v)
Awaited ts desired (some (err e), v) = Stopped ts e v

Awaited-cons :
    (t : Turn View) (ts : List (Turn View)) (desired : ℕ) (x : Found)
    → Awaited ts desired x
    → Awaited (t ∷ ts) desired x
Awaited-cons t ts desired (none, v) a = tt
Awaited-cons t ts desired (some (ok n), v) a = a
Awaited-cons t ts desired (some (err e), v) (inl a) = inl a
Awaited-cons t ts desired (some (err e), v) (inr (inl a)) = inr (inl a)
Awaited-cons t ts desired (some (err e), v) (inr (inr a)) = inr (inr (a.0, ground (arith, a.1)))

module _ (t : Turn View) (ts : List (Turn View)) (desired : ℕ) where
  go_on :
      (o : Option Error) (v : View) (rest : Found)
      → ((e : Error) → o ≡ some e → Stopped (t ∷ ts) e v)
      → Awaited (t ∷ ts) desired rest
      → Awaited (t ∷ ts) desired (unless_stopped o v rest)
  go_on none v rest stop a = a
  go_on (some e) v rest stop a = stop e refl

  check_wait-Awaited :
      (v : View) (rest : Found)
      → Awaited (t ∷ ts) desired rest
      → Awaited (t ∷ ts) desired (unless_stopped (check_wait t.ctx_done v) v rest)
  unfolding check_wait
  check_wait-Awaited v rest a =
      if_elim Q v.barrier.is_alerted _ _ (λ alert. inl (refl, alert))
        (λ calm.
          if_elim Q (base_of v.sequencer).is_closed _ _
            (λ shut. inr (inl (refl, ground (arith, shut))))
            (λ open_ring.
              if_elim Q t.ctx_done _ _ (λ over. inr (inr (refl, ground (arith, over))))
                (λ still. a)))
    where
      Q : Option Error → Type 0
      Q o = Awaited (t ∷ ts) desired (unless_stopped o v rest)

  found :
      (v : View) (rest : Found)
      → Awaited (t ∷ ts) desired rest
      → Awaited
          (t ∷ ts)
          desired
          (if leb desired (available_of v) then (some (ok (available_of v)), v) else rest)
  found v rest a =
      if_elim (Awaited (t ∷ ts) desired) (leb desired (available_of v))
        (some (ok (available_of v)), v) rest
        (λ there. (leb→le desired (available_of v) there, refl)) (λ behind. a)

busy_spin-Awaited :
    (ts : List (Turn View)) (spins desired : ℕ) (v : View)
    → Awaited ts desired (busy_spin ts spins desired v)
unfolding busy_spin
busy_spin-Awaited [] spins desired v = tt
busy_spin-Awaited (t ∷ ts) spins desired v =
    let v' = t.before v in
    let rest = busy_spin ts (spins + 1) desired (t.during v') in
    let a : Awaited (t ∷ ts) desired rest =
      Awaited-cons t ts desired rest (busy_spin-Awaited ts (spins + 1) desired (t.during v')) in
    found t ts desired v' _ (
      if_elim (Awaited (t ∷ ts) desired) (bit_and spins 63 == 0)
        (unless_stopped (check_wait t.ctx_done v') v' rest) rest
        (λ now. check_wait-Awaited t ts desired v' rest a) (λ later. a))

yielding-Awaited :
    (ts : List (Turn View)) (desired : ℕ) (v : View) → Awaited ts desired (yielding ts desired v)
unfolding yielding
yielding-Awaited [] desired v = tt
yielding-Awaited (t ∷ ts) desired v =
    let v' = t.before v in
    let rest = yielding ts desired (t.during v') in
    found t ts desired v' _ (
      check_wait-Awaited t ts desired v' rest
        (Awaited-cons t ts desired rest (yielding-Awaited ts desired (t.during v'))))

nap-Awaited :
    (t : Turn View) (ts : List (Turn View)) (desired : ℕ) (w : Wake) (v : View) (rest : Found)
    → Awaited (t ∷ ts) desired rest
    → Awaited (t ∷ ts) desired (unless_stopped (nap w t.ctx_done v) v rest)
nap-Awaited t ts desired signalled v rest a = a
nap-Awaited t ts desired done v rest a =
    if_elim (λ o. Awaited (t ∷ ts) desired (unless_stopped o v rest)) t.ctx_done (some cancelled)
      none (λ over. inr (inr (refl, ground (arith, over)))) (λ still. a)
nap-Awaited t ts desired shut v rest a =
    if_elim (λ o. Awaited (t ∷ ts) desired (unless_stopped o v rest))
      (base_of v.sequencer).closed_ch (some closed) none
      (λ gone. inr (inl (refl, ground (arith, gone)))) (λ there. a)

select_publication-Awaited :
    (t : Turn View) (ts : List (Turn View)) (desired : ℕ) (w : Wake) (woken : Bool) (v : View)
    (rest : Found)
    → Awaited (t ∷ ts) desired rest
    → Awaited (t ∷ ts) desired (select_publication w t.ctx_done woken v rest)
select_publication-Awaited t ts desired signalled woken v rest a =
    if_elim (Awaited (t ∷ ts) desired) woken rest (none, v) (λ yes. a) (λ no. tt)
select_publication-Awaited t ts desired done woken v rest a =
    if_elim (Awaited (t ∷ ts) desired) t.ctx_done (some (err cancelled), v) (none, v)
      (λ over. inr (inr (refl, ground (arith, over)))) (λ still. tt)
select_publication-Awaited t ts desired shut woken v rest a =
    if_elim (Awaited (t ∷ ts) desired) (base_of v.sequencer).closed_ch (some (err closed), v)
      (none, v) (λ gone. inr (inl (refl, ground (arith, gone)))) (λ there. tt)

sleeping-Awaited :
    (ts : List (Turn View)) (tries awake desired : ℕ) (v : View)
    → Awaited ts desired (sleeping ts tries awake desired v)
unfolding sleeping
sleeping-Awaited [] tries awake desired v = tt
sleeping-Awaited (t ∷ ts) tries awake desired v =
    let v' = t.before v in
    let v'' = t.during v' in
    let rest = sleeping ts (tries + 1) awake desired v'' in
    let a : Awaited (t ∷ ts) desired rest =
      Awaited-cons t ts desired rest (sleeping-Awaited ts (tries + 1) awake desired v'') in
    found t ts desired v' _ (
      check_wait-Awaited t ts desired v' _ (
        if_elim (Awaited (t ∷ ts) desired) (ltb tries awake) rest
          (unless_stopped (nap t.wake t.ctx_done v'') v'' rest) (λ spin. a)
          (λ sleep. nap-Awaited t ts desired t.wake v'' rest a)))

blocking-Awaited :
    (ts : List (Turn View)) (taken : Option ℕ) (p desired : ℕ) (v : View)
    → Awaited ts desired (blocking ts taken p desired v)
unfolding blocking
blocking-Awaited [] taken p desired v = tt
blocking-Awaited (t ∷ ts) none p desired v =
    let v' = t.before v in
    let ch = (heap_of v').strategies p in
    let v'' = t.during v' in
    let rest = blocking ts (some ch) p desired v'' in
    if_elim (Awaited (t ∷ ts) desired) (leb desired (load v'.barrier.cursor (heap_of v'))) _
      (if leb desired (load v''.barrier.cursor (heap_of v''))
        then yielding ts desired v''
        else unless_stopped (check_wait t.ctx_done v'') v'' rest)
      (λ there. yielding-Awaited (t ∷ ts) desired v)
      (λ behind.
        if_elim (Awaited (t ∷ ts) desired) (leb desired (load v''.barrier.cursor (heap_of v'')))
          (yielding ts desired v'') (unless_stopped (check_wait t.ctx_done v'') v'' rest)
          (λ came. Awaited-cons t ts desired _ (yielding-Awaited ts desired v''))
          (λ still.
            check_wait-Awaited t ts desired v'' rest
              (Awaited-cons t ts desired rest (blocking-Awaited ts (some ch) p desired v''))))
blocking-Awaited (t ∷ ts) (some ch) p desired v =
    let v' = t.before v in
    let rest = blocking ts none p desired (t.during v') in
    select_publication-Awaited t ts desired t.wake (ltb ch ((heap_of v').strategies p)) v' rest
      (Awaited-cons t ts desired rest (blocking-Awaited ts none p desired (t.during v')))

strategy_wait-Awaited :
    (ts : List (Turn View)) (strategy : WaitStrategy) (desired : ℕ) (v : View)
    → Awaited ts desired (strategy_wait ts strategy desired v)
unfolding strategy_wait
strategy_wait-Awaited ts busy_spin_wait desired v = busy_spin-Awaited ts 0 desired v
strategy_wait-Awaited ts yielding_wait desired v = yielding-Awaited ts desired v
strategy_wait-Awaited ts (sleeping_wait spins yields d) desired v =
    sleeping-Awaited ts 0 (spins + yields) desired v
strategy_wait-Awaited ts (blocking_wait p) desired v = blocking-Awaited ts none p desired v

-- How `WaitFor` ends, beside the state then.
abbrev pub Delivered : List (Turn View) → ℕ → Found → Type 0
Delivered ts desired (none, v) = Unit
Delivered ts desired (some (ok h), v) =
    (desired ≤ available_of v) × (h ≡ seq_highest_published v.sequencer desired (available_of v))
Delivered ts desired (some (err e), v) = Stopped ts e v

up_to_gap-Delivered :
    (ts : List (Turn View)) (desired : ℕ) (x : Found)
    → Awaited ts desired x
    → Delivered ts desired (up_to_gap desired x)
up_to_gap-Delivered ts desired (none, v) a = tt
up_to_gap-Delivered ts desired (some (err e), v) a = a
up_to_gap-Delivered ts desired (some (ok n), v) (le, e) =
    if_elim (Delivered ts desired) (ltb n desired) (some (ok n), v)
      (some (ok (seq_highest_published v.sequencer desired n)), v)
      (λ short. absurd (ground (arith, short, le)))
      (λ far. (omega (arith, e), ap (seq_highest_published v.sequencer desired) e))

-- `WaitFor` ends the same way with each of the strategies and whatever the others do meanwhile. It
-- gives up only with an alert that is set, a ring that is closed, or a context that was done in one
-- of its turns. Otherwise what the barrier depends on has reached the desired sequence, and it
-- returns the highest sequence up to there that is published without a gap.
pub wait_for-Delivered :
    (ts : List (Turn View)) (desired : ℕ) (v : View) → Delivered ts desired (wait_for ts desired v)
unfolding wait_for
wait_for-Delivered ts desired v =
    if_elim (Delivered ts desired) v.barrier.is_alerted (some (err alerted), v)
      (up_to_gap desired (strategy_wait ts v.barrier.wait desired v)) (λ alert. inl (refl, alert))
      (λ calm. up_to_gap-Delivered ts desired _ (strategy_wait-Awaited ts v.barrier.wait desired v))
