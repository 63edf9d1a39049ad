-- ===== src/Barrier/Unmoved.antt =====
-- wait_strategy.go and barrier.go: a wait changes nothing by itself.
use disruptor_go.Prelude.{
  ℕ, ◌+◌, Bool, ltb, leb, ◌==◌, List, [], ◌∷◌, Option, some, none, if_elim, bit_and, All,
  if◌then◌else◌,
}
use disruptor_go.Errors.{Error, alerted, cancelled, closed, ok, err}
use disruptor_go.Heap.{load}
use disruptor_go.Sequencer.{
  WaitStrategy, busy_spin_wait, yielding_wait, sleeping_wait, blocking_wait,
}
use disruptor_go.Sequencer.Waiting.{Turn, Wake, signalled, done, shut}
use disruptor_go.Ring.{base_of, seq_highest_published}
use disruptor_go.Barrier.Waiting.{
  View, heap_of, available_of, check_wait, Found, unless_stopped, busy_spin, yielding, nap,
  select_publication, sleeping, blocking, strategy_wait, up_to_gap, wait_for,
}

-- What the other goroutines keep in each turn holds in the end.
module _ {ℓ} (P : View → Type ℓ) where
  pub record Keeps (t : Turn View) : Type ℓ where
    pub before : (v : View) → P v → P (t.before v)
    pub during : (v : View) → P v → P (t.during v)

  unless_stopped-keeps :
      (o : Option Error) (v : View) (rest : Found) → P v → P rest.1 → P (unless_stopped o v rest).1
  unless_stopped-keeps none v rest h g = g
  unless_stopped-keeps (some e) v rest h g = h

  select-keeps :
      (w : Wake) (c woken : Bool) (v : View) (rest : Found)
      → P v
      → P rest.1
      → P (select_publication w c woken v rest).1
  select-keeps signalled c woken v rest h g =
      if_elim (λ (x : Found). P x.1) woken rest (none, v) (λ yes. g) (λ no. h)
  select-keeps done c woken v rest h g =
      if_elim (λ (x : Found). P x.1) c (some (err cancelled), v) (none, v) (λ yes. h) (λ no. h)
  select-keeps shut c woken v rest h g =
      if_elim (λ (x : Found). P x.1) (base_of v.sequencer).closed_ch (some (err closed), v)
        (none, v) (λ yes. h) (λ no. h)

  busy_spin-keeps :
      (ts : List (Turn View)) (spins desired : ℕ) (v : View)
      → All Keeps ts
      → P v
      → P (busy_spin ts spins desired v).1
  unfolding busy_spin
  busy_spin-keeps [] spins desired v k h = h
  busy_spin-keeps (t ∷ ts) spins desired v k h =
      let v' = t.before v in
      let h' : P v' = k.0.before v h in
      let rest = busy_spin ts (spins + 1) desired (t.during v') in
      let g : P rest.1 =
        busy_spin-keeps ts (spins + 1) desired (t.during v') k.1 (k.0.during v' h') in
      if_elim (λ (x : Found). P x.1) (leb desired (available_of v'))
        (some (ok (available_of v')), v') _ (λ there. h')
        (λ behind.
          if_elim (λ (x : Found). P x.1) (bit_and spins 63 == 0)
            (unless_stopped (check_wait t.ctx_done v') v' rest) rest
            (λ now. unless_stopped-keeps (check_wait t.ctx_done v') v' rest h' g) (λ later. g))

  yielding-keeps :
      (ts : List (Turn View)) (desired : ℕ) (v : View)
      → All Keeps ts
      → P v
      → P (yielding ts desired v).1
  unfolding yielding
  yielding-keeps [] desired v k h = h
  yielding-keeps (t ∷ ts) desired v k h =
      let v' = t.before v in
      let h' : P v' = k.0.before v h in
      let rest = yielding ts desired (t.during v') in
      let g : P rest.1 = yielding-keeps ts desired (t.during v') k.1 (k.0.during v' h') in
      if_elim (λ (x : Found). P x.1) (leb desired (available_of v'))
        (some (ok (available_of v')), v') _ (λ there. h')
        (λ behind. unless_stopped-keeps (check_wait t.ctx_done v') v' rest h' g)

  sleeping-keeps :
      (ts : List (Turn View)) (tries awake desired : ℕ) (v : View)
      → All Keeps ts
      → P v
      → P (sleeping ts tries awake desired v).1
  unfolding sleeping
  sleeping-keeps [] tries awake desired v k h = h
  sleeping-keeps (t ∷ ts) tries awake desired v k h =
      let v' = t.before v in
      let v'' = t.during v' in
      let h' : P v' = k.0.before v h in
      let h'' : P v'' = k.0.during v' h' in
      let rest = sleeping ts (tries + 1) awake desired v'' in
      let g : P rest.1 = sleeping-keeps ts (tries + 1) awake desired v'' k.1 h'' in
      if_elim (λ (x : Found). P x.1) (leb desired (available_of v'))
        (some (ok (available_of v')), v') _ (λ there. h')
        (λ behind. unless_stopped-keeps (check_wait t.ctx_done v') v' _ h' (
          if_elim (λ (x : Found). P x.1) (ltb tries awake) rest
            (unless_stopped (nap t.wake t.ctx_done v'') v'' rest) (λ spin. g)
            (λ sleep. unless_stopped-keeps (nap t.wake t.ctx_done v'') v'' rest h'' g)))

  blocking-keeps :
      (ts : List (Turn View)) (taken : Option ℕ) (p desired : ℕ) (v : View)
      → All Keeps ts
      → P v
      → P (blocking ts taken p desired v).1
  unfolding blocking
  blocking-keeps [] taken p desired v k h = h
  blocking-keeps (t ∷ ts) none p desired v k h =
      let v' = t.before v in
      let ch = (heap_of v').strategies p in
      let v'' = t.during v' in
      let h'' : P v'' = k.0.during v' (k.0.before v h) in
      let rest = blocking ts (some ch) p desired v'' in
      if_elim (λ (x : Found). P x.1) (leb desired (load v'.barrier.cursor (heap_of v'))) _
        (if leb desired (load v''.barrier.cursor (heap_of v''))
          then yielding ts desired v''
          else unless_stopped (check_wait t.ctx_done v'') v'' rest)
        (λ there. yielding-keeps (t ∷ ts) desired v k h)
        (λ behind.
          if_elim (λ (x : Found). P x.1) (leb desired (load v''.barrier.cursor (heap_of v'')))
            (yielding ts desired v'') (unless_stopped (check_wait t.ctx_done v'') v'' rest)
            (λ came. yielding-keeps ts desired v'' k.1 h'')
            (λ still.
              unless_stopped-keeps (check_wait t.ctx_done v'') v'' rest h''
                (blocking-keeps ts (some ch) p desired v'' k.1 h'')))
  blocking-keeps (t ∷ ts) (some ch) p desired v k h =
      let v' = t.before v in
      let h' : P v' = k.0.before v h in
      let rest = blocking ts none p desired (t.during v') in
      select-keeps t.wake t.ctx_done (ltb ch ((heap_of v').strategies p)) v' rest h'
        (blocking-keeps ts none p desired (t.during v') k.1 (k.0.during v' h'))

  strategy_wait-keeps :
      (ts : List (Turn View)) (strategy : WaitStrategy) (desired : ℕ) (v : View)
      → All Keeps ts
      → P v
      → P (strategy_wait ts strategy desired v).1
  unfolding strategy_wait
  strategy_wait-keeps ts busy_spin_wait desired v k h = busy_spin-keeps ts 0 desired v k h
  strategy_wait-keeps ts yielding_wait desired v k h = yielding-keeps ts desired v k h
  strategy_wait-keeps ts (sleeping_wait spins yields d) desired v k h =
      sleeping-keeps ts 0 (spins + yields) desired v k h
  strategy_wait-keeps ts (blocking_wait p) desired v k h = blocking-keeps ts none p desired v k h

  up_to_gap-keeps : (desired : ℕ) (x : Found) → P x.1 → P (up_to_gap desired x).1
  up_to_gap-keeps desired (none, v) h = h
  up_to_gap-keeps desired (some (err e), v) h = h
  up_to_gap-keeps desired (some (ok n), v) h =
      if_elim (λ (x : Found). P x.1) (ltb n desired) (some (ok n), v)
        (some (ok (seq_highest_published v.sequencer desired n)), v) (λ short. h) (λ far. h)

  pub wait_for-keeps :
      (ts : List (Turn View)) (desired : ℕ) (v : View)
      → All Keeps ts
      → P v
      → P (wait_for ts desired v).1
  unfolding wait_for
  wait_for-keeps ts desired v k h =
      if_elim (λ (x : Found). P x.1) v.barrier.is_alerted (some (err alerted), v)
        (up_to_gap desired (strategy_wait ts v.barrier.wait desired v)) (λ alert. h)
        (λ calm. up_to_gap-keeps desired _ (strategy_wait-keeps ts v.barrier.wait desired v k h))
