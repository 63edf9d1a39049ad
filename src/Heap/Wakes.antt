-- ===== src/Heap/Wakes.antt =====
-- sequence.go and producer_wait.go: a store to a sequence wakes the waiters that it signals.
use disruptor_go.Prelude.{
  ℕ, ◌≤◌, ◌<◌, ◌≡◌, true, arith, List, [], ◌∷◌, ◌==◌, Bool-cases, inl, inr, ==_refl, ◌∙◌,
}
use disruptor_go.Heap.{
  Heap, needs_signals, signal_waiter, signal_each, signal_all, store, store_value, contains,
}

-- The channel that is open now.
abbrev pub channel : ℕ → Heap → ℕ
channel w h = (h.waiters w).ch

signal_waiter-channel :
    (w x : ℕ) (h : Heap)
    → (channel w h ≤ channel w (signal_waiter x h))
      × (needs_signals w (signal_waiter x h) ≡ needs_signals w h)
unfolding signal_waiter
signal_waiter-channel w x h = ground arith

-- A waiter that blocks gets a new channel, and those that wait on the old one are woken.
pub channel-signal_waiter :
    (w : ℕ) (h : Heap) → needs_signals w h ≡ true → channel w h < channel w (signal_waiter w h)
unfolding signal_waiter
channel-signal_waiter w h blocks = ground arith

signal_each-channel : (ws : List ℕ) (w : ℕ) (h : Heap) → channel w h ≤ channel w (signal_each ws h)
unfolding signal_each
signal_each-channel [] w h = omega arith
signal_each-channel (x ∷ ws) w h =
    omega (arith, signal_waiter-channel w x h, signal_each-channel ws w (signal_waiter x h))

channel-signal_each :
    (ws : List ℕ) (w : ℕ) (h : Heap)
    → contains ws w ≡ true
    → needs_signals w h ≡ true
    → channel w h < channel w (signal_each ws h)
unfolding signal_each
channel-signal_each [] w h has blocks = absurd (ground (arith, has))
channel-signal_each (x ∷ ws) w h has blocks = elim (Bool-cases (x == w)) [
  | inl same ↦
      let here : x ≡ w = ground (arith, same) in
      rw here (
        omega
          (arith, channel-signal_waiter w h blocks, signal_each-channel ws w (signal_waiter w h)))
  | inr other ↦
      let later : contains ws w ≡ true = ground (arith, has, other) in
      omega (
        arith,
        signal_waiter-channel w x h,
        channel-signal_each ws w (signal_waiter x h) later
            ((signal_waiter-channel w x h).1 ∙ blocks),
      )
]

-- A store to a sequence closes the channel of each blocking waiter in its list, so that a producer
-- which took that channel before the store does not sleep past it.
pub channel-store :
    (p v w : ℕ) (h : Heap)
    → contains (h.sequences p).signals w ≡ true
    → needs_signals w h ≡ true
    → channel w h < channel w (store p v h)
unfolding store signal_all
channel-store p v w h has blocks =
    let h' = store_value p v h in
    let listed : contains (h'.sequences p).signals w ≡ true = rw (==_refl p) has in
    channel-signal_each (h'.sequences p).signals w h' listed blocks
