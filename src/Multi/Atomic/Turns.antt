-- ===== src/Multi/Atomic/Turns.antt =====
-- sequencer_multi.go: the exchange of the cursor, and the words that a claim prepares and resolves.
use disruptor_go.Prelude.{
  ℕ, ◌+◌, ◌^◌, ◌≤◌, ◌<◌, ◌≡◌, ◌≢◌, refl, subst, true, inr, All-map, All-map₂, arith,
}
use disruptor_go.Int64.{of_nat, add}
use disruptor_go.Heap.{load, store_value, update, contains}
use disruptor_go.Multi.{MultiProducerSequencer, with_heap, index, flag, resolution}
use disruptor_go.Multi.Slots.{InRange, is_claimed}
use disruptor_go.Multi.Safety.{cursor_of, IsGate, Kept}
use disruptor_go.Multi.Steps.{store_cursor-Kept}
use disruptor_go.Multi.Atomic.{System, goes, preparing, aiming, between}
use disruptor_go.Multi.Atomic.Fits.{Fits, All-contains}
use disruptor_go.Multi.Atomic.Sound.{IsSound, Change-IsSound, Owed, Ahead}

module _ {ℓ} {A : Type ℓ} (f : ℕ → A) (i : ℕ) (v : A) where
  pub update_self : update f i v i ≡ v
  update_self = ground arith

  pub update_other : (j : ℕ) → i ≢ j → update f i v j ≡ f j
  update_other j n = ground arith

-- The exchange that succeeds.
pub win-IsSound :
    {k : ℕ} (y : System) (i current next : ℕ)
    → IsSound k y
    → y.phases i ≡ aiming current next
    → cursor_of y.ring ≡ current
    → next + 2 ^ k < of_nat (2 ^ 62)
    → IsSound k (
        goes i
          (preparing (add current (of_nat 1)) (add current (of_nat 1)) next)
          (with_heap (store_value y.ring.cursor next y.ring.heap) y.ring)
          y)
unfolding is_claimed resolution index flag
win-IsSound {k} y i current next sound was here short = Change-IsSound sound (record {
  was = was;
  is = update_self y.phases i _;
  others = update_other y.phases i _;
  safe = kept.safe;
  short = kept.short;
  clean = kept.clean sound.clean;
  later = record { forward = omega (arith, at_next, up); gating = refl; gates = gates };
  fits = (omega arith, omega (arith, low, aim.0.up));
  owed = owed;
  new = λ q o. inr (ground (arith, low));
  covers = λ q above below. ground (arith, low, at_next);
  frame = λ q w free. (refl, refl);
  ahead = λ j q o old. past q old.ahead;
  resolved = λ q r o free. absurd (cc o);
})
  where
    s' : MultiProducerSequencer
    s' = with_heap (store_value y.ring.cursor next y.ring.heap) y.ring

    aim : Fits k y.ring (aiming current next)
    aim = subst (Fits k y.ring) was (sound.fits i)

    up : cursor_of y.ring ≤ next
    up = omega (arith, here, aim.0.up)

    kept : Kept k y.ring (with_heap (store_value y.ring.cursor next y.ring.heap) y.ring)
    kept = store_cursor-Kept y.ring next up short aim.1 sound.safe sound.short

    at_next : load y.ring.cursor (store_value y.ring.cursor next y.ring.heap) ≡ next
    at_next = ground arith

    low : add current (of_nat 1) ≡ current + 1
    low = omega (arith, here, sound.short)

    gates :
        (p : ℕ)
        → contains y.ring.gating p ≡ true
        → load p y.ring.heap ≤ load p (store_value y.ring.cursor next y.ring.heap)
    gates p there =
        let g : IsGate k y.ring.base y.ring.gate_cache p =
          All-contains _ y.ring.gating p sound.safe.guarded.gates there in
        ground (arith, g)

    past : (q : ℕ) → Ahead y.ring q → Ahead s' q
    past q ahead =
        All-map₂ y.ring.gating (λ p g a. ground (arith, g)) sound.safe.guarded.gates ahead

    owed :
        (q : ℕ)
        → between (add current (of_nat 1)) next q ≡ true
        → Owed s' (between (add current (of_nat 1)) next q) q
    owed q o =
        let fresh : cursor_of y.ring < q = ground (arith, low) in
        let high : q ≤ next = ground arith in
        let valid : InRange q = (omega (arith, aim.0.started), omega (arith, short)) in
        let clean = sound.clean q valid fresh in
        record {
          valid = valid;
          behind = omega (arith, at_next);
          ahead =
              past q
                (All-map y.ring.gating (λ p g. omega (arith, g.behind)) sound.safe.guarded.gates);
          claimed = rw o (clean.0);
          waiting = clean.1;
        }
