-- ===== src/Multi/Atomic/Calm.antt =====
-- sequencer_multi.go: the atomic operations that neither claim nor resolve a sequence.
use disruptor_go.Prelude.{
  ℕ, ◌≤◌, ◌<◌, ◌≡◌, ◌≢◌, refl, sym, ap, subst, ◌∙◌, true, inl, All, All-map, All-map₂, arith,
}
use disruptor_go.Int64.{minus_one}
use disruptor_go.Heap.{Heap, load, store, store_value, contains}
use disruptor_go.Heap.Laws.{load-store}
use disruptor_go.Sequencer.{signal_strategy}
use disruptor_go.Sequencer.Positions.{load-signal_strategy}
use disruptor_go.Publication.{unresolved}
use disruptor_go.Multi.{MultiProducerSequencer, with_heap, index, flag, resolution, is_available}
use disruptor_go.Multi.Slots.{is_claimed}
use disruptor_go.Multi.Safety.{cursor_of, IsGate, IsSafe, Kept, Rely}
use disruptor_go.Multi.Steps.{own-Kept, store_cache-Kept}
use disruptor_go.Multi.Others.{signal-Kept, store-Kept}
use disruptor_go.Multi.Atomic.{Phase, System, owes, unprepared}
use disruptor_go.Multi.Atomic.Fits.{Fits, Later, own-Later, contains-All, All-contains}
use disruptor_go.Multi.Atomic.Sound.{IsSound, Change-IsSound, Owed, Ahead}

-- The heap changes, the cursor and the gates that matter to an unresolved sequence do not.
pub record Calm (k : ℕ) (s : MultiProducerSequencer) (h : Heap) : Type 0 where
  pub kept : Rely k s (with_heap h s)
  pub later : Later s (with_heap h s)
  pub still : cursor_of (with_heap h s) ≡ cursor_of s
  pub ahead :
      (q : ℕ) → q ≤ cursor_of s → resolution s q ≡ unresolved → Ahead s q → Ahead (with_heap h s) q

is_claimed-with_heap :
    (h : Heap) (s : MultiProducerSequencer) (q : ℕ) → is_claimed (with_heap h s) q ≡ is_claimed s q
unfolding is_claimed index flag
is_claimed-with_heap h s q = refl

resolution-with_heap :
    (h : Heap) (s : MultiProducerSequencer) (q : ℕ) → resolution (with_heap h s) q ≡ resolution s q
unfolding resolution index flag
resolution-with_heap h s q = refl

-- Such a step takes its producer to a phase in which it owes the same.
pub Calm-IsSound :
    {k : ℕ} {y y' : System} (h : Heap) (i : ℕ) (ph ph' : Phase)
    → IsSound k y
    → y'.ring ≡ with_heap h y.ring
    → y.phases i ≡ ph
    → y'.phases i ≡ ph'
    → ((j : ℕ) → i ≢ j → y'.phases j ≡ y.phases j)
    → Calm k y.ring h
    → ((q : ℕ) → owes ph' q ≡ owes ph q)
    → ((q : ℕ) → unprepared ph' q ≡ unprepared ph q)
    → Fits k (with_heap h y.ring) ph'
    → IsSound k y'
Calm-IsSound {k} {y} {y'} h i ph ph' sound ring was is others calm same ready fits =
    Change-IsSound sound (record {
      was = was;
      is = is;
      others = others;
      safe = rw ring kept.safe;
      short = rw ring kept.short;
      clean = rw ring (kept.clean sound.clean);
      later = rw ring calm.later;
      fits = rw ring fits;
      owed = λ q o. rw ring (owed q o);
      new = λ q o. inl (sym (same q) ∙ o);
      covers = λ q above below. absurd (omega (arith, above, below, ap cursor_of ring, calm.still));
      frame =
          λ q w free. rw ring (is_claimed-with_heap h y.ring q, resolution-with_heap h y.ring q);
      ahead = λ j q o old. rw ring (calm.ahead q old.behind old.waiting old.ahead);
      resolved = λ q r o free. absurd (cc (o, free, same q));
    })
  where
    kept : Kept k y.ring (with_heap h y.ring)
    kept = calm.kept sound.safe sound.short

    owed : (q : ℕ) → owes ph' q ≡ true → Owed (with_heap h y.ring) (unprepared ph' q) q
    owed q o =
        let old : Owed y.ring (unprepared ph q) q =
          subst (λ p. Owed y.ring (unprepared p q) q) was
            (sound.owed i q (ap (λ p. owes p q) was ∙ sym (same q) ∙ o)) in
        record {
          valid = old.valid;
          behind = omega (arith, old.behind, calm.still);
          ahead = calm.ahead q old.behind old.waiting old.ahead;
          claimed = is_claimed-with_heap h y.ring q ∙ rw (ready q) old.claimed;
          waiting = resolution-with_heap h y.ring q ∙ old.waiting;
        }

pub own-Calm : {k : ℕ} (s : MultiProducerSequencer) → Calm k s s.heap
own-Calm s = record {
  kept = own-Kept s;
  later = own-Later s;
  still = refl;
  ahead = λ q below waits ahead. ahead;
}

pub signal-Calm : {k : ℕ} (s : MultiProducerSequencer) → Calm k s (signal_strategy s.wait s.heap)
signal-Calm s = record {
  kept = signal-Kept s;
  later = record {
    forward = omega (arith, still s.cursor);
    gating = refl;
    gates = λ p there. omega (arith, still p);
  };
  still = still s.cursor;
  ahead = λ q below waits ahead. All-map s.gating (λ p a. omega (arith, still p)) ahead;
}
  where
    still : (p : ℕ) → load p (signal_strategy s.wait s.heap) ≡ load p s.heap
    still p = load-signal_strategy s.wait p s.heap

-- A bound of the gates is cached, however old.
pub store_cache-Calm :
    {k : ℕ} (s : MultiProducerSequencer) (m : ℕ)
    → IsSafe k s
    → minus_one ≤ m
    → m ≤ cursor_of s
    → All (λ p. m ≤ load p s.heap) s.gating
    → Calm k s (store_value s.gate_cache m s.heap)
store_cache-Calm {k} s m safe up below reached = record {
  kept = store_cache-Kept s m up below reached;
  later = record {
    forward = omega (arith, still);
    gating = refl;
    gates = λ p there.
        let g : IsGate k s.base s.gate_cache p =
          All-contains _ s.gating p safe.guarded.gates there in
        ground (arith, g);
  };
  still = still;
  ahead = λ q b w ahead. All-map₂ s.gating (λ p g a. ground (arith, g)) safe.guarded.gates ahead;
}
  where
    still : load s.cursor (store_value s.gate_cache m s.heap) ≡ cursor_of s
    still = ground (arith, safe.guarded.cache_apart)

-- A consumer moves on over available sequences.
pub consume-Calm :
    {k : ℕ} (s : MultiProducerSequencer) (p v : ℕ)
    → IsSafe k s
    → contains s.gating p ≡ true
    → load p s.heap ≤ v
    → v ≤ cursor_of s
    → ((q : ℕ) → load p s.heap < q → q ≤ v → is_available s q ≡ true)
    → Calm k s (store p v s.heap)
unfolding is_available
consume-Calm {k} s p v safe there up below available = record {
  kept = store-Kept p v s g.not_cursor g.not_cache up below;
  later = record {
    forward = omega (arith, still);
    gating = refl;
    gates = λ r at. ground (arith, load-store p v r s.heap);
  };
  still = still;
  ahead = λ q b waits ahead. contains-All _ s.gating (λ r at.
      let a : load r s.heap < q = All-contains _ s.gating r ahead at in
      ground (arith, load-store p v r s.heap, available q, waits));
}
  where
    g : IsGate k s.base s.gate_cache p
    g = All-contains _ s.gating p safe.guarded.gates there

    still : load s.cursor (store p v s.heap) ≡ cursor_of s
    still = ground (arith, load-store p v s.cursor s.heap, g.not_cursor)
