-- ===== src/Multi/Atomic/Written.antt =====
-- sequencer_multi.go: the word that a claim prepares, and the one that a publication exchanges.
use disruptor_go.Prelude.{
  ℕ, ◌+◌, ◌≤◌, ◌≡◌, ◌≢◌, refl, sym, ap, subst, ◌∙◌, true, false, inl, arith, ◌==◌, if_elim, not,
}
use disruptor_go.Heap.{load}
use disruptor_go.Publication.{unresolved}
use disruptor_go.Multi.{MultiProducerSequencer, index, resolution, prepare_one}
use disruptor_go.Multi.Slots.{IsRing, InRange, is_claimed, eq_of_index}
use disruptor_go.Multi.Words.{is_claimed-prepare_one, resolution-prepare_one, prepare_one-IsRing}
use disruptor_go.Multi.Safety.{IsClean}
use disruptor_go.Multi.Atomic.{
  Phase, System, owes, unprepared, goes, preparing, holding, prepared_upto, between,
}
use disruptor_go.Multi.Atomic.Fits.{Fits, Later}
use disruptor_go.Multi.Atomic.Sound.{IsSound, Change-IsSound, Owed, Owed-InWindow, InWindow}
use disruptor_go.Multi.Atomic.Turns.{update_self, update_other}

-- Only words are written, and what is owed is owed still, but for the sequence that was resolved.
pub record Writes (k : ℕ) (i : ℕ) (ph ph' : Phase) (y : System) (s' : MultiProducerSequencer)
    : Type 0 where
  pub was : y.phases i ≡ ph
  pub ring : IsRing k s'
  pub base : s'.base ≡ y.ring.base
  pub cache : s'.gate_cache ≡ y.ring.gate_cache
  pub clean : IsClean y.ring → IsClean s'
  pub fits : Fits k s' ph'
  pub less : (q : ℕ) → owes ph' q ≡ true → owes ph q ≡ true
  pub owed :
      (q : ℕ)
      → InWindow k y.ring q
      → owes ph' q ≡ true
      → is_claimed y.ring q ≡ not (unprepared ph q)
      → resolution y.ring q ≡ unresolved
      → (is_claimed s' q ≡ not (unprepared ph' q)) × (resolution s' q ≡ unresolved)
  pub frame :
      (q : ℕ)
      → InWindow k y.ring q
      → owes ph q ≡ false
      → (is_claimed s' q ≡ is_claimed y.ring q) × (resolution s' q ≡ resolution y.ring q)
  pub resolved :
      (q : ℕ) → InRange q → owes ph q ≡ true → owes ph' q ≡ false → resolution s' q ≢ unresolved

pub Writes-IsSound :
    {k i : ℕ} {ph ph' : Phase} {y : System} {s' : MultiProducerSequencer}
    → IsSound k y
    → Writes k i ph ph' y s'
    → IsSound k (goes i ph' s' y)
Writes-IsSound {k} {i} {ph} {ph'} {y} {s'} sound w = Change-IsSound sound (record {
  was = w.was;
  is = update_self y.phases i _;
  others = update_other y.phases i _;
  safe = record { ring = w.ring; guarded = rw (w.base, w.cache) sound.safe.guarded };
  short = rw (w.base) sound.short;
  clean = w.clean sound.clean;
  later = later;
  fits = w.fits;
  owed = owed;
  new = λ q o. inl (w.less q o);
  covers = λ q above below. absurd (omega (arith, ap (λ b. load b.cursor b.heap) w.base));
  frame = w.frame;
  ahead = λ j q o old. rw (w.base) old.ahead;
  resolved = w.resolved;
})
  where
    later : Later y.ring s'
    later = record {
      forward = rw (w.base) (omega arith);
      gating = ap (λ b. b.gating) w.base;
      gates = λ p there. rw (w.base) (omega arith);
    }

    owed : (q : ℕ) → owes ph' q ≡ true → Owed s' (unprepared ph' q) q
    owed q o =
        let old : Owed y.ring (unprepared ph q) q =
          subst (λ p. Owed y.ring (unprepared p q) q) w.was
            (sound.owed i q (ap (λ p. owes p q) w.was ∙ w.less q o)) in
        let now = w.owed q (Owed-InWindow q sound.safe sound.gated old) o old.claimed old.waiting in
        record {
          valid = old.valid;
          behind = rw (w.base) old.behind;
          ahead = rw (w.base) old.ahead;
          claimed = now.0;
          waiting = now.1;
        }

-- A sequence that a producer owes is in the window.
pub owes-InWindow :
    {k : ℕ} {y : System} (i q : ℕ) (ph : Phase)
    → IsSound k y
    → y.phases i ≡ ph
    → owes ph q ≡ true
    → InWindow k y.ring q
owes-InWindow i q ph sound was o =
    Owed-InWindow q sound.safe sound.gated (sound.owed i q (ap (λ p. owes p q) was ∙ o))

module _ (low at high q : ℕ) (order : at ≤ high) where
  owes-prepared_upto : owes (prepared_upto low at high) q ≡ between low high q
  owes-prepared_upto =
      if_elim (λ ph. owes ph q ≡ between low high q) (at == high) _ _ (λ last. refl) (λ on. refl)

  unprepared-prepared_upto : unprepared (prepared_upto low at high) q ≡ between (at + 1) high q
  unprepared-prepared_upto =
      if_elim (λ ph. unprepared ph q ≡ between (at + 1) high q) (at == high) _ _
        (λ last. ground arith) (λ on. refl)

-- One word of a claim is prepared.
pub prepare-IsSound :
    {k : ℕ} (y : System) (i low at high : ℕ)
    → IsSound k y
    → y.phases i ≡ preparing low at high
    → IsSound k (goes i (prepared_upto low at high) (prepare_one at y.ring) y)
unfolding prepare_one
prepare-IsSound {k} y i low at high sound was = Writes-IsSound sound (record {
  was = was;
  ring = prepare_one-IsRing at ring;
  base = refl;
  cache = refl;
  clean = clean;
  fits = fits;
  less = λ q o. sym (owes-prepared_upto low at high q fit.1) ∙ o;
  owed = owed;
  frame = frame;
  resolved = λ q r o free. absurd (cc (o, free, owes-prepared_upto low at high q fit.1));
})
  where
    ring : IsRing k y.ring
    ring = sound.safe.ring

    fit : Fits k y.ring (preparing low at high)
    fit = subst (Fits k y.ring) was (sound.fits i)

    here : InWindow k y.ring at
    here = owes-InWindow i at (preparing low at high) sound was (ground (arith, fit))

    clean : IsClean y.ring → IsClean (prepare_one at y.ring)
    clean c q r above =
        let apart : at ≢ q = λ e. omega (arith, here.behind) in
        ground (
          arith,
          c q r above,
          is_claimed-prepare_one ring at q here.valid r,
          resolution-prepare_one ring at q here.valid r,
        )

    fits : Fits k (prepare_one at y.ring) (prepared_upto low at high)
    fits =
        if_elim (Fits k (prepare_one at y.ring)) (at == high) (holding low high)
          (preparing low (at + 1) high) (λ last. omega (arith, fit))
          (λ on. (omega (arith, fit), ground (arith, fit)))

    near : (q : ℕ) → InWindow k y.ring q → index y.ring at ≡ index y.ring q → at ≡ q
    near q w =
        eq_of_index ring at q here.valid w.valid (omega (arith, w.behind, here.near))
          (omega (arith, w.near, here.behind))

    frame :
        (q : ℕ)
        → InWindow k y.ring q
        → between low high q ≡ false
        → (is_claimed (prepare_one at y.ring) q ≡ is_claimed y.ring q)
          × (resolution (prepare_one at y.ring) q ≡ resolution y.ring q)
    frame q w free =
        let apart : at ≢ q = λ e. ground (arith, fit) in
        ground (
          arith,
          near q w,
          is_claimed-prepare_one ring at q here.valid w.valid,
          resolution-prepare_one ring at q here.valid w.valid,
        )

    owed :
        (q : ℕ)
        → InWindow k y.ring q
        → owes (prepared_upto low at high) q ≡ true
        → is_claimed y.ring q ≡ not (between at high q)
        → resolution y.ring q ≡ unresolved
        → (is_claimed (prepare_one at y.ring) q ≡ not (unprepared (prepared_upto low at high) q))
          × (resolution (prepare_one at y.ring) q ≡ unresolved)
    owed q w o claimed waiting = rw (unprepared-prepared_upto low at high q fit.1) (
      ground (arith, near q w, fit, is_claimed-prepare_one ring at q here.valid w.valid),
      ground (arith, resolution-prepare_one ring at q here.valid w.valid),
    )
