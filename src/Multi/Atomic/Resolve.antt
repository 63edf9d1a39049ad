-- ===== src/Multi/Atomic/Resolve.antt =====
-- sequencer_multi.go: the word that a publication or a discard exchanges.
use disruptor_go.Prelude.{
  ℕ, ◌+◌, ◌≤◌, ◌<◌, ◌≡◌, ◌≢◌, refl, sym, ap, subst, ◌∙◌, true, false, arith, ◌==◌, if◌then◌else◌,
  if_elim, ◌&&◌, not,
}
use disruptor_go.Publication.{unresolved}
use disruptor_go.Multi.{resolution, resolve_one}
use disruptor_go.Multi.Slots.{IsRing, InRange, is_claimed}
use disruptor_go.Multi.Words.{is_claimed-resolve_one, resolution-resolve_one, resolve_one-IsRing}
use disruptor_go.Multi.Safety.{cursor_of, IsClean}
use disruptor_go.Multi.Others.{base-resolve_one}
use disruptor_go.Multi.Atomic.{
  System, owes, unprepared, goes, idle, holding, resolving, resolved_upto, between,
}
use disruptor_go.Multi.Atomic.Fits.{Fits}
use disruptor_go.Multi.Atomic.Sound.{IsSound, Owed, InWindow}
use disruptor_go.Multi.Atomic.Written.{Writes-IsSound, owes-InWindow}

module _ (at mid high x q : ℕ) (order : at ≤ mid) (order' : mid ≤ high) where
  owes-resolved_upto : owes (resolved_upto at mid high x) q ≡ between (at + 1) high q
  owes-resolved_upto =
      if_elim (λ ph. owes ph q ≡ between (at + 1) high q) (at == mid) _ _
        (λ last.
          if_elim (λ ph. owes ph q ≡ between (at + 1) high q) (mid == high) _ _
            (λ all. ground arith) (λ part. ground arith))
        (λ on. refl)

  unprepared-resolved_upto : unprepared (resolved_upto at mid high x) q ≡ false
  unprepared-resolved_upto =
      if_elim (λ ph. unprepared ph q ≡ false) (at == mid) _ _
        (λ last.
          if_elim (λ ph. unprepared ph q ≡ false) (mid == high) _ _ (λ all. refl) (λ part. refl))
        (λ on. refl)

-- One sequence of a range is resolved.
pub resolve-IsSound :
    {k : ℕ} (y : System) (i at mid high x : ℕ)
    → IsSound k y
    → y.phases i ≡ resolving at mid high x
    → IsSound k (goes i (resolved_upto at mid high x) (resolve_one x at y.ring) y)
resolve-IsSound {k} y i at mid high x sound was = Writes-IsSound sound (record {
  was = was;
  ring = resolve_one-IsRing x at ring;
  base = (base-resolve_one x at y.ring).0;
  cache = (base-resolve_one x at y.ring).1;
  clean = clean;
  fits = fits;
  less = λ q o. ground (arith, o, owes-resolved_upto at mid high x q fit.0 fit.1);
  owed = owed;
  frame = frame;
  resolved = resolved;
})
  where
    ring : IsRing k y.ring
    ring = sound.safe.ring

    fit : Fits k y.ring (resolving at mid high x)
    fit = subst (Fits k y.ring) was (sound.fits i)

    is_owed : owes (resolving at mid high x) at ≡ true
    is_owed = ground (arith, fit)

    here : InWindow k y.ring at
    here = owes-InWindow i at (resolving at mid high x) sound was is_owed

    own : Owed y.ring false at
    own =
        subst (λ p. Owed y.ring (unprepared p at) at) was
          (sound.owed i at (ap (λ p. owes p at) was ∙ is_owed))

    claimed-after :
        (q : ℕ)
        → InRange q
        → is_claimed (resolve_one x at y.ring) q ≡ (if at == q then false else is_claimed y.ring q)
    claimed-after q r = is_claimed-resolve_one ring x at q fit.2 fit.3 here.valid r

    resolution-after :
        (q : ℕ)
        → InRange q
        → resolution (resolve_one x at y.ring) q
          ≡ (if (at == q) && is_claimed y.ring at then x else resolution y.ring q)
    resolution-after q r = resolution-resolve_one ring x at q fit.2 fit.3 here.valid r

    clean : IsClean y.ring → IsClean (resolve_one x at y.ring)
    clean c q r above =
        let above' : cursor_of y.ring < q = rw ((base-resolve_one x at y.ring).0) at above in
        let apart : at ≢ q = λ e. omega (arith, here.behind) in
        ground (arith, c q r above', claimed-after q r, resolution-after q r)

    fits : Fits k (resolve_one x at y.ring) (resolved_upto at mid high x)
    fits =
        if_elim (Fits k (resolve_one x at y.ring)) (at == mid) _ (resolving (at + 1) mid high x)
          (λ last.
            if_elim (Fits k (resolve_one x at y.ring)) (mid == high) idle (holding (mid + 1) high)
              (λ all. tt) (λ part. ground (arith, fit)))
          (λ on. (ground (arith, fit), fit.1, fit.2, fit.3))

    frame :
        (q : ℕ)
        → InWindow k y.ring q
        → between at high q ≡ false
        → (is_claimed (resolve_one x at y.ring) q ≡ is_claimed y.ring q)
          × (resolution (resolve_one x at y.ring) q ≡ resolution y.ring q)
    frame q w free =
        let apart : at ≢ q = λ e. ground (arith, fit) in
        ground (arith, claimed-after q w.valid, resolution-after q w.valid)

    owed :
        (q : ℕ)
        → InWindow k y.ring q
        → owes (resolved_upto at mid high x) q ≡ true
        → is_claimed y.ring q ≡ true
        → resolution y.ring q ≡ unresolved
        → (is_claimed (resolve_one x at y.ring) q
            ≡ not (unprepared (resolved_upto at mid high x) q))
          × (resolution (resolve_one x at y.ring) q ≡ unresolved)
    owed q w o claimed waiting =
        let later : between (at + 1) high q ≡ true =
          sym (owes-resolved_upto at mid high x q fit.0 fit.1) ∙ o in
        let apart : at ≢ q = λ e. ground arith in
        rw (unprepared-resolved_upto at mid high x q fit.0 fit.1)
          (ground (arith, claimed-after q w.valid), ground (arith, resolution-after q w.valid))

    resolved :
        (q : ℕ)
        → InRange q
        → between at high q ≡ true
        → owes (resolved_upto at mid high x) q ≡ false
        → resolution (resolve_one x at y.ring) q ≢ unresolved
    resolved q r o free e =
        let done : between (at + 1) high q ≡ false =
          sym (owes-resolved_upto at mid high x q fit.0 fit.1) ∙ free in
        let same : at ≡ q = ground arith in ground (arith, fit.2, own.claimed, resolution-after q r)
