-- ===== src/Sequencer/Gates.antt =====
-- sequencer.go: a gate that is added and removed again.
use disruptor_go.Prelude.{
  ℕ, ◌≡◌, refl, ◌∙◌, ap, arith, Bool, true, false, if◌then◌else◌, List, [], ◌∷◌, ◌++◌, some, ◌==◌,
  ==_refl, if_elim,
}
use disruptor_go.Heap.{
  Heap, load, store, contains, remove_first, needs_signals, signal_waiter, add_signal,
  remove_signal,
}
use disruptor_go.Heap.Laws.{
  load-store, load-remove_signal, load-add_signal, load-signal_waiter, sequences-store,
  sequences-signal_waiter,
}
use disruptor_go.Sequencer.{SequencerBase, register, add_gating_sequences, remove_gating_sequence}

-- A function of a conditional.
if_inside {ℓ κ} :
    {A : Type ℓ} {B : Type κ} (f : A → B) (b : Bool) (x y : A)
    → (if b then f x else f y) ≡ f (if b then x else y)
if_inside f true x y = refl
if_inside f false x y = refl

-- Looking for a new last element.
contains-append : (xs : List ℕ) (x : ℕ) → contains (xs ++ x ∷ []) x ≡ true
contains-append [] x = ground arith
contains-append (y ∷ ys) x = ground (arith, contains-append ys x)

remove_first-append :
    (xs : List ℕ) (x : ℕ) → contains xs x ≡ false → remove_first (xs ++ x ∷ []) x ≡ xs
remove_first-append [] x e = ground arith
remove_first-append (y ∷ ys) x e =
    if_elim (λ l. l ≡ y ∷ ys) (y == x) (ys ++ x ∷ []) (y ∷ remove_first (ys ++ x ∷ []) x)
      (λ same. absurd (ground (arith, same, e)))
      (λ other. ap (λ l. y ∷ l) (remove_first-append ys x (ground (arith, other, e))))

-- The signals of each sequence are the same in both stores.
abbrev pub SameSignals : Heap → Heap → Type 0
SameSignals h h' = (q : ℕ) → (h'.sequences q).signals ≡ (h.sequences q).signals

signals-add_signal :
    (p w : ℕ) (h : Heap) (q : ℕ)
    → contains (h.sequences p).signals w ≡ false
    → ((add_signal p w h).sequences q).signals
      ≡ (if p == q then (h.sequences p).signals ++ w ∷ [] else (h.sequences q).signals)
unfolding add_signal
signals-add_signal p w h q new = rw (new, add_signal) (ground arith)

signals-remove_signal :
    (p w : ℕ) (h : Heap) (q : ℕ)
    → contains (h.sequences p).signals w ≡ true
    → ((remove_signal p w h).sequences q).signals
      ≡ (if p == q then remove_first (h.sequences p).signals w else (h.sequences q).signals)
unfolding remove_signal
signals-remove_signal p w h q old = rw (old, remove_signal) (ground arith)

remove_signal-add_signal :
    (p w : ℕ) (h : Heap) (q : ℕ)
    → contains (h.sequences p).signals w ≡ false
    → ((remove_signal p w (add_signal p w h)).sequences q).signals ≡ (h.sequences q).signals
remove_signal-add_signal p w h q new =
    let h' = add_signal p w h in
    let mine : (h'.sequences p).signals ≡ (h.sequences p).signals ++ w ∷ [] =
      signals-add_signal p w h p new ∙ rw (==_refl p) refl in
    let listed : contains (h'.sequences p).signals w ≡ true =
      ap (λ l. contains l w) mine ∙ contains-append (h.sequences p).signals w in
    let back : remove_first (h'.sequences p).signals w ≡ (h.sequences p).signals =
      ap (λ l. remove_first l w) mine ∙ remove_first-append (h.sequences p).signals w new in
    signals-remove_signal p w h' q listed
    ∙ if_elim (λ l. l ≡ (h.sequences q).signals) (p == q) (remove_first (h'.sequences p).signals w)
        (h'.sequences q).signals
        (λ same. let e : p ≡ q = ground (arith, same) in back ∙ ap (λ x. (h.sequences x).signals) e)
        (λ other. signals-add_signal p w h q new ∙ rw other refl)

needs_signals-add_signal :
    (p w x : ℕ) (h : Heap) → needs_signals x (add_signal p w h) ≡ needs_signals x h
unfolding add_signal
needs_signals-add_signal p w x h = ground arith

signals-store :
    (p v q : ℕ) (h : Heap) → ((store p v h).sequences q).signals ≡ (h.sequences q).signals
signals-store p v q h =
    ap (λ f. (f q).signals) (sequences-store p v h)
    ∙ if_elim (λ x. x.signals ≡ (h.sequences q).signals) (p == q) _ (h.sequences q)
        (λ same. let e : p ≡ q = ground (arith, same) in ap (λ x. (h.sequences x).signals) e)
        (λ other. refl)

-- The gates and the signals of one base are those of another; the sequence of `p` is at the cursor,
-- and all others are where they were.
pub record IsRestored (p : ℕ) (b b' : SequencerBase) : Type 0 where
  pub gates : b'.gating ≡ b.gating
  pub signals : (q : ℕ) → (b'.heap.sequences q).signals ≡ (b.heap.sequences q).signals
  pub values : (q : ℕ) → load q b'.heap ≡ (if p == q then load b.cursor b.heap else load q b.heap)

module _ (p : ℕ) (b : SequencerBase) where
  abbrev stored : Heap
  stored = store p (load b.cursor b.heap) b.heap

  abbrev with_gate : Heap → SequencerBase
  with_gate h = record b { gating = b.gating ++ p ∷ []; heap = h }

  -- A removal gives back the gates, and a heap that it is left with.
  removed :
      (h : Heap)
      → contains b.gating p ≡ false
      → remove_gating_sequence p (with_gate h) ≡ (
        true,
        record b {
          gating = b.gating;
          heap =
              if needs_signals b.producer_wait h
              then signal_waiter b.producer_wait (remove_signal p b.producer_wait h)
              else h;
        },
      )
  unfolding remove_gating_sequence
  removed h new =
      rw
        (
          contains-append b.gating p,
          remove_first-append b.gating p new,
          new,
          remove_gating_sequence,
        )
        (if_inside (λ h'. (true, record b { gating = b.gating; heap = h' }))
          (needs_signals b.producer_wait h) _ h)

  added :
      b.is_closed ≡ false
      → add_gating_sequences (some p ∷ []) b
        ≡ with_gate (
            if needs_signals b.producer_wait stored
            then add_signal p b.producer_wait stored
            else stored)
  unfolding add_gating_sequences register
  added o = rw (o, add_gating_sequences) refl

  -- The heap after a removal.
  IsBack : Heap → Type 0
  IsBack h = IsRestored p b (record b {
    gating = b.gating;
    heap =
        if needs_signals b.producer_wait h
        then signal_waiter b.producer_wait (remove_signal p b.producer_wait h)
        else h;
  })

  with_signals :
      contains (b.heap.sequences p).signals b.producer_wait ≡ false
      → needs_signals b.producer_wait stored ≡ true
      → IsBack (add_signal p b.producer_wait stored)
  unfolding IsBack
  with_signals new blocks =
      let w = b.producer_wait in
      let h = add_signal p w stored in
      let blocks' : needs_signals w h ≡ true = needs_signals-add_signal p w w stored ∙ blocks in
      let new' : contains (stored.sequences p).signals w ≡ false =
        ap (λ l. contains l w) (signals-store p (load b.cursor b.heap) p b.heap) ∙ new in
      rw (blocks', IsBack)
        (record {
          gates = refl;
          signals = λ q.
              ap (λ f. (f q).signals) (sequences-signal_waiter w (remove_signal p w h))
              ∙ remove_signal-add_signal p w stored q new'
              ∙ signals-store p (load b.cursor b.heap) q b.heap;
          values = λ q.
              load-signal_waiter w q (remove_signal p w h)
              ∙ load-remove_signal p w q h
              ∙ load-add_signal p w q stored
              ∙ load-store p (load b.cursor b.heap) q b.heap;
        })

  without_signals : needs_signals b.producer_wait stored ≡ false → IsBack stored
  unfolding IsBack
  without_signals quiet =
      rw (quiet, IsBack)
        (record {
          gates = refl;
          signals = λ q. signals-store p (load b.cursor b.heap) q b.heap;
          values = λ q. load-store p (load b.cursor b.heap) q b.heap;
        })

  -- On an open ring, a gate that was not one of the gates and had not the producers' signals, and that
  -- is added and then removed, is found, and leaves the gates and the signals of every sequence as they
  -- were, with the gate's sequence at the cursor and all others where they were.
  pub remove_gating_sequence-add_gating_sequences :
      b.is_closed ≡ false
      → contains b.gating p ≡ false
      → contains (b.heap.sequences p).signals b.producer_wait ≡ false
      → ((remove_gating_sequence p (add_gating_sequences (some p ∷ []) b)).0 ≡ true)
        × IsRestored p b (remove_gating_sequence p (add_gating_sequences (some p ∷ []) b)).1
  unfolding IsBack
  remove_gating_sequence-add_gating_sequences o new unsignalled =
      let h =
        if needs_signals b.producer_wait stored
        then add_signal p b.producer_wait stored
        else stored in
      let back : IsBack h =
        if_elim IsBack (needs_signals b.producer_wait stored) (add_signal p b.producer_wait stored)
          stored (with_signals unsignalled) without_signals in
      rw (added o, removed h new) (refl, back)
