-- ===== src/Multi/Atomic/Sound.antt =====
-- sequencer_multi.go: what holds of a ring and its producers between any two atomic operations.
use disruptor_go.Prelude.{
  ℕ, ◌+◌, ◌^◌, ◌≤◌, ◌<◌, ◌≡◌, ◌≢◌, sym, ap, ◌∙◌, refl, List, ◌∷◌, All-map₂, Bool, true, false, not,
  arith, [], inl, inr, ◌⊎◌, All, Bool-cases, ℕ_discrete, dec_lt,
}
use disruptor_go.Heap.{load}
use disruptor_go.Publication.{unresolved}
use disruptor_go.Multi.{MultiProducerSequencer, resolution}
use disruptor_go.Multi.Slots.{InRange, is_claimed}
use disruptor_go.Multi.Safety.{cursor_of, IsSafe, IsShort, IsClean}
use disruptor_go.Multi.Atomic.{Phase, System, owes, unprepared}
use disruptor_go.Multi.Atomic.Fits.{Fits, Fits-Later, Later}

-- No gate has reached a sequence.
abbrev pub Ahead : MultiProducerSequencer → ℕ → Type 0
Ahead s q = All (λ p. load p s.heap < q) s.gating

-- A sequence that a producer owes: claimed, past every gate, and waiting to be resolved.
pub record Owed (s : MultiProducerSequencer) (unready : Bool) (q : ℕ) : Type 0 where
  pub valid : InRange q
  pub behind : q ≤ cursor_of s
  pub ahead : Ahead s q
  pub claimed : is_claimed s q ≡ not unready
  pub waiting : resolution s q ≡ unresolved

-- A sequence whose slot no later claim has taken.
pub record InWindow (k : ℕ) (s : MultiProducerSequencer) (q : ℕ) : Type 0 where
  pub valid : InRange q
  pub behind : q ≤ cursor_of s
  pub near : cursor_of s < q + 2 ^ k

pub record IsSound (k : ℕ) (y : System) : Type 0 where
  pub safe : IsSafe k y.ring
  pub short : IsShort k y.ring
  pub clean : IsClean y.ring
  pub gated : y.ring.gating ≢ []
  pub fits : (i : ℕ) → Fits k y.ring (y.phases i)
  pub apart : (i j q : ℕ) → owes (y.phases i) q ≡ true → owes (y.phases j) q ≡ true → i ≡ j
  pub owed : (i q : ℕ) → owes (y.phases i) q ≡ true → Owed y.ring (unprepared (y.phases i) q) q
  pub settled :
      (q : ℕ)
      → InWindow k y.ring q
      → ((i : ℕ) → owes (y.phases i) q ≡ false)
      → resolution y.ring q ≢ unresolved

-- What a step of the producer `i`, from the phase `ph` to `ph'`, has to show.
pub record Change (k : ℕ) (i : ℕ) (ph ph' : Phase) (y y' : System) : Type 0 where
  pub was : y.phases i ≡ ph
  pub is : y'.phases i ≡ ph'
  pub others : (j : ℕ) → i ≢ j → y'.phases j ≡ y.phases j
  pub safe : IsSafe k y'.ring
  pub short : IsShort k y'.ring
  pub clean : IsClean y'.ring
  pub later : Later y.ring y'.ring
  pub fits : Fits k y'.ring ph'
  pub owed : (q : ℕ) → owes ph' q ≡ true → Owed y'.ring (unprepared ph' q) q
  pub new : (q : ℕ) → owes ph' q ≡ true → (owes ph q ≡ true) ⊎ (cursor_of y.ring < q)
  pub covers : (q : ℕ) → cursor_of y.ring < q → q ≤ cursor_of y'.ring → owes ph' q ≡ true
  pub frame :
      (q : ℕ)
      → InWindow k y.ring q
      → owes ph q ≡ false
      → (is_claimed y'.ring q ≡ is_claimed y.ring q) × (resolution y'.ring q ≡ resolution y.ring q)
  pub ahead :
      (j q : ℕ)
      → owes (y.phases j) q ≡ true
      → Owed y.ring (unprepared (y.phases j) q) q
      → Ahead y'.ring q
  pub resolved :
      (q : ℕ)
      → InRange q
      → owes ph q ≡ true
      → owes ph' q ≡ false
      → resolution y'.ring q ≢ unresolved

-- What does not depend on the gate holds if there is one.
All-constant : {P : Type 0} (l : List ℕ) → l ≢ [] → All (λ p. P) l → P
All-constant [] some_gate h = absurd (some_gate refl)
All-constant (p ∷ ps) some_gate h = h.0

-- An owed sequence is less than a lap behind the cursor.
pub Owed-InWindow :
    {k : ℕ} {s : MultiProducerSequencer} {unready : Bool} (q : ℕ)
    → IsSafe k s
    → s.gating ≢ []
    → Owed s unready q
    → InWindow k s q
Owed-InWindow {k} {s} q safe gated o = record {
  valid = o.valid;
  behind = o.behind;
  near =
      All-constant s.gating gated
        (All-map₂ s.gating (λ p g a. omega (arith, g.room)) safe.guarded.gates o.ahead);
}

module _ {k i : ℕ} {ph ph' : Phase} {y y' : System} (sound : IsSound k y)
    (c : Change k i ph ph' y y') where
  -- A phase of the new state is the step's own, or that of another producer.
  whose :
      (j : ℕ)
      → ((i ≡ j) × (y'.phases j ≡ ph') × (y.phases j ≡ ph)) ⊎ ((i ≢ j) × (y'.phases j ≡ y.phases j))
  whose j = elim (ℕ_discrete i j) [
    | yes e ↦ inl (e, rw e at c.is, rw e at c.was)
    | no n ↦ inr (n, c.others j n)
  ]

  change-Fits : (j : ℕ) → Fits k y'.ring (y'.phases j)
  change-Fits j = elim (whose j) [
    | inl mine ↦ rw (mine.1) c.fits
    | inr other ↦ rw (other.1) (Fits-Later c.later k (y.phases j) (sound.fits j))
  ]

  -- What another producer owes, the step's own does not.
  spared : (j q : ℕ) → i ≢ j → owes (y.phases j) q ≡ true → owes ph q ≡ false
  spared j q n o = elim (Bool-cases (owes ph q)) [
    | inl both ↦ absurd (n (sound.apart i j q (rw (c.was) both) o))
    | inr free ↦ free
  ]

  change-Owed :
      (j q : ℕ) → owes (y'.phases j) q ≡ true → Owed y'.ring (unprepared (y'.phases j) q) q
  change-Owed j q o = elim (whose j) [
    | inl mine ↦ rw (mine.1) (c.owed q (rw (mine.1) at o))
    | inr other ↦
        let o' : owes (y.phases j) q ≡ true = rw (other.1) at o in
        let old = sound.owed j q o' in
        let same = c.frame q (Owed-InWindow q sound.safe sound.gated old) (spared j q other.0 o') in
        rw (other.1) (record {
          valid = old.valid;
          behind = omega (arith, old.behind, c.later.forward);
          ahead = c.ahead j q o' old;
          claimed = same.0 ∙ old.claimed;
          waiting = same.1 ∙ old.waiting;
        })
  ]

  -- What the step's own producer owes now, no other did.
  alone : (j q : ℕ) → i ≢ j → owes ph' q ≡ true → owes (y.phases j) q ≢ true
  alone j q n mine other = elim (c.new q mine) [
    | inl still ↦ n (sound.apart i j q (rw (c.was) still) other)
    | inr fresh ↦ omega (arith, (sound.owed j q other).behind)
  ]

  change-apart : (a b q : ℕ) → owes (y'.phases a) q ≡ true → owes (y'.phases b) q ≡ true → a ≡ b
  change-apart a b q oa ob = elim (whose a) [
    | inl m ↦ elim (whose b) [
      | inl n ↦ sym m.0 ∙ n.0
      | inr n ↦ absurd (alone b q n.0 (rw (m.1) at oa) (rw (n.1) at ob))
    ]
    | inr m ↦ elim (whose b) [
      | inl n ↦ absurd (alone a q m.0 (rw (n.1) at ob) (rw (m.1) at oa))
      | inr n ↦ sound.apart a b q (rw (m.1) at oa) (rw (n.1) at ob)
    ]
  ]

  change-settled :
      (q : ℕ)
      → InWindow k y'.ring q
      → ((j : ℕ) → owes (y'.phases j) q ≡ false)
      → resolution y'.ring q ≢ unresolved
  change-settled q w free = elim (dec_lt (cursor_of y.ring) q) [
    | yes fresh ↦ absurd (cc (c.covers q fresh w.behind, ap (λ p. owes p q) c.is, free i))
    | no old ↦ elim (Bool-cases (owes ph q)) [
      | inl mine ↦ c.resolved q w.valid mine (ap (λ p. owes p q) (sym c.is) ∙ free i)
      | inr spare ↦
          let w' : InWindow k y.ring q = record {
            valid = w.valid;
            behind = omega arith;
            near = omega (arith, w.near, c.later.forward);
          } in
          λ e.
            sound.settled q w'
              (λ j. elim (whose j) [
                | inl m ↦ rw (m.2) spare
                | inr other ↦ ap (λ p. owes p q) (sym other.1) ∙ free j
              ])
              (sym ((c.frame q w' spare).1) ∙ e)
    ]
  ]

  pub Change-IsSound : IsSound k y'
  Change-IsSound = record {
    safe = c.safe;
    short = c.short;
    clean = c.clean;
    gated = rw (c.later.gating) sound.gated;
    fits = change-Fits;
    apart = change-apart;
    owed = change-Owed;
    settled = change-settled;
  }
