-- ===== src/Multi/Atomic/Fits.antt =====
-- sequencer_multi.go: what the phase of a producer says of the ring, and keeps saying of it.
use disruptor_go.Prelude.{
  ℕ, ◌+◌, ◌^◌, ◌≤◌, ◌<◌, ◌≡◌, ◌≢◌, refl, true, ◌==◌, arith, List, [], ◌∷◌, Option, none, some, ◌⊎◌,
  inl, inr, All, Bool-cases,
}
use disruptor_go.Int64.{minus_one}
use disruptor_go.Heap.{load, contains}
use disruptor_go.Publication.{unresolved}
use disruptor_go.Multi.{MultiProducerSequencer}
use disruptor_go.Multi.Safety.{cursor_of}
use disruptor_go.Multi.Atomic.{
  Phase, idle, looking, scanning, aiming, preparing, holding, resolving, least_of,
}

-- A claim is of at least one sequence and at most a ring, from a cursor that was read.
pub record Aims (k : ℕ) (s : MultiProducerSequencer) (current next : ℕ) : Type 0 where
  pub started : minus_one ≤ current
  pub seen : current ≤ cursor_of s
  pub up : current < next
  pub near : next ≤ current + 2 ^ k

-- A gate is still to be read, or is not behind the least that was read.
abbrev pub Passed : MultiProducerSequencer → Option ℕ → List ℕ → ℕ → Type 0
Passed s none rest p = contains rest p ≡ true
Passed s (some m) rest p = (contains rest p ≡ true) ⊎ (m ≤ load p s.heap)

pub record Scans (s : MultiProducerSequencer) (current : ℕ) (least : Option ℕ) (rest : List ℕ)
    : Type 0 where
  pub among : All (λ p. contains s.gating p ≡ true) rest
  pub above : minus_one ≤ least_of current least
  pub below : least_of current least ≤ cursor_of s
  pub passed : All (Passed s least rest) s.gating

abbrev pub Fits : ℕ → MultiProducerSequencer → Phase → Type 0
Fits k s idle = Unit
Fits k s (looking current next) = Aims k s current next
Fits k s (scanning current next least rest) = Aims k s current next × Scans s current least rest
Fits k s (aiming current next) =
    Aims k s current next × All (λ p. next ≤ load p s.heap + 2 ^ k) s.gating
Fits k s (preparing low at high) = (low ≤ at) × (at ≤ high)
Fits k s (holding low high) = low ≤ high
Fits k s (resolving at mid high x) = (at ≤ mid) × (mid ≤ high) × (x ≢ unresolved) × (x < 3)

-- The gates are the same, and neither they nor the cursor have gone back.
pub record Later (s s' : MultiProducerSequencer) : Type 0 where
  pub forward : cursor_of s ≤ cursor_of s'
  pub gating : s'.gating ≡ s.gating
  pub gates : (p : ℕ) → contains s.gating p ≡ true → load p s.heap ≤ load p s'.heap

pub own-Later : (s : MultiProducerSequencer) → Later s s
own-Later s = record { forward = omega arith; gating = refl; gates = λ p there. omega arith }

module _ {ℓ} (P : ℕ → Type ℓ) where
  -- What holds of all elements holds of each.
  pub All-contains : (l : List ℕ) (p : ℕ) → All P l → contains l p ≡ true → P p
  All-contains [] p h there = absurd (ground arith)
  All-contains (x ∷ xs) p h there = elim (Bool-cases (x == p)) [
    | inl here ↦ let same : x ≡ p = ground arith in rw same at h.0
    | inr on ↦ All-contains xs p h.1 (rw on at there)
  ]

  pub contains-All : (l : List ℕ) → ((p : ℕ) → contains l p ≡ true → P p) → All P l
  contains-All [] f = tt
  contains-All (x ∷ xs) f =
      (f x (ground arith), contains-All xs (λ p there. f p (ground (arith, there))))

module _ {s s' : MultiProducerSequencer} (later : Later s s') where
  -- A property of the gates that their progress keeps.
  pub All-Later :
      (P Q : ℕ → Type 0)
      → ((p : ℕ) → load p s.heap ≤ load p s'.heap → P p → Q p)
      → All P s.gating
      → All Q s'.gating
  All-Later P Q f h = rw later.gating (
      contains-All Q s.gating
        (λ p there. f p (later.gates p there) (All-contains P s.gating p h there)))

  Aims-Later : {k current next : ℕ} → Aims k s current next → Aims k s' current next
  Aims-Later a = record {
    started = a.started;
    seen = omega (arith, a.seen, later.forward);
    up = a.up;
    near = a.near;
  }

  Passed-Later :
      (least : Option ℕ) (rest : List ℕ) (p : ℕ)
      → load p s.heap ≤ load p s'.heap
      → Passed s least rest p
      → Passed s' least rest p
  Passed-Later none rest p up h = h
  Passed-Later (some m) rest p up (inl left) = inl left
  Passed-Later (some m) rest p up (inr read) = inr (omega arith)

  -- What a phase says is not taken away by the progress of others.
  pub Fits-Later : (k : ℕ) (ph : Phase) → Fits k s ph → Fits k s' ph
  Fits-Later k idle f = tt
  Fits-Later k (looking current next) f = Aims-Later f
  Fits-Later k (scanning current next least rest) f = (
    Aims-Later f.0,
    record {
      among = rw later.gating f.1.among;
      above = f.1.above;
      below = omega (arith, f.1.below, later.forward);
      passed = All-Later _ _ (Passed-Later least rest) f.1.passed;
    },
  )
  Fits-Later k (aiming current next) f =
      (Aims-Later f.0, All-Later _ _ (λ p up room. omega arith) f.1)
  Fits-Later k (preparing low at high) f = f
  Fits-Later k (holding low high) f = f
  Fits-Later k (resolving at mid high x) f = f
