-- ===== src/Multi/Atomic/Aim.antt =====
-- sequencer_multi.go: how a producer finds the room for its claim.
use disruptor_go.Prelude.{
  ℕ, ◌+◌, ◌^◌, ◌≤◌, ◌≡◌, ◌≢◌, false, inl, inr, All, All-map, arith, ltb, ◌==◌, List, [], ◌∷◌,
  Option, none, some, Bool-cases,
}
use disruptor_go.Int64.{of_nat, add, minus_one}
use disruptor_go.Heap.{load}
use disruptor_go.Multi.{MultiProducerSequencer}
use disruptor_go.Multi.Safety.{cursor_of, IsGate, IsSafe, IsShort}
use disruptor_go.Multi.Atomic.{least_of, lower, wrap_point}
use disruptor_go.Multi.Atomic.Fits.{Aims, Scans, Passed, All-contains, contains-All}

lower-between :
    (current : ℕ) (least : Option ℕ) (v lo hi : ℕ)
    → lo ≤ least_of current least
    → least_of current least ≤ hi
    → lo ≤ v
    → v ≤ hi
    → (lo ≤ lower least v) × (lower least v ≤ hi)
lower-between current none v lo hi a b c d = (c, d)
lower-between current (some m) v lo hi a b c d = (ground arith, ground arith)

module _ {k : ℕ} {s : MultiProducerSequencer} (safe : IsSafe k s) (short : IsShort k s) where
  pub look-Aims :
      (count : ℕ)
      → s.gating ≢ []
      → of_nat 1 ≤ count
      → count ≤ s.buffer_size
      → Aims k s (cursor_of s) (add (cursor_of s) count)
  look-Aims count gated some_at_least at_most =
      let low : minus_one ≤ cursor_of s =
        omega (arith, safe.guarded.started, safe.guarded.cache_behind) in
      let size = safe.ring.size in
      let small = safe.ring.small in
      record { started = low; seen = omega arith; up = omega arith; near = omega arith }

  -- The room that a bound of the gates leaves.
  pub room_lem :
      {current next : ℕ} (m : ℕ)
      → Aims k s current next
      → ltb m (wrap_point next s) ≡ false
      → next ≤ m + 2 ^ k
  room_lem {current} {next} m a fits =
      let size = safe.ring.size in
      let small = safe.ring.small in
      let fits' : wrap_point next s ≤ m = ground arith in
      omega (arith, a.started, a.seen, a.up, a.near)

  pub room-All :
      {current next : ℕ} (m : ℕ)
      → Aims k s current next
      → ltb m (wrap_point next s) ≡ false
      → All (λ p. m ≤ load p s.heap) s.gating
      → All (λ p. next ≤ load p s.heap + 2 ^ k) s.gating
  room-All m a fits = All-map s.gating (λ p up. omega (arith, room_lem m a fits))

  -- What the cache promises.
  pub cache-All : All (λ p. load s.gate_cache s.heap ≤ load p s.heap) s.gating
  cache-All = All-map s.gating (λ p g. g.cached) safe.guarded.gates

  pub start-Scans : {current next : ℕ} → Aims k s current next → Scans s current none s.gating
  start-Scans a = record {
    among = contains-All _ s.gating (λ p there. there);
    above = a.started;
    below = a.seen;
    passed = contains-All _ s.gating (λ p there. there);
  }

  Passed-read :
      (least : Option ℕ) (p : ℕ) (ps : List ℕ) (r : ℕ)
      → Passed s least (p ∷ ps) r
      → Passed s (some (lower least (load p s.heap))) ps r
  Passed-read none p ps r h = elim (Bool-cases (p == r)) [
    | inl here ↦ inr (ground arith)
    | inr on ↦ inl (rw on at h)
  ]
  Passed-read (some m) p ps r (inr read) = inr (ground arith)
  Passed-read (some m) p ps r (inl left) = elim (Bool-cases (p == r)) [
    | inl here ↦ inr (ground arith)
    | inr on ↦ inl (rw on at left)
  ]

  pub read-Scans :
      (current : ℕ) (least : Option ℕ) (p : ℕ) (ps : List ℕ)
      → Scans s current least (p ∷ ps)
      → Scans s current (some (lower least (load p s.heap))) ps
  read-Scans current least p ps c = record {
    among = c.among.1;
    above = (lower-between current least (load p s.heap) _ _ c.above c.below near.0 near.1).0;
    below = (lower-between current least (load p s.heap) _ _ c.above c.below near.0 near.1).1;
    passed = All-map s.gating (Passed-read least p ps) c.passed;
  }
    where
      g : IsGate k s.base s.gate_cache p
      g = All-contains _ s.gating p safe.guarded.gates c.among.0

      near : (minus_one ≤ load p s.heap) × (load p s.heap ≤ cursor_of s)
      near = (omega (arith, safe.guarded.started, g.cached), g.behind)

  Passed-end :
      (current : ℕ) (least : Option ℕ) (r : ℕ)
      → Passed s least [] r
      → least_of current least ≤ load r s.heap
  Passed-end current none r h = absurd (cc h)
  Passed-end current (some m) r (inl left) = absurd (cc left)
  Passed-end current (some m) r (inr read) = read

  -- Once all gates are read, the least is a bound of them.
  pub end-Scans :
      (current : ℕ) (least : Option ℕ)
      → Scans s current least []
      → All (λ p. least_of current least ≤ load p s.heap) s.gating
  end-Scans current least c = All-map s.gating (Passed-end current least) c.passed
