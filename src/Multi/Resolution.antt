-- ===== src/Multi/Resolution.antt =====
-- sequencer_multi.go: `Publish`, `Discard` and `HighestPublished`.
use disruptor_go.Prelude.{
  ℕ, zero, suc, ◌+◌, ◌-◌, ◌^◌, ◌≤◌, ◌<◌, ◌≡◌, refl, inl, inr, Bool, true, false, ◌&&◌, arith, leb,
  ◌==◌, if◌then◌else◌, Bool-cases, dec_lt,
}
use disruptor_go.Int64.{of_nat, add, sub, add_one_lem, sub_lem}
use disruptor_go.Publication.{unresolved, published, discarded}
use disruptor_go.Multi.{
  MultiProducerSequencer, index, flag, resolution, publish, discard, is_available, published_loop,
  highest_published,
}
use disruptor_go.Multi.Slots.{InRange, IsRing, is_claimed}
use disruptor_go.Multi.Ranges.{resolve-IsRing, resolve_lem}

pub publish-IsRing :
    {k : ℕ} (low high : ℕ) {s : MultiProducerSequencer} → IsRing k s → IsRing k (publish low high s)
unfolding publish
publish-IsRing low high ring = ground (arith, resolve-IsRing low high published ring)

pub discard-IsRing :
    {k : ℕ} (low high : ℕ) {s : MultiProducerSequencer} → IsRing k s → IsRing k (discard low high s)
unfolding discard
discard-IsRing low high ring = ground (arith, resolve-IsRing low high discarded ring)

abbrev pub within : ℕ → ℕ → ℕ → Bool
within low high r = leb low r && leb r high

module _ {k : ℕ} {s : MultiProducerSequencer} (ring : IsRing k s) (low high r : ℕ)
    (hl : InRange low) (hh : InRange high) (hr : InRange r) where
  pub publish-status :
      (is_claimed (publish low high s) r ≡ (if within low high r then false else is_claimed s r))
      × (resolution (publish low high s) r
          ≡ (if within low high r && is_claimed s r then published else resolution s r))
  unfolding publish is_claimed resolution index flag
  publish-status = resolve_lem low high published r ring (λ e. cc) (omega arith) hl hh hr

  pub discard-status :
      (is_claimed (discard low high s) r ≡ (if within low high r then false else is_claimed s r))
      × (resolution (discard low high s) r
          ≡ (if within low high r && is_claimed s r then discarded else resolution s r))
  unfolding discard is_claimed resolution index flag
  discard-status = resolve_lem low high discarded r ring (λ e. cc) (omega arith) hl hh hr

-- After a `Publish` and then a `Discard`, each of any range of the first 2^62 sequences, on a ring
-- whose fields fit each other: a sequence that was claimed and not resolved has the resolution that
-- came first, and any other sequence the one that it had.
pub resolution-discard-publish :
    {k : ℕ} {s : MultiProducerSequencer}
    → IsRing k s
    → (low high low' high' r : ℕ) → InRange low
    → InRange high
    → InRange low'
    → InRange high'
    → InRange r
    → resolution (discard low' high' (publish low high s)) r ≡ (
        if within low high r && is_claimed s r
        then published
        else if within low' high' r && is_claimed s r
        then discarded
        else resolution s r)
resolution-discard-publish ring low high low' high' r hl hh hl' hh' hr = ground (
  arith,
  publish-status ring low high r hl hh hr,
  discard-status (publish-IsRing low high ring) low' high' r hl' hh' hr,
)

-- The same for a `Discard` and then a `Publish`: a discarded sequence is not published later.
pub resolution-publish-discard :
    {k : ℕ} {s : MultiProducerSequencer}
    → IsRing k s
    → (low high low' high' r : ℕ) → InRange low
    → InRange high
    → InRange low'
    → InRange high'
    → InRange r
    → resolution (publish low' high' (discard low high s)) r ≡ (
        if within low high r && is_claimed s r
        then discarded
        else if within low' high' r && is_claimed s r
        then published
        else resolution s r)
resolution-publish-discard ring low high low' high' r hl hh hl' hh' hr = ground (
  arith,
  discard-status ring low high r hl hh hr,
  publish-status (discard-IsRing low high ring) low' high' r hl' hh' hr,
)

-- What a scan from `lower` on returns.
pub record Scanned (s : MultiProducerSequencer) (lower available h : ℕ) : Type 0 where
  pub from : lower ≤ h + 1
  pub upto : h ≤ available
  pub resolved : (q : ℕ) → lower ≤ q → q ≤ h → is_available s q ≡ true
  pub gap : h < available → is_available s (h + 1) ≡ false

Scanned-cons :
    (s : MultiProducerSequencer) (q available h : ℕ)
    → 0 < q
    → q ≤ available
    → Scanned s (q + 1) available h
    → Scanned s q available (if resolution s q == unresolved then q - 1 else h)
unfolding is_available
Scanned-cons s q available h pos le rest = elim (Bool-cases (resolution s q == unresolved)) [
  | inl hole ↦ rw hole (record {
    from = omega arith;
    upto = omega arith;
    resolved = λ p a b. absurd (omega arith);
    gap = λ a. let here : q - 1 + 1 ≡ q = omega arith in rw (here, hole) refl;
  })
  | inr full ↦ rw full (record {
    from = omega (arith, rest.from);
    upto = rest.upto;
    resolved = λ p a b. elim (dec_lt q p) [
      | yes later ↦ rest.resolved p (omega arith) b
      | no now ↦ let here : p ≡ q = omega arith in rw (here, full) refl
    ];
    gap = rest.gap;
  })
]

scan :
    (n : ℕ) (s : MultiProducerSequencer) (q available : ℕ)
    → of_nat 0 ≤ q
    → available < of_nat (2 ^ 62)
    → q + n ≡ available + 1
    → Scanned s q available (published_loop n s q available)
unfolding published_loop
scan zero s q available h0 h1 e = record {
  from = omega arith;
  upto = omega arith;
  resolved = λ p a b. absurd (omega arith);
  gap = λ a. absurd (omega arith);
}
scan (suc n) s q available h0 h1 e =
    let step : add q (of_nat 1) ≡ q + 1 = add_one_lem q (omega arith) in
    let back : sub q (of_nat 1) ≡ q - 1 = sub_lem q 1 (omega arith) (omega arith) (omega arith) in
    rw (step, back)
      (Scanned-cons s q available (published_loop n s (q + 1) available) (omega arith) (omega arith)
        (scan n s (q + 1) available (omega arith) h1 (omega arith)))

-- Among the first 2^62 sequences, and with a range that is not empty, `HighestPublished` returns the
-- last sequence before the first gap from `lower` on, or all that is available: every sequence from
-- `lower` up to it is published or discarded, and the next one, if still in the range, is not.
pub highest_published-Scanned :
    (s : MultiProducerSequencer) (lower available : ℕ)
    → InRange lower
    → InRange available
    → lower ≤ available
    → Scanned s lower available (highest_published s lower available)
unfolding highest_published
highest_published-Scanned s lower available hl ha le =
    ground (arith, scan (available - lower + 1) s lower available)
