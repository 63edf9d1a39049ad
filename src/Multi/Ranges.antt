-- ===== src/Multi/Ranges.antt =====
-- sequencer_multi.go: what `prepare` and `resolve` do to a range of sequences.
use disruptor_go.Prelude.{
  ℕ, zero, suc, ◌+◌, ◌-◌, ◌^◌, ◌≤◌, ◌<◌, ◌≡◌, ◌≢◌, true, false, ◌&&◌, arith, ltb, leb,
  if◌then◌else◌,
}
use disruptor_go.Int64.{of_nat, add, add_one_lem}
use disruptor_go.Publication.{unresolved}
use disruptor_go.Multi.{
  MultiProducerSequencer, index, prepare_loop, prepare, resolve_loop, resolve, resolution,
}
use disruptor_go.Multi.Slots.{InRange, IsRing, is_claimed, eq_of_index}
use disruptor_go.Multi.Words.{
  prepare_one-IsRing, resolve_one-IsRing, is_claimed-prepare_one, resolution-prepare_one,
  is_claimed-resolve_one, resolution-resolve_one,
}

prepare_loop-IsRing :
    {k : ℕ} (n q : ℕ) {s : MultiProducerSequencer} → IsRing k s → IsRing k (prepare_loop n q s)
unfolding prepare_loop
prepare_loop-IsRing zero q ring = ring
prepare_loop-IsRing (suc n) q ring =
    prepare_loop-IsRing n (add q (of_nat 1)) (prepare_one-IsRing q ring)

resolve_loop-IsRing :
    {k : ℕ} (x n q : ℕ) {s : MultiProducerSequencer} → IsRing k s → IsRing k (resolve_loop x n q s)
unfolding resolve_loop
resolve_loop-IsRing x zero q ring = ring
resolve_loop-IsRing x (suc n) q ring =
    resolve_loop-IsRing x n (add q (of_nat 1)) (resolve_one-IsRing x q ring)

-- A sequence less than a lap off has another slot.
apart :
    {k : ℕ} {s : MultiProducerSequencer} (q r : ℕ)
    → IsRing k s
    → InRange q
    → InRange r
    → r < q + 2 ^ k
    → q < r + 2 ^ k
    → q ≢ r
    → index s q ≢ index s r
apart q r ring hq hr below above ne slot = ne (eq_of_index ring q r hq hr below above slot)

is_claimed-prepare_loop :
    {k : ℕ} (n q r : ℕ) {s : MultiProducerSequencer}
    → IsRing k s
    → of_nat 0 ≤ q
    → q + n ≤ of_nat (2 ^ 62)
    → InRange r
    → r < q + n
    → q + n ≤ r + 2 ^ k
    → is_claimed (prepare_loop n q s) r ≡ (if leb q r then true else is_claimed s r)
unfolding prepare_loop
is_claimed-prepare_loop zero q r ring h0 h1 hr below near = ground arith
is_claimed-prepare_loop (suc n) q r {s} ring h0 h1 hr below near =
    let step : add q (of_nat 1) ≡ q + 1 = add_one_lem q (omega arith) in
    rw step (
      ground (
        arith,
        is_claimed-prepare_loop n (q + 1) r (prepare_one-IsRing q ring),
        is_claimed-prepare_one ring q r,
        apart q r ring,
      ))

resolution-prepare_loop :
    {k : ℕ} (n q r : ℕ) {s : MultiProducerSequencer}
    → IsRing k s
    → of_nat 0 ≤ q
    → q + n ≤ of_nat (2 ^ 62)
    → InRange r
    → r < q + n
    → q + n ≤ r + 2 ^ k
    → resolution (prepare_loop n q s) r ≡ (if leb q r then unresolved else resolution s r)
unfolding prepare_loop
resolution-prepare_loop zero q r ring h0 h1 hr below near = ground arith
resolution-prepare_loop (suc n) q r {s} ring h0 h1 hr below near =
    let step : add q (of_nat 1) ≡ q + 1 = add_one_lem q (omega arith) in
    rw step (
      ground (
        arith,
        resolution-prepare_loop n (q + 1) r (prepare_one-IsRing q ring),
        resolution-prepare_one ring q r,
        apart q r ring,
      ))

is_claimed-resolve_loop :
    {k : ℕ} (x n q r : ℕ) {s : MultiProducerSequencer}
    → IsRing k s
    → x ≢ unresolved
    → x < 3
    → of_nat 0 ≤ q
    → q + n ≤ of_nat (2 ^ 62)
    → InRange r
    → is_claimed (resolve_loop x n q s) r
      ≡ (if leb q r && ltb r (q + n) then false else is_claimed s r)
unfolding resolve_loop
is_claimed-resolve_loop x zero q r ring nx hx h0 h1 hr = ground arith
is_claimed-resolve_loop x (suc n) q r {s} ring nx hx h0 h1 hr =
    let step : add q (of_nat 1) ≡ q + 1 = add_one_lem q (omega arith) in
    rw step (
      ground (
        arith,
        is_claimed-resolve_loop x n (q + 1) r (resolve_one-IsRing x q ring),
        is_claimed-resolve_one ring x q r,
      ))

resolution-resolve_loop :
    {k : ℕ} (x n q r : ℕ) {s : MultiProducerSequencer}
    → IsRing k s
    → x ≢ unresolved
    → x < 3
    → of_nat 0 ≤ q
    → q + n ≤ of_nat (2 ^ 62)
    → InRange r
    → resolution (resolve_loop x n q s) r
      ≡ (if (leb q r && ltb r (q + n)) && is_claimed s r then x else resolution s r)
unfolding resolve_loop
resolution-resolve_loop x zero q r ring nx hx h0 h1 hr = ground arith
resolution-resolve_loop x (suc n) q r {s} ring nx hx h0 h1 hr =
    let step : add q (of_nat 1) ≡ q + 1 = add_one_lem q (omega arith) in
    rw step (
      ground (
        arith,
        resolution-resolve_loop x n (q + 1) r (resolve_one-IsRing x q ring),
        resolution-resolve_one ring x q r,
        is_claimed-resolve_one ring x q r,
      ))

pub prepare-IsRing :
    {k : ℕ} (low high : ℕ) {s : MultiProducerSequencer} → IsRing k s → IsRing k (prepare low high s)
unfolding prepare
prepare-IsRing low high ring = ground (arith, prepare_loop-IsRing (high - low + 1) low ring)

pub resolve-IsRing :
    {k : ℕ} (low high x : ℕ) {s : MultiProducerSequencer}
    → IsRing k s
    → IsRing k (resolve low high x s)
unfolding resolve
resolve-IsRing low high x ring = ground (arith, resolve_loop-IsRing x (high - low + 1) low ring)

-- Among the first 2^62 sequences, on a ring whose fields fit each other: in the lap that ends with
-- a range that is not empty, `prepare` makes that range claimed and unresolved, and keeps the status
-- of the sequences before it.
pub prepare_lem :
    {k : ℕ} (low high r : ℕ) {s : MultiProducerSequencer}
    → IsRing k s
    → InRange low
    → InRange high
    → low ≤ high
    → InRange r
    → r ≤ high
    → high < r + 2 ^ k
    → (is_claimed (prepare low high s) r ≡ (if leb low r then true else is_claimed s r))
      × (resolution (prepare low high s) r ≡ (if leb low r then unresolved else resolution s r))
unfolding prepare
prepare_lem low high r {s} ring hl hh le hr below near = ground (
  arith,
  is_claimed-prepare_loop (high - low + 1) low r ring,
  resolution-prepare_loop (high - low + 1) low r ring,
)

-- What is neither claimed nor resolved past a claimed range stays so.
after-prepare_loop :
    {k : ℕ} (n q r : ℕ) {s : MultiProducerSequencer}
    → IsRing k s
    → of_nat 0 ≤ q
    → q + n ≤ of_nat (2 ^ 62)
    → InRange r
    → q + n ≤ r
    → (is_claimed s r ≡ false) × (resolution s r ≡ unresolved)
    → (is_claimed (prepare_loop n q s) r ≡ false) × (resolution (prepare_loop n q s) r ≡ unresolved)
unfolding prepare_loop
after-prepare_loop zero q r ring h0 h1 hr past free = free
after-prepare_loop (suc n) q r {s} ring h0 h1 hr past free =
    let step : add q (of_nat 1) ≡ q + 1 = add_one_lem q (omega arith) in
    rw step (
      after-prepare_loop n (q + 1) r (prepare_one-IsRing q ring) (omega arith) (omega arith) hr
        (omega arith)
        (ground (arith, is_claimed-prepare_one ring q r, resolution-prepare_one ring q r, free)))

pub after-prepare :
    {k : ℕ} (low high r : ℕ) {s : MultiProducerSequencer}
    → IsRing k s
    → InRange low
    → InRange high
    → InRange r
    → high < r
    → (is_claimed s r ≡ false) × (resolution s r ≡ unresolved)
    → (is_claimed (prepare low high s) r ≡ false) × (resolution (prepare low high s) r ≡ unresolved)
unfolding prepare
after-prepare low high r ring hl hh hr past free =
    ground (arith, after-prepare_loop (high - low + 1) low r ring, free)

-- `resolve` resolves exactly the claimed sequences of its range, and takes their claims away.
pub resolve_lem :
    {k : ℕ} (low high x r : ℕ) {s : MultiProducerSequencer}
    → IsRing k s
    → x ≢ unresolved
    → x < 3
    → InRange low
    → InRange high
    → InRange r
    → (is_claimed (resolve low high x s) r
        ≡ (if leb low r && leb r high then false else is_claimed s r))
      × (resolution (resolve low high x s) r
          ≡ (if (leb low r && leb r high) && is_claimed s r then x else resolution s r))
unfolding resolve
resolve_lem low high x r {s} ring nx hx hl hh hr = ground (
  arith,
  is_claimed-resolve_loop x (high - low + 1) low r ring,
  resolution-resolve_loop x (high - low + 1) low r ring,
)
