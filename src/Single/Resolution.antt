-- ===== src/Single/Resolution.antt =====
-- sequencer_single.go: what `Discard` does to `IsDiscarded`.
use native.Mathlib.Nat.{mod-lt, one-le-pow}
use disruptor_go.Prelude.{
  ℕ, zero, suc, ◌+◌, ◌-◌, ◌%◌, ◌^◌, ◌≤◌, ◌<◌, ◌≡◌, refl, sym, ◌∙◌, arith, true, false, ◌&&◌, ltb,
  leb, ◌||◌, ◌==◌, if◌then◌else◌, length, get_or, length-set, get_or-set_self, get_or-set_ne, ◌≢◌,
}
use disruptor_go.Prelude.Bits.{bit_and-mask}
use disruptor_go.Prelude.Slots.{eq_of_slot_near}
use disruptor_go.Int64.{of_nat, minus_one, to_u64, add, sub, add_one_lem}
use disruptor_go.Heap.{load}
use disruptor_go.Sequencer.{signal_strategy}
use disruptor_go.Sequencer.Positions.{load-signal_strategy}
use disruptor_go.Single.{
  SingleProducerSequencer, index, discard_one, discard_loop, discard, is_discarded,
}

abbrev InRange : ℕ → Type 0
InRange q = (of_nat 0 ≤ q) × (q < of_nat (2 ^ 62))

-- The ring has 2^k slots.
pub record IsRing (k : ℕ) (s : SingleProducerSequencer) : Type 0 where
  pub size : s.buffer_size ≡ of_nat (2 ^ k)
  pub small : 2 ^ k ≤ 2 ^ 62
  pub slots : length s.discarded ≡ 2 ^ k

abbrev pub cursor_of : SingleProducerSequencer → ℕ
cursor_of s = load s.cursor s.heap

abbrev mark : SingleProducerSequencer → ℕ → ℕ
mark s q = get_or s.discarded (index s q) (of_nat 0)

index_lem :
    {k : ℕ} {s : SingleProducerSequencer}
    → IsRing k s
    → (q : ℕ) → InRange q
    → index s q ≡ (q - of_nat 0) % 2 ^ k
unfolding index
index_lem {k} {s} ring q r =
    let at_zero : to_u64 q ≡ q - of_nat 0 = omega arith in
    let mask : to_u64 (sub s.buffer_size (of_nat 1)) ≡ 2 ^ k - 1 =
      omega (arith, ring.size, ring.small, one-le-pow k 2 (omega arith)) in
    rw (at_zero, mask) (bit_and-mask k _)

-- One round past the cursor.
record Marked (k q : ℕ) (s s' : SingleProducerSequencer) : Type 0 where
  ring : IsRing k s'
  cursor : cursor_of s' ≡ q
  here : mark s' q ≡ q
  others : (r : ℕ) → InRange r → r ≢ q → r < q + 2 ^ k → q < r + 2 ^ k → mark s' r ≡ mark s r

discard_one-Marked :
    {k : ℕ} {s : SingleProducerSequencer}
    → IsRing k s
    → (q : ℕ) → InRange q
    → cursor_of s < q
    → Marked k q s (discard_one q s)
unfolding discard_one index
discard_one-Marked {k} {s} ring q hq past =
    let ahead : ltb (cursor_of s) q ≡ true = ground arith in
    let lt : index s q < length s.discarded =
      rw (index_lem ring q hq, ring.slots) (mod-lt _ (one-le-pow k 2 (omega arith))) in
    rw (ahead, discard_one)
      (record {
        ring = record {
          size = ring.size;
          small = ring.small;
          slots = length-set s.discarded (index s q) q ∙ ring.slots;
        };
        cursor = ground arith;
        here = get_or-set_self s.discarded (index s q) q (of_nat 0) lt;
        others = λ r hr ne below above.
            get_or-set_ne s.discarded (index s q) (index s r) q (of_nat 0) (λ e.
              let same : q - of_nat 0 ≡ r - of_nat 0 =
                eq_of_slot_near (2 ^ k) (q - of_nat 0) (r - of_nat 0)
                  (sym (index_lem ring q hq) ∙ e ∙ index_lem ring r hr) (omega arith)
                  (omega arith) in
              ne (omega (arith, same)));
      })

-- All rounds, from `q` on and past the cursor.
record Looped (k n q : ℕ) (s s' : SingleProducerSequencer) : Type 0 where
  ring : IsRing k s'
  cursor : cursor_of s' + 1 ≡ (if n == 0 then cursor_of s + 1 else q + n)
  marks :
      (r : ℕ)
      → InRange r
      → r < q + n
      → q + n ≤ r + 2 ^ k
      → mark s' r ≡ (if leb q r then r else mark s r)

discard_loop-Looped :
    {k : ℕ} (n q : ℕ) {s : SingleProducerSequencer}
    → IsRing k s
    → of_nat 0 ≤ q
    → q + n ≤ of_nat (2 ^ 62)
    → cursor_of s < q
    → Looped k n q s (discard_loop n q s)
unfolding discard_loop
discard_loop-Looped zero q ring h0 h1 past = record {
  ring = ring;
  cursor = refl;
  marks = λ r hr lt near. ground arith;
}
discard_loop-Looped {k} (suc n) q {s} ring h0 h1 past =
    let step : add q (of_nat 1) ≡ q + 1 = add_one_lem q (omega arith) in
    let one = discard_one-Marked ring q (omega arith, omega arith) past in
    let rest : Looped k n (q + 1) (discard_one q s) (discard_loop n (q + 1) (discard_one q s)) =
      discard_loop-Looped n (q + 1) one.ring (omega arith) (omega arith)
        (omega (arith, one.cursor)) in
    rw step (record {
      ring = rest.ring;
      cursor = ground (arith, rest.cursor, one.cursor);
      marks = λ r hr lt near. ground (arith, rest.marks r, one.here, one.others r);
    })

is_discarded_lem :
    {k : ℕ} {s : SingleProducerSequencer}
    → IsRing k s
    → (q c : ℕ) → cursor_of s ≡ c
    → minus_one ≤ c
    → c < of_nat (2 ^ 62)
    → is_discarded s q ≡ (leb q c && ltb c (q + 2 ^ k)) && (mark s q == q)
unfolding is_discarded
is_discarded_lem {k} {s} ring q c e h0 h1 =
    let behind : sub (cursor_of s) s.buffer_size ≡ c - 2 ^ k =
      omega (arith, e, ring.size, ring.small) in
    ground (arith, behind, e)

-- On a ring of 2^k slots and among the first 2^62 sequences, a `Discard` of the range right after the
-- cursor moves the cursor to its end. Of the sequences that are then at the cursor or less than a ring
-- behind it, all of the range are discarded, and any other one only if it was before; no other
-- sequence is.
pub is_discarded-discard :
    {k : ℕ} {s : SingleProducerSequencer}
    → IsRing k s
    → (low high q : ℕ) → InRange low
    → InRange high
    → InRange q
    → low ≤ high
    → low ≡ cursor_of s + 1
    → (cursor_of (discard low high s) ≡ high)
      × (is_discarded (discard low high s) q
          ≡ (leb q high && ltb high (q + 2 ^ k)) && (leb low q || is_discarded s q))
unfolding discard index
is_discarded-discard {k} {s} ring low high q hl hh hq le next =
    let forward : ltb high low ≡ false = ground arith in
    let n = high - low + 1 in
    let s' = discard_loop n low s in
    let loop = discard_loop-Looped n low ring (omega arith) (omega arith) (omega (arith, next)) in
    let told : load s'.cursor (signal_strategy s'.wait s'.heap) ≡ high =
      load-signal_strategy s'.wait s'.cursor s'.heap ∙ ground (arith, loop.cursor) in
    let now =
      is_discarded_lem
        {s = record s' { base = record s'.base { heap = signal_strategy s'.wait s'.heap } }}
        (record { size = loop.ring.size; small = loop.ring.small; slots = loop.ring.slots }) q high
        told (omega arith) (omega arith) in
    let before =
      is_discarded_lem ring q (cursor_of s) refl (omega (arith, next)) (omega (arith, next)) in
    rw (forward, discard) (told, now ∙ ground (arith, before, next, loop.marks q))
