-- ===== src/Loadtest/Handle.antt =====
-- cmd/loadtest/runner.go: the handler of the command's processors.
use disruptor_go.Prelude.{
  ℕ, ◌+◌, ◌%◌, ◌^◌, ◌<◌, ◌≡◌, ◌∙◌, ap, arith, Bool, ◌&&◌, ◌||◌, not, List, [], ◌∷◌, ◌++◌, set,
  get_or, if◌then◌else◌, ◌==◌, length, get_or-set_self, get_or-set_ne, length-set, sym, ℕ_discrete,
}
use disruptor_go.Int64.{of_nat}
use disruptor_go.Ring.{Reply, done}
use disruptor_go.Loadtest.Publisher.{LoadEvent}
use disruptor_go.Loadtest.Report.{total}

-- What the handlers write: a checksum and a list of latencies for each processor.
pub record Tally : Type 0 where
  pub checksums : List ℕ  -- uint64
  pub latencies : List (List ℕ)

-- Whether a processor records latencies, where the command measures them: in a pipeline only the
-- last of the consumers does.
unfoldable pub record_latency : Bool → Bool → ℕ → ℕ → Bool
record_latency measures pipeline consumers index =
    measures && (not pipeline || of_nat index + 1 == consumers)

-- The loop over the payload.
unfoldable pub add_payload : ℕ → List ℕ → ℕ
add_payload sum [] = sum
add_payload sum (b ∷ bs) = add_payload ((sum + b) % 2 ^ 64) bs

-- The handler, with the nanoseconds since the event was published.
unfoldable pub handle : ℕ → Bool → ℕ → LoadEvent → Tally → Reply × Tally
unfolding add_payload
handle index records since event t =
    let t' = record t {
      checksums = set t.checksums index (add_payload (get_or t.checksums index 0) event.payload);
    } in
    (
      done,
      if records && event.sampled
          then record t' {
            latencies = set t'.latencies index (get_or t'.latencies index [] ++ since ∷ []);
          }
          else t',
    )

-- The handler on one event after the other, each with the nanoseconds since it was published.
abbrev pub handle_each : ℕ → Bool → List (ℕ × LoadEvent) → Tally → Tally
handle_each index records [] t = t
handle_each index records ((since, event) ∷ es) t =
    handle_each index records es (handle index records since event t).1

abbrev pub total_of : List (ℕ × LoadEvent) → ℕ
total_of [] = 0
total_of ((since, event) ∷ es) = total event.payload + total_of es

add_payload-total :
    (bs : List ℕ) (sum : ℕ) → add_payload sum bs % 2 ^ 64 ≡ (sum + total bs) % 2 ^ 64
unfolding add_payload
add_payload-total [] sum = omega arith
add_payload-total (b ∷ bs) sum = omega (arith, add_payload-total bs ((sum + b) % 2 ^ 64))

checksums-handle :
    (index : ℕ) (records : Bool) (since : ℕ) (event : LoadEvent) (t : Tally)
    → (handle index records since event t).1.checksums
      ≡ set t.checksums index (add_payload (get_or t.checksums index 0) event.payload)
unfolding handle
checksums-handle index records since event t = ground arith

-- A processor's checksum of any events is the sum of the bytes of their payloads, modulo 2^64, on top
-- of what it was, and no other checksum changes; the index is one of a checksum.
pub handle_each-total :
    (index : ℕ) (records : Bool) (es : List (ℕ × LoadEvent)) (t : Tally) (q : ℕ)
    → index < length t.checksums
    → get_or (handle_each index records es t).checksums q 0 % 2 ^ 64
      ≡ (get_or t.checksums q 0 + (if q == index then total_of es else 0)) % 2 ^ 64
handle_each-total index records [] t q lt = ground arith
handle_each-total index records ((since, event) ∷ es) t q lt =
    let t' = (handle index records since event t).1 in
    let old = get_or t.checksums index 0 in
    let now = checksums-handle index records since event t in
    let added = add_payload old event.payload in
    let size : length t'.checksums ≡ length t.checksums =
      ap length now ∙ length-set t.checksums index added in
    let rest = handle_each-total index records es t' q (omega (arith, size, lt)) in
    let sum = add_payload-total event.payload old in
    elim (ℕ_discrete q index) [
      | yes e ↦
          let mine : get_or t'.checksums q 0 ≡ added =
            ap (λ l. get_or l q 0) now
            ∙ ap (λ i. get_or (set t.checksums index added) i 0) e
            ∙ get_or-set_self t.checksums index added 0 lt in
          let here : get_or t.checksums q 0 ≡ old = ap (λ i. get_or t.checksums i 0) e in
          ground (arith, rest, mine, here, sum, e)
      | no n ↦
          let other : get_or t'.checksums q 0 ≡ get_or t.checksums q 0 =
            ap (λ l. get_or l q 0) now
            ∙ get_or-set_ne t.checksums index q added 0 (λ e. n (sym e)) in
          ground (arith, rest, other, n)
    ]
