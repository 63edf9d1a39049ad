-- ===== src/Single/Next.antt =====
-- sequencer_single.go and sequencer.go: `Next` waits for room, and claims what it waited for.
use disruptor_go.Prelude.{
  ℕ, ◌+◌, ◌-◌, ◌≤◌, ◌≡◌, refl, ◌∙◌, Bool, false, ◌||◌, List, [], ◌∷◌, arith, ltb, leb, ◌==◌,
  if◌then◌else◌, All, All-map, All-map₂, Option, none, some, if_elim, leb→le,
}
use disruptor_go.Int64.{of_nat, add, sub}
use disruptor_go.Errors.{Result, ok, err, closed}
use disruptor_go.Heap.{load, producer_wait_blocking}
use disruptor_go.Heap.Laws.{minimum-ge, minimum-le, All-minimum-le}
use disruptor_go.Sequencer.{SequencerBase, minimum_gate}
use disruptor_go.Sequencer.Waiting.{
  Turn, Wake, after_wait, wait_for_capacity, producer_wait, start_wait, finish_wait, prepared,
}
use disruptor_go.Single.{SingleProducerSequencer, settle, next}
use disruptor_go.Single.Safety.{Within, IsSafe, IsShort, bad_count}
use disruptor_go.Single.Claim.{claimed, IsKept, claim-IsSafe, claim_numbers, own-IsKept}

-- The others move gates and publications only within the bounds that hold already, up to `hi`, and
-- keep the size.
abbrev pub Keeps : ℕ → (SequencerBase → SequencerBase) → Type 0
Keeps hi f =
    (lo : ℕ) (b : SequencerBase) → Within lo hi b → load b.cursor b.heap ≤ hi → IsKept lo hi b (f b)

pub record IsFair (hi : ℕ) (t : Turn SequencerBase) : Type 0 where
  pub before : Keeps hi t.before
  pub during : Keeps hi t.during

then-IsKept :
    (lo hi : ℕ) (a b c : SequencerBase) → IsKept lo hi a b → IsKept lo hi b c → IsKept lo hi a c
then-IsKept lo hi a b c p q = record {
  size = q.size ∙ p.size;
  gates = q.gates;
  published = q.published;
}

start_wait-Keeps : (hi : ℕ) → Keeps hi start_wait
unfolding start_wait
start_wait-Keeps hi lo b w p =
    if_elim (IsKept lo hi b) ((b.heap.waiters b.producer_wait).mode == producer_wait_blocking) _ _
      (λ blocking. record { size = refl; gates = w; published = p })
      (λ busy. record { size = refl; gates = w; published = p })

finish_wait-Keeps :
    (hi : ℕ) (wake : Wake) (ctx_done : Bool) (ch : ℕ)
    → Keeps hi (λ b. (finish_wait wake ctx_done ch b).1)
unfolding finish_wait
finish_wait-Keeps hi wake ctx_done ch lo b w p =
    if_elim (λ (r : Option (Result (Unit {0})) × SequencerBase). IsKept lo hi b r.1)
      ((b.heap.waiters b.producer_wait).mode == producer_wait_blocking) _ _
      (λ blocking. record { size = refl; gates = w; published = p })
      (λ busy. record { size = refl; gates = w; published = p })

producer_wait-Keeps :
    (hi : ℕ) (t : Turn SequencerBase) (ch : ℕ)
    → IsFair hi t
    → Keeps hi (λ b. (producer_wait t ch b).1)
unfolding producer_wait
producer_wait-Keeps hi t ch fair lo b w p = then-IsKept lo hi b b₂ _ second third
  where
    b₁ : SequencerBase
    b₁ = start_wait b

    b₂ : SequencerBase
    b₂ = t.during b₁

    first : IsKept lo hi b b₁
    first = start_wait-Keeps hi lo b w p

    second : IsKept lo hi b b₂
    second = then-IsKept lo hi b b₁ b₂ first (fair.during lo b₁ first.gates first.published)

    third : IsKept lo hi b₂ (finish_wait t.wake t.ctx_done ch b₂).1
    third = finish_wait-Keeps hi t.wake t.ctx_done ch lo b₂ second.gates second.published

-- How a wait for capacity ends: with the least gate, if that is far enough.
abbrev Waited : ℕ → ℕ → ℕ → SequencerBase → Option (Result ℕ) × SequencerBase → Type 0
Waited lo hi wrap b₀ (none, b) = IsKept lo hi b₀ b
Waited lo hi wrap b₀ (some (err e), b) = IsKept lo hi b₀ b
Waited lo hi wrap b₀ (some (ok m), b) = IsKept lo hi b₀ b × (wrap ≤ m) × (m ≡ minimum_gate b hi)

after_wait-Waited :
    (lo hi wrap : ℕ) (b₀ b : SequencerBase) (o : Option (Result (Unit {0})))
    (rest : Option (Result ℕ) × SequencerBase)
    → IsKept lo hi b₀ b
    → Waited lo hi wrap b₀ rest
    → Waited lo hi wrap b₀ (after_wait o b rest)
after_wait-Waited lo hi wrap b₀ b none rest kept onwards = kept
after_wait-Waited lo hi wrap b₀ b (some (err e)) rest kept onwards = kept
after_wait-Waited lo hi wrap b₀ b (some (ok _)) rest kept onwards = onwards

wait_for_capacity-Waited :
    (lo hi wrap : ℕ) (ts : List (Turn SequencerBase)) (b₀ b : SequencerBase)
    → All (IsFair hi) ts
    → IsKept lo hi b₀ b
    → Waited lo hi wrap b₀ (wait_for_capacity ts wrap hi b)
unfolding wait_for_capacity
wait_for_capacity-Waited lo hi wrap [] b₀ b fair kept = kept
wait_for_capacity-Waited lo hi wrap (t ∷ ts) b₀ b fair kept =
    let b₁ = t.before b in
    let pw = producer_wait t (prepared b₁) b₁ in
    let rest = wait_for_capacity ts wrap hi pw.1 in
    let here : IsKept lo hi b₀ b₁ =
      then-IsKept lo hi b₀ b b₁ kept (fair.0.before lo b kept.gates kept.published) in
    let woken : IsKept lo hi b₀ pw.1 =
      then-IsKept lo hi b₀ b₁ pw.1 here
        (producer_wait-Keeps hi t (prepared b₁) fair.0 lo b₁ here.gates here.published) in
    if_elim (Waited lo hi wrap b₀) b₁.is_sealed (some (err closed), b₁)
      (if leb wrap (minimum_gate b₁ hi)
        then (some (ok (minimum_gate b₁ hi)), b₁)
        else after_wait pw.0 pw.1 rest)
      (λ sealed. here)
      (λ unsealed.
        if_elim (Waited lo hi wrap b₀) (leb wrap (minimum_gate b₁ hi))
          (some (ok (minimum_gate b₁ hi)), b₁) (after_wait pw.0 pw.1 rest)
          (λ room. (here, leb→le wrap (minimum_gate b₁ hi) room, refl))
          (λ full.
            after_wait-Waited lo hi wrap b₀ pw.1 pw.0 rest woken
              (wait_for_capacity-Waited lo hi wrap ts b₀ pw.1 fair.1 woken)))

-- What a result of `Next` says of the state: the claims end with it, or are as they were.
abbrev pub Claimed :
    SingleProducerSequencer → ℕ → Option (Result ℕ) × SingleProducerSequencer → Type 0
Claimed s₀ count (some (ok n), s) = (n ≡ s₀.next_value + (count - of_nat 0)) × (s.next_value ≡ n)
Claimed s₀ count (some (err e), s) = s.next_value ≡ s₀.next_value
Claimed s₀ count (none, s) = s.next_value ≡ s₀.next_value

-- How a call of `Next` for `count` events ends.
abbrev pub Ends :
    ℕ → SingleProducerSequencer → ℕ → Option (Result ℕ) × SingleProducerSequencer → Type 0
Ends k s₀ count c = IsSafe k c.1 × Claimed s₀ count c

settle-Ends :
    {k : ℕ} {s : SingleProducerSequencer} (count : ℕ) (w : Option (Result ℕ) × SequencerBase)
    → IsSafe k s
    → IsShort k s
    → bad_count count s ≡ false
    → Waited s.cached_gate s.next_value (sub (add s.next_value count) s.buffer_size) s.base w
    → Ends k s count (settle (add s.next_value count) s w)
unfolding claimed
settle-Ends {k} {s} count (none, b) safe short good kept = (
  claim-IsSafe s b s.cached_gate s.next_value safe kept safe.started safe.cached_behind
      (omega arith) safe.room,
  refl,
)
settle-Ends {k} {s} count (some (err e), b) safe short good kept = (
  claim-IsSafe s b s.cached_gate s.next_value safe kept safe.started safe.cached_behind
      (omega arith) safe.room,
  refl,
)
settle-Ends {k} {s} count (some (ok m), b) safe short good (kept, far, least) =
    let numbers = claim_numbers count safe short good in
    let above : s.cached_gate ≤ m = rw least (
      minimum-ge b.heap s.cached_gate s.next_value b.gating safe.cached_behind
        (All-map b.gating (λ p q. q.0) kept.gates)) in
    let below : m ≤ s.next_value = rw least (
      minimum-le b.heap s.next_value s.next_value b.gating (omega arith)
        (All-map b.gating (λ p q. q.1) kept.gates)) in
    let gates : Within m s.next_value b = rw least (
      All-map₂ b.gating (λ p q r. (q, r.1)) (All-minimum-le b.heap s.next_value b.gating)
        kept.gates) in
    (
      claim-IsSafe s b m (add s.next_value count) safe
          (record { size = kept.size; gates = gates; published = kept.published })
          (omega (arith, safe)) (omega (arith, numbers)) (omega (arith, numbers))
          (omega (arith, numbers)),
      (numbers.0, refl),
    )

-- `Next` keeps a safe ring that is short of 2^62 events safe, however it ends and whatever the
-- others do while it waits, if these move gates within the claims. A sequence that it returns is `count` on from the claims before,
-- which then end there; otherwise they are as before.
pub next-Ends :
    {k : ℕ} (ts : List (Turn SequencerBase)) (count : ℕ) (s : SingleProducerSequencer)
    → All (IsFair s.next_value) ts
    → IsSafe k s
    → IsShort k s
    → Ends k s count (next ts count s)
unfolding next claimed
next-Ends {k} ts count s fair safe short =
    if_elim (Ends k s count) s.is_sealed _ _ (λ sealed. (safe, refl))
      (λ unsealed.
        if_elim (Ends k s count) (bad_count count s) _ _ (λ bad. (safe, refl))
          (λ good.
            let numbers = claim_numbers count safe short good in
            if_elim (Ends k s count)
              (ltb s.cached_gate (sub (add s.next_value count) s.buffer_size)
                || ltb s.next_value s.cached_gate)
              _ _
              (λ stale. settle-Ends count _ safe short good (
                wait_for_capacity-Waited s.cached_gate s.next_value
                  (sub (add s.next_value count) s.buffer_size) ts s.base s.base fair
                  (own-IsKept s.cached_gate safe safe.gates)))
              (λ enough. (
                claim-IsSafe s s.base s.cached_gate (add s.next_value count) safe
                    (own-IsKept s.cached_gate safe safe.gates) safe.started
                    (omega (arith, safe, numbers)) (omega (arith, numbers))
                    (ground (arith, numbers)),
                (numbers.0, refl),
              ))))
