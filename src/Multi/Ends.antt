-- ===== src/Multi/Ends.antt =====
-- sequencer_multi.go: how `Next` and `TryNext` end.
use disruptor_go.Prelude.{ℕ, ◌≡◌, false, List, [], ◌∷◌, All, none, some, if_elim}
use disruptor_go.Sequencer.Waiting.{Turn}
use disruptor_go.Multi.{MultiProducerSequencer}
use disruptor_go.Multi.Claim.{
  Round, returned, again, asleep, try_next_round, bad_count, Claim, after_round, try_next_loop,
  try_next,
}
use disruptor_go.Multi.Safety.{IsSafe, IsShort, IsFair}
use disruptor_go.Multi.Exchange.{Claimed, Leaves}
use disruptor_go.Multi.Rounds.{try_next_round-Leaves, good_again}

-- What a claim of `count` events leaves behind, through or not.
abbrev pub Concludes : ℕ → ℕ → Claim → Type 0
Concludes k count (none, s) = IsSafe k s
Concludes k count (some r, s) = IsSafe k s × Claimed count r s

after_round-Concludes :
    {k : ℕ} (count : ℕ) (r : Round) (retry : MultiProducerSequencer → Claim)
    → Leaves k count r
    → ((s : MultiProducerSequencer) → IsSafe k s → IsShort k s → Concludes k count (retry s))
    → Concludes k count (after_round r retry)
after_round-Concludes count (returned x s) retry left rest = left
after_round-Concludes count (again s) retry left rest = rest s left.0 left.1
after_round-Concludes count (asleep s) retry left rest = left

try_next_loop-Concludes :
    {k : ℕ} (ts : List (Turn MultiProducerSequencer)) (count : ℕ) (s₁ : MultiProducerSequencer)
    → All (IsFair k) ts
    → IsSafe k s₁
    → IsShort k s₁
    → bad_count count s₁ ≡ false
    → Concludes k count (try_next_loop ts count s₁)
unfolding try_next_loop
try_next_loop-Concludes [] count s₁ fair ok₁ few good = ok₁
try_next_loop-Concludes {k} (t ∷ ts) count s₁ fair ok₁ few good =
    after_round-Concludes count (try_next_round t count s₁) _
      (try_next_round-Leaves t fair.0 ok₁ few count
        (good_again count ok₁ (fair.0.before s₁ ok₁ few).safe good))
      (λ s' safe' short'.
        try_next_loop-Concludes ts count s' fair.1 safe' short' (good_again count ok₁ safe' good))

-- `TryNext` keeps a ring safe in the same way and under the same conditions, and what it returns is
-- a claim in the same sense.
pub try_next-Concludes :
    {k : ℕ} (ts : List (Turn MultiProducerSequencer)) (count : ℕ) (s₁ : MultiProducerSequencer)
    → All (IsFair k) ts
    → IsSafe k s₁
    → IsShort k s₁
    → Concludes k count (try_next ts count s₁)
unfolding try_next
try_next-Concludes {k} ts count s₁ fair ok₁ few =
    if_elim (Concludes k count) (bad_count count s₁) _ _ (λ bad. (ok₁, tt))
      (λ good. try_next_loop-Concludes ts count s₁ fair ok₁ few good)
