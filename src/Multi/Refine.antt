-- ===== src/Multi/Refine.antt =====
-- sequencer_multi.go: the publication words refine a status for each sequence.
use disruptor_go.Prelude.{
  ℕ, ◌+◌, ◌^◌, ◌≤◌, ◌<◌, ◌≡◌, Bool, true, false, if◌then◌else◌, List, [], ◌∷◌, ◌⊎◌,
}
use disruptor_go.Publication.{unresolved, published, discarded}
use disruptor_go.Multi.{
  MultiProducerSequencer, prepare, publish, discard, resolution, is_available, is_discarded,
}
use disruptor_go.Multi.Slots.{InRange, is_claimed}
use disruptor_go.Multi.Resolution.{within}

-- The abstract status of a sequence.
pub data Status : Type 0 where
  free taken public dropped : Status

-- The changes of the words, each of a range.
pub data Change : Type 0 where
  prepares publishes discards : (low high : ℕ) → Change

-- The first resolution of a taken sequence counts.
abbrev pub resolve_as : Status → Status → Status
resolve_as x free = free
resolve_as x taken = x
resolve_as x public = public
resolve_as x dropped = dropped

-- What a change does to the status of a sequence, and what a list of them does.
abbrev pub status_after : Change → ℕ → Status → Status
status_after (prepares low high) r m = if within low high r then taken else m
status_after (publishes low high) r m = if within low high r then resolve_as public m else m
status_after (discards low high) r m = if within low high r then resolve_as dropped m else m

abbrev pub statuses : List Change → ℕ → Status → Status
statuses [] r m = m
statuses (c ∷ cs) r m = statuses cs r (status_after c r m)

-- The same with the words.
abbrev pub change : Change → MultiProducerSequencer → MultiProducerSequencer
change (prepares low high) s = prepare low high s
change (publishes low high) s = publish low high s
change (discards low high) s = discard low high s

abbrev pub changes : List Change → MultiProducerSequencer → MultiProducerSequencer
changes [] s = s
changes (c ∷ cs) s = changes cs (change c s)

-- A range is among the first 2^62 sequences. One that is prepared is not empty, and ends less than a
-- ring past the sequence, unless that is free and past it.
abbrev pub IsAllowed : ℕ → ℕ → Status → Change → Type 0
IsAllowed k r m (prepares low high) =
    InRange low
    × InRange high
    × (low ≤ high)
    × (((r ≤ high) × (high < r + 2 ^ k)) ⊎ ((high < r) × (m ≡ free)))
IsAllowed k r m (publishes low high) = InRange low × InRange high
IsAllowed k r m (discards low high) = InRange low × InRange high

abbrev pub AllAllowed : ℕ → ℕ → Status → List Change → Type 0
AllAllowed k r m [] = Unit
AllAllowed k r m (c ∷ cs) = IsAllowed k r m c × AllAllowed k r (status_after c r m) cs

-- How the words show a status.
abbrev is_taken : Status → Bool
is_taken taken = true
is_taken _ = false

abbrev number : Status → ℕ
number free = unresolved
number taken = unresolved
number public = published
number dropped = discarded

abbrev pub Shows : MultiProducerSequencer → ℕ → Status → Type 0
Shows s r m = (is_claimed s r ≡ is_taken m) × (resolution s r ≡ number m)

abbrev pub is_resolved : Status → Bool
is_resolved free = false
is_resolved taken = false
is_resolved public = true
is_resolved dropped = true

abbrev pub is_dropped : Status → Bool
is_dropped dropped = true
is_dropped _ = false

-- What the words say of a sequence, beside its status.
pub record Refines (s : MultiProducerSequencer) (r : ℕ) (m : Status) : Type 0 where
  pub shows : Shows s r m
  pub available : is_available s r ≡ is_resolved m
  pub discards : is_discarded s r ≡ is_dropped m
