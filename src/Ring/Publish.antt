-- ===== src/Ring/Publish.antt =====
-- ring_buffer.go: `Publish`, `TryPublish`, `PublishN` and `TryPublishN`.
use disruptor_go.Prelude.{ℕ, zero, suc, ◌+◌, ◌-◌, Option, none, some}
use disruptor_go.Int64.{of_nat, add, sub}
use disruptor_go.Errors.{nil_translator, Result, ok, err}
use disruptor_go.Ring.{
  Turns, RingBuffer, Reply, Ending, fine, error, panicked, out_of_range, ending, get, next_n,
  try_next_n, publish_range, next, try_next, publish_sequence,
}

-- `EventTranslator`, with the state of all that it touches.
abbrev pub Translator {ℓ κ} : Type ℓ → Type κ → Type (ℓ ⊔ κ)
Translator T X = T → ℕ → X → Reply × X

abbrev pub Published {ℓ κ} : Type ℓ → Type κ → Type (ℓ ⊔ κ)
Published T X = Option Ending × RingBuffer T × X

-- `if err := ...; err != nil { return err }`, where a panic passes too.
abbrev pub or_stop {κ} : {X : Type κ} → Ending × X → (X → Ending × X) → Ending × X
or_stop (fine, x) rest = rest x
or_stop (error e, x) rest = (error e, x)
or_stop (panicked v, x) rest = (panicked v, x)
or_stop (out_of_range, x) rest = (out_of_range, x)

module _ {ℓ κ} {T : Type ℓ} {X : Type κ} where
  -- `translator(r.Get(sequence), sequence)`
  unfoldable pub translate : Translator T X → RingBuffer T → ℕ → X → Ending × X
  translate f r sequence x = elim (get r sequence) [
    | none ↦ (out_of_range, x)
    | some event ↦ (let (reply, x') = f event sequence x in (ending reply, x'))
  ]

  -- The loop of `PublishN`: it stops at the first event that is not translated.
  unfoldable pub translate_loop : ℕ → Translator T X → RingBuffer T → ℕ → X → Ending × X
  translate_loop zero f r sequence x = (fine, x)
  translate_loop (suc rounds) f r sequence x =
      or_stop (translate f r sequence x)
        (λ x'. translate_loop rounds f r (add sequence (of_nat 1)) x')

  -- After a claim of `count` events: translate them, and publish all of them whatever came of it.
  unfoldable pub fill : Translator T X → ℕ → Option (Result ℕ) × RingBuffer T → X → Published T X
  unfolding translate_loop translate
  fill f count (none, r) x = (none, r, x)
  fill f count (some (err e), r) x = (some (error e), r, x)
  fill f count (some (ok high), r) x =
      let low = add (sub high count) (of_nat 1) in
      let (e, x') = translate_loop (high + 1 - low) f r low x in
      (some e, publish_range low high r, x')

  -- `PublishN`; a translator of `none` is nil.
  unfoldable pub publish_n : Turns → ℕ → Option (Translator T X) → RingBuffer T → X → Published T X
  unfolding fill
  publish_n ts count none r x = (some (error nil_translator), r, x)
  publish_n ts count (some f) r x = fill f count (next_n ts count r) x

  -- TryPublishN
  unfoldable pub try_publish_n :
      Turns → ℕ → Option (Translator T X) → RingBuffer T → X → Published T X
  unfolding fill
  try_publish_n ts count none r x = (some (error nil_translator), r, x)
  try_publish_n ts count (some f) r x = fill f count (try_next_n ts count r) x

  -- After a claim of one event, as `Publish` and `TryPublish` go on.
  unfoldable pub fill_one : Translator T X → Option (Result ℕ) × RingBuffer T → X → Published T X
  unfolding translate
  fill_one f (none, r) x = (none, r, x)
  fill_one f (some (err e), r) x = (some (error e), r, x)
  fill_one f (some (ok sequence), r) x =
      let (e, x') = translate f r sequence x in (some e, publish_sequence sequence r, x')

  -- Publish
  unfoldable pub publish : Turns → Option (Translator T X) → RingBuffer T → X → Published T X
  unfolding fill_one
  publish ts none r x = (some (error nil_translator), r, x)
  publish ts (some f) r x = fill_one f (next ts r) x

  -- TryPublish
  unfoldable pub try_publish : Turns → Option (Translator T X) → RingBuffer T → X → Published T X
  unfolding fill_one
  try_publish ts none r x = (some (error nil_translator), r, x)
  try_publish ts (some f) r x = fill_one f (try_next ts r) x
