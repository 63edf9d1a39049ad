-- ===== src/Ring/Translate.antt =====
-- ring_buffer.go: what `PublishN` hands to its translator, and that it publishes all it has claimed.
use disruptor_go.Prelude.{ℕ, List, [], ◌∷◌, some}
use disruptor_go.Multi as Multi
use disruptor_go.Ring.{RingBuffer, Ending, fine}
use disruptor_go.Ring.Publish.{Translator, Published, translate, or_stop}

module _ {ℓ κ} {T : Type ℓ} {X : Type κ} (f : Translator T X) (r : RingBuffer T) where
  -- The calls of the translator for a list of sequences, up to the first that does not return nil.
  abbrev pub translate_each : List ℕ → X → Ending × X
  translate_each [] x = (fine, x)
  translate_each (q ∷ qs) x = or_stop (translate f r q x) (λ x'. translate_each qs x')

-- The end of `fill` after a claim.
abbrev pub filled {ℓ κ} : {T : Type ℓ} {X : Type κ} → Ending × X → RingBuffer T → Published T X
filled (e, x) r = (some e, r, x)
