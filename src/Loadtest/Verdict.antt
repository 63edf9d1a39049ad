-- ===== src/Loadtest/Verdict.antt =====
-- cmd/loadtest/runner.go: how a run of the command ends.
use disruptor_go.Prelude.{ℕ, if◌then◌else◌, List, [], ◌∷◌, Option, none, some}
use disruptor_go.Errors.{Error, Result, ok, err}
use disruptor_go.Loadtest.Drain.{first_failure}
use disruptor_go.Loadtest.Once.{Done, no_run, received, Parts, Plan, Ending, measured}

-- The channels once everything that was sent has been received.
abbrev emptied : List (Option (Option Error)) → List Done
emptied [] = []
emptied (none ∷ rs) = no_run ∷ emptied rs
emptied (some r ∷ rs) = received ∷ emptied rs

abbrev or_later : Option (ℕ × Error) → Option (ℕ × Error) → Option (ℕ × Error)
or_later none later = later
or_later (some first) later = some first

module _ {ℓ κ} {S : Type ℓ} {R : Type κ} (parts : Parts S R) where
  -- Whether a run returns, and with which error.
  abbrev pub said : Ending S R → Option (Option Error)
  said (none, s) = none
  said (some (ok report), s) = some none
  said (some (err e), s) = some (some e)

  -- What is to be expected once the last event was consumed.
  abbrev pub stopped_with : Option (ℕ × Error) → Option (Option Error)
  stopped_with none = some none
  stopped_with (some (i, e)) = if parts.is_cancelled e then some none else none

  abbrev pub measured_with : Option Error → List (Option (Option Error)) → Option (Option Error)
  measured_with (some e) results = some (some e)
  measured_with none results = stopped_with (first_failure 0 results)

  abbrev pub started_with : Plan → Result (List (Option (Option Error))) × S → Option (Option Error)
  started_with plan (err e, s) = some (some e)
  started_with plan (ok results, s) = measured_with (measured parts plan s).0 results

  abbrev pub created_with : Plan → Option Error × S → Option (Option Error)
  created_with plan (some e, s) = some (some e)
  created_with plan (none, s) = started_with plan (parts.start s)
