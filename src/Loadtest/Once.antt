-- ===== src/Loadtest/Once.antt =====
-- cmd/loadtest/runner.go: `runOnce`, which puts the parts of the command in order, and
-- `stopProcessors`.
use disruptor_go.Prelude.{
  ℕ, ◌+◌, Bool, false, ltb, if◌then◌else◌, List, [], ◌∷◌, map, Option, none, some,
}
use disruptor_go.Int64.{of_nat, add, sub}
use disruptor_go.Errors.{Error, Result, ok, err}

-- The channel of a processor's run: there is none; it has or will have what the run returns; or that
-- has been received, and as a run sends once, nothing else will ever be sent.
pub data Done : Type 0 where
  no_run : Done
  ended : (result : Option Error) → Done
  received : Done

-- What a processor's run returns, of those that were started.
abbrev pub channel_of : Option (Option Error) → Done
channel_of none = no_run
channel_of (some result) = ended result

-- The first error, with the index of its processor.
abbrev pub first_of : Option (ℕ × Error) → ℕ → Option Error → Option (ℕ × Error)
first_of (some first) i result = some first
first_of none i none = none
first_of none i (some e) = some (i, e)

abbrev pub keep :
    Done → Option (Option (ℕ × Error)) × List Done → Option (Option (ℕ × Error)) × List Done
keep d (r, ds) = (r, d ∷ ds)

-- The loop of `stopProcessors` over the channels, after every processor was halted. `none` waits for
-- ever, as nothing is sent any more.
unfoldable pub stop_loop :
    ℕ → Option (ℕ × Error) → List Done → Option (Option (ℕ × Error)) × List Done
stop_loop i first [] = (some first, [])
stop_loop i first (no_run ∷ ds) = keep no_run (stop_loop (i + 1) first ds)
stop_loop i first (ended result ∷ ds) =
    keep received (stop_loop (i + 1) (first_of first i result) ds)
stop_loop i first (received ∷ ds) = (none, received ∷ ds)

-- The parts that `runOnce` puts in order, on a state of theirs: the parsers and `disruptor.New`,
-- `startProcessors` with what its runs will return, `publishPhase`, `waitForSequences` on the
-- terminal sequences, `clear(processors.checksums)`, the cancel function, `Halt` of every processor,
-- `ring.Close`, the report, and `errors.Is` for `context.Canceled`.
pub record Parts {ℓ κ} (S : Type ℓ) (R : Type κ) : Type (ℓ ⊔ κ) where
  pub create : S → Option Error × S
  pub start : S → Result (List (Option (Option Error))) × S
  pub publish_phase : (base events : ℕ) (sample : Bool) → S → Option Error × S
  pub wait : (target : ℕ) → S → Option Error × S
  pub clear : S → S
  pub cancel : S → S
  pub halt_all : S → S
  pub close : S → S
  pub report : S → R
  pub is_cancelled : Error → Bool

-- The fields of `config` that `runOnce` reads itself.
pub record Plan : Type 0 where
  pub warmup_events : ℕ  -- int64
  pub events : ℕ  -- int64
  pub latency : Bool

-- A call that may fail, and what follows it.
abbrev pub unless {ℓ} : {S : Type ℓ} → Option Error × S → (S → Option Error × S) → Option Error × S
unless (some e, s) rest = (some e, s)
unless (none, s) rest = rest s

-- How `runOnce` ends; `none` waits for ever.
abbrev pub Ending {ℓ κ} : Type ℓ → Type κ → Type (ℓ ⊔ κ)
Ending S R = Option (Result R) × S

module _ {ℓ κ} {S : Type ℓ} {R : Type κ} (parts : Parts S R) where
  -- The warmup.
  unfoldable pub warm_up : Plan → S → Option Error × S
  warm_up plan s =
      if ltb (of_nat 0) plan.warmup_events
      then unless (parts.publish_phase (of_nat 0) plan.warmup_events false s)
          (parts.wait (sub plan.warmup_events (of_nat 1)))
      else (none, s)

  -- From the warmup up to the last event.
  unfoldable pub measured : Plan → S → Option Error × S
  unfolding warm_up
  measured plan s = unless (warm_up plan s) (λ s.
      unless (parts.publish_phase plan.warmup_events plan.events plan.latency (parts.clear s))
        (parts.wait (sub (add plan.warmup_events plan.events) (of_nat 1))))

  abbrev pub after_deferred : Option (Option (ℕ × Error)) → Result R → S → Ending S R
  after_deferred none r s = (none, s)
  after_deferred (some ignored) r s = (some r, s)

  -- The deferred function, where the processors are not marked as stopped.
  unfoldable pub deferred : Result R → List Done → S → Ending S R
  unfolding stop_loop
  deferred r done s = after_deferred (stop_loop 0 none done).0 r (parts.halt_all (parts.cancel s))

  -- What follows `stopProcessors` in the body.
  unfoldable pub after_stop : Option (Option (ℕ × Error)) → List Done → S → Ending S R
  unfolding deferred
  after_stop none done s = (none, s)
  after_stop (some none) done s = (some (ok (parts.report s)), s)
  after_stop (some (some (i, e))) done s =
      if parts.is_cancelled e then (some (ok (parts.report s)), s) else deferred (err e) done s

  -- What follows the last event.
  unfoldable pub after_measured : Option Error × S → List Done → Ending S R
  unfolding after_stop deferred stop_loop
  after_measured (some e, s) done = deferred (err e) done s
  after_measured (none, s) done =
      let stopped = stop_loop 0 none done in
      after_stop stopped.0 stopped.1 (parts.halt_all (parts.cancel s))

  -- What follows `startProcessors`.
  unfoldable pub after_start : Plan → Result (List (Option (Option Error))) × S → Ending S R
  unfolding measured after_measured
  after_start plan (err e, s) = (some (err e), parts.cancel s)
  after_start plan (ok results, s) = after_measured (measured plan s) (map channel_of results)

  -- The deferred `ring.Close`.
  abbrev pub closing : Ending S R → Ending S R
  closing (none, s) = (none, s)
  closing (some r, s) = (some r, parts.close s)

  abbrev pub after_create : Plan → Option Error × S → Ending S R
  after_create plan (some e, s) = (some (err e), s)
  after_create plan (none, s) = closing (after_start plan (parts.start s))

  -- runOnce
  unfoldable pub run_once : Plan → S → Ending S R
  unfolding after_start
  run_once plan s = after_create plan (parts.create s)
