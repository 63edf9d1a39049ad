-- ===== src/Loadtest/Deadline.antt =====
-- cmd/loadtest/runner.go: waiting for the consumers ends once the context is done.
use disruptor_go.Prelude.{
  ℕ, suc, ◌+◌, ◌≤◌, arith, ltb, if◌then◌else◌, if_elim, List, [], ◌∷◌, length, none, some,
}
use disruptor_go.Errors.{cancelled}
use disruptor_go.Heap.{Heap, load}
use disruptor_go.Loadtest.Drain.{Round, Drained, wait_for_sequence, and_then, wait_for_sequences}

-- How many of the rounds find the context done.
abbrev pub done_rounds : List Round → ℕ
done_rounds [] = 0
done_rounds (t ∷ ts) = if t.ctx_done then suc (done_rounds ts) else done_rounds ts

-- A wait that has ended, with at most one of `n` such rounds used up where it goes on.
Ended : ℕ → Drained → Type 0
Ended n (none, h, ts) = ⊥
Ended n (some (some e), h, ts) = Unit
Ended n (some none, h, ts) = n ≤ done_rounds ts + 1

abbrev pub HasEnded : Drained → Type 0
HasEnded (none, h, ts) = ⊥
HasEnded (some o, h, ts) = Unit

module _ (target : ℕ) where
  Ended-one :
      (n : ℕ) (ts : List Round) (p : ℕ) (h : Heap)
      → 1 ≤ n
      → n ≤ done_rounds ts
      → Ended n (wait_for_sequence ts p target h)
  unfolding wait_for_sequence Ended
  Ended-one n [] p h pos le = absurd (omega (arith, pos, le))
  Ended-one n (t ∷ ts) p h pos le =
      let h' = t.before h in
      if_elim (Ended n) (ltb (load p h') target) _ (some none, h', ts)
        (λ behind.
          if_elim (Ended n) t.ctx_done (some (some cancelled), h', ts)
            (wait_for_sequence ts p target h') (λ over. tt)
            (λ on. Ended-one n ts p h' pos (ground (arith, on, le))))
        (λ there. ground (arith, le))

  onwards :
      (n : ℕ) (x : Drained) (next : List Round → Heap → Drained)
      → Ended (suc n) x
      → ((ts : List Round) (h : Heap) → n ≤ done_rounds ts → HasEnded (next ts h))
      → HasEnded (and_then x next)
  unfolding Ended
  onwards n (none, h, ts) next e k = absurd e
  onwards n (some (some e), h, ts) next _ k = tt
  onwards n (some none, h, ts) next e k = k ts h (omega (arith, e))

  -- `waitForSequences` comes to an end, whatever the consumers and the others do, when as many of its
  -- rounds find its context done as there are sequences.
  pub wait_for_sequences-HasEnded :
      (ps : List ℕ) (ts : List Round) (h : Heap)
      → length ps ≤ done_rounds ts
      → HasEnded (wait_for_sequences ts ps target h)
  unfolding wait_for_sequences
  wait_for_sequences-HasEnded [] ts h le = tt
  wait_for_sequences-HasEnded (p ∷ ps) ts h le =
      onwards (length ps) (wait_for_sequence ts p target h)
        (λ ts' h'. wait_for_sequences ts' ps target h')
        (Ended-one (suc (length ps)) ts p h (omega arith) le)
        (λ ts' h' le'. wait_for_sequences-HasEnded ps ts' h' le')
