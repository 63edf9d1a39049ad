-- ===== src/Loadtest/Drain.antt =====
-- cmd/loadtest/runner.go: waiting for the consumers, and collecting how they ended.
use disruptor_go.Prelude.{
  ℕ, ◌+◌, ◌≤◌, ◌≡◌, refl, arith, Bool, ltb, if◌then◌else◌, if_elim, List, [], ◌∷◌, All, Option,
  none, some,
}
use disruptor_go.Errors.{Error, cancelled}
use disruptor_go.Heap.{Heap, load}

-- A round of the waiting goroutine: what the others do before it looks at the store, and whether its
-- context is done.
pub record Round : Type 0 where
  pub before : Heap → Heap
  pub ctx_done : Bool

-- How a wait ends: `none` waits still; then the store and the rounds that are left.
abbrev pub Drained : Type 0
Drained = Option (Option Error) × Heap × List Round

-- The inner loop of `waitForSequences`.
unfoldable pub wait_for_sequence : List Round → ℕ → ℕ → Heap → Drained
wait_for_sequence [] p target h = (none, h, [])
wait_for_sequence (t ∷ ts) p target h =
    let h' = t.before h in
    let rest = wait_for_sequence ts p target h' in
    if ltb (load p h') target
    then (if t.ctx_done then (some (some cancelled), h', ts) else rest)
    else (some none, h', ts)

abbrev pub and_then : Drained → (List Round → Heap → Drained) → Drained
and_then (none, h, ts) next = (none, h, ts)
and_then (some (some e), h, ts) next = (some (some e), h, ts)
and_then (some none, h, ts) next = next ts h

-- waitForSequences
unfoldable pub wait_for_sequences : List Round → List ℕ → ℕ → Heap → Drained
unfolding wait_for_sequence
wait_for_sequences ts [] target h = (some none, h, ts)
wait_for_sequences ts (p ∷ ps) target h =
    and_then (wait_for_sequence ts p target h) (λ ts' h'. wait_for_sequences ts' ps target h')

-- The loop of `stopProcessors` over what the runs sent: the index and the error of the first that is
-- not nil. A run that was never started has `none`.
unfoldable pub first_failure : ℕ → List (Option (Option Error)) → Option (ℕ × Error)
first_failure i [] = none
first_failure i (none ∷ results) = first_failure (i + 1) results
first_failure i (some none ∷ results) = first_failure (i + 1) results
first_failure i (some (some e) ∷ results) = some (i, e)

-- The others never move a sequence back.
abbrev pub IsForward : Round → Type 0
IsForward t = (q : ℕ) (h : Heap) → load q h ≤ load q (t.before h)

-- The store only moved forward, and the rounds that are left are among those given.
record After (h : Heap) (x : Drained) : Type 0 where
  forward : (q : ℕ) → load q h ≤ load q x.1
  rounds : All IsForward x.2

-- A wait that ended with nil saw the sequence at the target.
Reached : ℕ → ℕ → Drained → Type 0
Reached p target (some none, h, ts) = target ≤ load p h
Reached p target (some (some e), h, ts) = e ≡ cancelled
Reached p target (none, h, ts) = Unit

-- A wait that ended with nil saw every sequence at the target, and they are there in the end.
abbrev pub AllReached : List ℕ → ℕ → Drained → Type 0
AllReached ps target (some none, h, ts) = All (λ p. target ≤ load p h) ps
AllReached ps target (some (some e), h, ts) = e ≡ cancelled
AllReached ps target (none, h, ts) = Unit

AllReached-cons :
    (ps : List ℕ) (p target : ℕ) (x : Drained)
    → target ≤ load p x.1
    → AllReached ps target x
    → AllReached (p ∷ ps) target x
AllReached-cons ps p target (some none, h, ts) le a = (le, a)
AllReached-cons ps p target (some (some e), h, ts) le a = a
AllReached-cons ps p target (none, h, ts) le a = tt

module _ (target : ℕ) where
  wait_one :
      (ts : List Round) (p : ℕ) (h : Heap)
      → All IsForward ts
      → After h (wait_for_sequence ts p target h)
        × Reached p target (wait_for_sequence ts p target h)
  unfolding wait_for_sequence Reached
  wait_one [] p h k = (record { forward = λ q. omega arith; rounds = tt }, tt)
  wait_one (t ∷ ts) p h k =
      let h' = t.before h in
      let (after, reached) = wait_one ts p h' k.1 in
      let now : (o : Option (Option Error)) → After h (o, h', ts) =
        λ o. record { forward = λ q. k.0 q h; rounds = k.1 } in
      if_elim Q (ltb (load p h') target)
        (if t.ctx_done then (some (some cancelled), h', ts) else wait_for_sequence ts p target h')
        (some none, h', ts)
        (λ behind.
          if_elim Q t.ctx_done (some (some cancelled), h', ts) (wait_for_sequence ts p target h')
            (λ over. (now (some (some cancelled)), refl))
            (λ on. (
              record {
                forward = λ q. omega (arith, k.0 q h, after.forward q);
                rounds = after.rounds;
              },
              reached,
            )))
        (λ there. (now (some none), ground (arith, there)))
    where
      Q : Drained → Type 0
      Q x = After h x × Reached p target x

  onwards :
      (p : ℕ) (ps : List ℕ) (h : Heap) (x : Drained) (next : List Round → Heap → Drained)
      → After h x
      → Reached p target x
      → ((ts : List Round) (h' : Heap)
          → All IsForward ts
          → After h' (next ts h') × AllReached ps target (next ts h'))
      → After h (and_then x next) × AllReached (p ∷ ps) target (and_then x next)
  unfolding Reached
  onwards p ps h (none, h', ts) next after r k = (after, tt)
  onwards p ps h (some (some e), h', ts) next after r k = (after, r)
  onwards p ps h (some none, h', ts) next after r k =
      let (later, rest) = k ts h' after.rounds in
      let still : target ≤ load p (next ts h').1 = omega (arith, r, later.forward p) in
      (
        record {
          forward = λ q. omega (arith, after.forward q, later.forward q);
          rounds = later.rounds;
        },
        AllReached-cons ps p target (next ts h') still rest,
      )

  wait_all :
      (ts : List Round) (ps : List ℕ) (h : Heap)
      → All IsForward ts
      → After h (wait_for_sequences ts ps target h)
        × AllReached ps target (wait_for_sequences ts ps target h)
  unfolding wait_for_sequences
  wait_all ts [] h k = (record { forward = λ q. omega arith; rounds = k }, tt)
  wait_all ts (p ∷ ps) h k =
      let (after, reached) = wait_one ts p h k in
      onwards p ps h (wait_for_sequence ts p target h)
        (λ ts' h'. wait_for_sequences ts' ps target h') after reached
        (λ ts' h' k'. wait_all ts' ps h' k')

-- `waitForSequences` ends with nil only once every one of its sequences is at the target or past it,
-- as they still are when it returns, and otherwise with the context's error, as long as the others
-- never move a sequence back.
pub wait_for_sequences-AllReached :
    (ts : List Round) (ps : List ℕ) (target : ℕ) (h : Heap)
    → All IsForward ts
    → AllReached ps target (wait_for_sequences ts ps target h)
wait_for_sequences-AllReached ts ps target h k = (wait_all target ts ps h k).1
