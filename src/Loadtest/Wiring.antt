-- ===== src/Loadtest/Wiring.antt =====
-- cmd/loadtest/runner.go: how `startProcessors` connects the processors.
use disruptor_go.Prelude.{
  range, ℕ, zero, suc, ◌+◌, ◌-◌, ◌≤◌, ◌≡◌, refl, ap₂, subst, ◌∙◌, ap, arith, Bool, true, false,
  if◌then◌else◌, List, [], ◌∷◌, ◌++◌, map, Option, none, some, ltb, ◌⊎◌, inl, inr, if_elim,
}
use disruptor_go.Int64.{of_nat}
use disruptor_go.Errors.{Result, ok, err}
use disruptor_go.Heap.{Heap, new_sequence, initial_sequence}
use disruptor_go.Sequencer.{SequencerBase, add_gating_sequences}
use disruptor_go.Sequencer.Positions.{gating-add_gating_sequences}
use disruptor_go.Ring.{RingBuffer, base_of, add_gates, apply_options}
use disruptor_go.Barrier.{Reader, one, group, new_barrier}
use disruptor_go.Processor.Batch.{Handler}
use disruptor_go.Processor.Run.{new_batch_processor, with_max_batch_size}
use disruptor_go.Processor.Bounds.{base_of-with_base}
use disruptor_go.Poller.{heap, with_heap}
use disruptor_go.Loadtest.Processors.{
  Sampling, samples, record_latency, allocates, Started, ProcessorSet, next_barrier, and_others,
  start_loop, sequence_of, last_sequence, terminal_of, after_loop, start_processors,
}

-- What a processor of the command reads: the one before it in a pipeline, or the publications.
abbrev pub upstream : Bool → Option ℕ → ℕ → Reader
upstream true (some dependency) cursor = group (dependency ∷ [])
upstream true none cursor = one cursor
upstream false dependency cursor = one cursor

dependent-next_barrier :
    (pipeline : Bool) (dependency : Option ℕ) (b : SequencerBase)
    → ((next_barrier pipeline dependency b).dependent ≡ upstream pipeline dependency b.cursor)
      × ((next_barrier pipeline dependency b).cursor ≡ b.cursor)
unfolding next_barrier new_barrier
dependent-next_barrier true (some q) b = (refl, refl)
dependent-next_barrier true none b = (refl, refl)
dependent-next_barrier false q b = (refl, refl)

-- With a batch size of at least one, a processor of the command has that size and a new sequence.
new_batch_processor-ok {ℓ κ} :
    {T : Type ℓ} {X : Type κ} (f : Handler T X) (size : ℕ) (h : Heap)
    → of_nat 1 ≤ size
    → new_batch_processor (some f) (with_max_batch_size size ∷ []) h
      ≡ ok (
        record { handler = f; sequence = h.next; max_batch_size = size },
        (new_sequence initial_sequence h).1,
      )
unfolding new_batch_processor with_max_batch_size apply_options new_sequence
new_batch_processor-ok f size h le =
    let big : ltb size (of_nat 1) ≡ false = ground (arith, le) in rw (big, new_batch_processor) refl

-- The sequences that the producers wait for, of `suc n` processors with sequences from `k` on.
abbrev pub ends : Bool → ℕ → ℕ → List ℕ
ends pipeline k n = if pipeline then (k + n) ∷ [] else range k (suc n)

terminal_lem {ℓ κ} :
    {T : Type ℓ} {X : Type κ} (pipeline : Bool) (ss : List (Started T X)) (q : ℕ) (qs : List ℕ)
    → last_sequence ss ≡ some q
    → map sequence_of ss ≡ qs
    → terminal_of pipeline ss ≡ some (if pipeline then q ∷ [] else qs)
unfolding terminal_of
terminal_lem true ss q qs last all = rw (last, terminal_of) refl
terminal_lem false ss q qs last all = ap some all

allocates-true :
    (c : Sampling) (pipeline : Bool) (consumers index : ℕ)
    → (c.latency ≡ false) ⊎ (c.made (samples c) ≡ true)
    → allocates c pipeline consumers index ≡ true
unfolding allocates
allocates-true c pipeline consumers index (inl off) = rw (off, allocates) refl
allocates-true c pipeline consumers index (inr made) =
    if_elim (λ b. b ≡ true) (record_latency c pipeline consumers index) (c.made (samples c)) true
      (λ needed. made) (λ other. refl)

module _ {ℓ κ} {T : Type ℓ} {X : Type κ} (pipeline : Bool) (batch_size : ℕ) where
  -- Each of `n` processors has a sequence of its own, from `k` on, and reads what is upstream of it.
  abbrev pub Wired : ℕ → Option ℕ → ℕ → ℕ → List (Started T X) → Type 0
  Wired cursor dependency k zero [] = Unit
  Wired cursor dependency k zero (s ∷ ss) = ⊥
  Wired cursor dependency k (suc n) [] = ⊥
  Wired cursor dependency k (suc n) (s ∷ ss) =
      (s.barrier.dependent ≡ upstream pipeline dependency cursor)
      × (s.barrier.cursor ≡ cursor)
      × (sequence_of s ≡ k)
      × (s.processor.max_batch_size ≡ batch_size)
      × Wired cursor (some k) (k + 1) n ss

  -- What the loop returns, from a ring with the base `b`.
  abbrev Begun :
      SequencerBase
      → Option ℕ
      → ℕ
      → ℕ
      → Option (Result (List (Started T X) × RingBuffer T))
      → Type 0
  Begun b dependency k n none = ⊥
  Begun b dependency k n (some (err e)) = ⊥
  Begun b dependency k n (some (ok (ss, r))) =
      Wired b.cursor dependency k n ss
      × ((base_of r.sequencer).gating ≡ b.gating)
      × ((base_of r.sequencer).is_closed ≡ b.is_closed)

  Begun-and_others :
      (b : SequencerBase) (dependency : Option ℕ) (k n : ℕ) (s : Started T X)
      (x : Option (Result (List (Started T X) × RingBuffer T)))
      → s.barrier.dependent ≡ upstream pipeline dependency b.cursor
      → s.barrier.cursor ≡ b.cursor
      → sequence_of s ≡ k
      → s.processor.max_batch_size ≡ batch_size
      → Begun b (some k) (k + 1) n x
      → Begun b dependency k (suc n) (and_others s x)
  Begun-and_others b dependency k n s none d c q m rest = rest
  Begun-and_others b dependency k n s (some (err e)) d c q m rest = rest
  Begun-and_others b dependency k n s (some (ok (ss, r))) d c q m rest =
      ((d, c, q, m, rest.0), rest.1, rest.2)

  start_loop-Begun :
      (makes : ℕ → Bool) (n index : ℕ) (handlers : ℕ → Handler T X) (dependency : Option ℕ)
      (r : RingBuffer T)
      → ((i : ℕ) → makes i ≡ true)
      → of_nat 1 ≤ batch_size
      → Begun
          (base_of r.sequencer)
          dependency
          (heap r).next
          n
          (start_loop makes n index pipeline handlers batch_size dependency r)
  unfolding start_loop
  start_loop-Begun makes zero index handlers dependency r all h = (tt, refl, refl)
  start_loop-Begun makes (suc n) index handlers dependency r all h =
      let b = base_of r.sequencer in
      let h' = (new_sequence initial_sequence (heap r)).1 in
      let (reads, follows) = dependent-next_barrier pipeline dependency b in
      rw
        (
          all index,
          new_batch_processor-ok (handlers index) batch_size (heap r) h,
          Begun,
          start_loop,
        )
        (Begun-and_others b dependency (heap r).next n _ _ reads follows refl refl (
          subst
            (λ (c : SequencerBase). Begun c (some (heap r).next) c.heap.next n (
              start_loop makes n (index + 1) pipeline handlers batch_size (some (heap r).next)
                (with_heap h' r)))
            (base_of-with_base r.sequencer (record b { heap = h' }))
            (start_loop-Begun makes n (index + 1) handlers (some (heap r).next) (with_heap h' r) all
              h)))

  sequences-Wired :
      (cursor : ℕ) (dependency : Option ℕ) (k n : ℕ) (ss : List (Started T X))
      → Wired cursor dependency k n ss
      → map sequence_of ss ≡ range k n
  sequences-Wired cursor dependency k zero [] w = refl
  sequences-Wired cursor dependency k zero (s ∷ ss) w = absurd w
  sequences-Wired cursor dependency k (suc n) [] w = absurd w
  sequences-Wired cursor dependency k (suc n) (s ∷ ss) (d, c, q, m, w) =
      ap₂ (λ x xs. x ∷ xs) q (sequences-Wired cursor (some k) (k + 1) n ss w)

  last_sequence-Wired :
      (cursor : ℕ) (dependency : Option ℕ) (k n : ℕ) (ss : List (Started T X))
      → Wired cursor dependency k (suc n) ss
      → last_sequence ss ≡ some (k + n)
  unfolding last_sequence
  last_sequence-Wired cursor dependency k n [] w = absurd w
  last_sequence-Wired cursor dependency k zero (s ∷ []) (d, c, q, m, w) = ap some (q ∙ omega arith)
  last_sequence-Wired cursor dependency k zero (s ∷ t ∷ ss) (d, c, q, m, w) = absurd w
  last_sequence-Wired cursor dependency k (suc n) (s ∷ []) (d, c, q, m, w) = absurd w
  last_sequence-Wired cursor dependency k (suc n) (s ∷ t ∷ ss) (d, c, q, m, w) =
      last_sequence-Wired cursor (some k) (k + 1) n (t ∷ ss) w ∙ ap some (omega arith)

  terminal_of-Wired :
      (cursor : ℕ) (dependency : Option ℕ) (k n : ℕ) (ss : List (Started T X))
      → Wired cursor dependency k (suc n) ss
      → terminal_of pipeline ss ≡ some (ends pipeline k n)
  terminal_of-Wired cursor dependency k n ss w =
      terminal_lem pipeline ss (k + n) (range k (suc n))
        (last_sequence-Wired cursor dependency k n ss w)
        (sequences-Wired cursor dependency k (suc n) ss w)

  -- What `startProcessors` returns, of `suc n` processors.
  abbrev pub Ready : RingBuffer T → ℕ → Option (Result (ProcessorSet T X × RingBuffer T)) → Type 0
  Ready r n none = ⊥
  Ready r n (some (err e)) = ⊥
  Ready r n (some (ok (set, r'))) =
      Wired (base_of r.sequencer).cursor none (heap r).next (suc n) set.processors
      × (set.terminal ≡ ends pipeline (heap r).next n)
      × ((base_of r'.sequencer).gating ≡ (base_of r.sequencer).gating ++ set.terminal)

  after_loop-Ready :
      (r : RingBuffer T) (n : ℕ) (x : Option (Result (List (Started T X) × RingBuffer T)))
      → (base_of r.sequencer).is_closed ≡ false
      → Begun (base_of r.sequencer) none (heap r).next (suc n) x
      → Ready r n (after_loop pipeline x)
  unfolding add_gates
  after_loop-Ready r n none o b = absurd b
  after_loop-Ready r n (some (err e)) o b = absurd b
  after_loop-Ready r n (some (ok (ss, r'))) o (w, gates, closed) =
      let terminal = terminal_of-Wired (base_of r.sequencer).cursor none (heap r).next n ss w in
      let all = ends pipeline (heap r).next n in
      rw (terminal, after_loop, Ready)
        (
          w,
          refl,
          ap (λ (b : SequencerBase). b.gating)
                (base_of-with_base r'.sequencer
                  (add_gating_sequences (map some all) (base_of r'.sequencer)))
              ∙ gating-add_gating_sequences all (base_of r'.sequencer) (closed ∙ o)
              ∙ ap (λ gs. gs ++ all) gates,
        )

  -- On an open ring, with at least one consumer and a batch size of at least one, and if in the mode
  -- latency the slice for the samples can be made, `startProcessors` gives each processor a sequence
  -- of its own and the batch size. In a pipeline each reads the sequence of the one before it, and
  -- the first one the publications; otherwise all read the publications. The producers then wait
  -- for the last of a pipeline, or else for all of them, beside the gates that the ring had.
  pub start_processors-Ready :
      (c : Sampling) (consumers : ℕ) (handlers : ℕ → Handler T X) (r : RingBuffer T)
      → (c.latency ≡ false) ⊎ (c.made (samples c) ≡ true)
      → of_nat 1 ≤ consumers
      → of_nat 1 ≤ batch_size
      → (base_of r.sequencer).is_closed ≡ false
      → Ready r (consumers - of_nat 1) (start_processors c consumers pipeline handlers batch_size r)
  unfolding start_processors
  start_processors-Ready c consumers handlers r made h1 h2 o =
      let n : consumers - of_nat 0 ≡ suc (consumers - of_nat 1) = omega arith in
      rw (n, start_processors)
        (after_loop-Ready r (consumers - of_nat 1) _ o (
          start_loop-Begun (allocates c pipeline consumers) (suc (consumers - of_nat 1)) 0 handlers
            none r (λ i. allocates-true c pipeline consumers i made) h2))
