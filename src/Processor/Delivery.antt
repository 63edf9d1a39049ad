-- ===== src/Processor/Delivery.antt =====
-- processor.go: what a batch delivers, against a description of it by lists.
use disruptor_go.Prelude.{
  ℕ, zero, suc, ◌+◌, ◌-◌, ◌^◌, ◌≤◌, ◌<◌, ◌≡◌, refl, ◌∙◌, ap, inl, inr, Bool, true, false, List, [],
  ◌∷◌, arith, ltb, ◌==◌, if◌then◌else◌, Bool-cases, Option, none, if_elim, ℕ_discrete, ap₂,
}
use mathlib.Core.Path.{fun_ext}
use disruptor_go.Int64.{of_nat, add, sub, add_one_lem, sub_lem}
use disruptor_go.Errors.{Error}
use disruptor_go.Ring.{RingBuffer, is_discarded}
use disruptor_go.Processor.Batch.{
  Handler, handle_event, or_return, plain_loop, last_loop, skipping_loop, process_batch,
}

-- The sequences of a batch that are not discarded, in order.
abbrev pub survivors {ℓ} : {T : Type ℓ} → RingBuffer T → ℕ → ℕ → List ℕ
survivors r zero q = []
survivors r (suc n) q =
    if is_discarded r q then survivors r n (q + 1) else q ∷ survivors r n (q + 1)

abbrev is_empty : List ℕ → Bool
is_empty [] = true
is_empty (q ∷ qs) = false

-- Each sequence with whether it is the last of its list.
abbrev pub mark_last : List ℕ → List (ℕ × Bool)
mark_last [] = []
mark_last (q ∷ qs) = (q, is_empty qs) ∷ mark_last qs

-- The handler's calls, in order, up to the first that fails.
abbrev pub deliver {ℓ κ} :
    {T : Type ℓ} {X : Type κ} → RingBuffer T → Handler T X → List (ℕ × Bool) → X → Option Error × X
deliver r f [] x = (none, x)
deliver r f ((q, end_of_batch) ∷ calls) x =
    or_return (handle_event r f q end_of_batch x) (λ x'. deliver r f calls x')

module _ {ℓ} {T : Type ℓ} (r : RingBuffer T) where
  -- `last` is the last sequence below `stop` that is not discarded, if there is one from `q` on.
  record IsLast (q stop last : ℕ) : Type 0 where
    after : (p : ℕ) → last < p → q ≤ p → p < stop → is_discarded r p ≡ true
    live : q ≤ last → is_discarded r last ≡ false
    below : last < stop

  IsLast-suc : (n q last : ℕ) → IsLast q (q + suc n) last → IsLast (q + 1) (q + 1 + n) last
  IsLast-suc n q last i = record {
    after = λ p a b c. i.after p a (omega arith) (omega arith);
    live = λ a. i.live (omega arith);
    below = omega (arith, i.below);
  }

  -- Past the last one nothing survives, and up to it something does.
  is_empty-survivors :
      (n q last : ℕ) → IsLast q (q + n) last → is_empty (survivors r n q) ≡ ltb last q
  is_empty-survivors zero q last i = ground (arith, i.below)
  is_empty-survivors (suc n) q last i =
      ground (arith, is_empty-survivors n (q + 1) last (IsLast-suc n q last i), i.after q, i.live)

  last_loop-IsLast :
      (n q stop cur : ℕ)
      → of_nat 0 ≤ q
      → cur + 1 ≡ q + n
      → cur < stop
      → stop ≤ of_nat (2 ^ 62)
      → ((p : ℕ) → cur < p → p < stop → is_discarded r p ≡ true)
      → IsLast q stop (last_loop n r cur)
  unfolding last_loop
  last_loop-IsLast zero q stop cur h0 e lt few gone = record {
    after = λ p a b c. gone p a c;
    live = λ a. absurd (omega arith);
    below = lt;
  }
  last_loop-IsLast (suc n) q stop cur h0 e lt few gone =
      let back : sub cur (of_nat 1) ≡ cur - 1 =
        sub_lem cur 1 (omega arith) (omega arith) (omega arith) in
      if_elim (IsLast q stop) (is_discarded r cur) (last_loop n r (sub cur (of_nat 1))) cur
        (λ hole. rw back (
          last_loop-IsLast n q stop (cur - 1) h0 (omega arith) (omega arith) few (λ p a b.
            elim (ℕ_discrete p cur) [
              | yes here ↦ rw here hole
              | no above ↦ gone p (omega arith) b
            ])))
        (λ full. record { after = λ p a b c. gone p a c; live = λ a. full; below = lt })

  -- The loop's test for the last sequence is the mark.
  marks :
      (n q last : ℕ)
      → IsLast q (q + suc n) last
      → is_discarded r q ≡ false
      → (q == last) ≡ is_empty (survivors r n (q + 1))
  marks n q last i full =
      ground (arith, is_empty-survivors n (q + 1) last (IsLast-suc n q last i), i.after q)

  module _ {κ} {X : Type κ} (f : Handler T X) where
    skipping-deliver :
        (n q last : ℕ) (x : X)
        → q + n ≤ of_nat (2 ^ 62)
        → IsLast q (q + n) last
        → skipping_loop n r f q last x ≡ deliver r f (mark_last (survivors r n q)) x
    unfolding skipping_loop
    skipping-deliver zero q last x few i = refl
    skipping-deliver (suc n) q last x few i =
        let step : add q (of_nat 1) ≡ q + 1 = add_one_lem q (omega arith) in
        let onwards : (y : X)
            → skipping_loop n r f (q + 1) last y
              ≡ deliver r f (mark_last (survivors r n (q + 1))) y =
          λ y. skipping-deliver n (q + 1) last y (omega arith) (IsLast-suc n q last i) in
        elim (Bool-cases (is_discarded r q)) [
          | inl hole ↦ rw (hole, step) (onwards x)
          | inr full ↦
              rw (full, step)
                (ap₂ (λ b k. or_return (handle_event r f q b x) k) (marks n q last i full)
                  (fun_ext onwards))
        ]

    plain-skipping :
        (n q end : ℕ) (x : X)
        → q + n ≤ of_nat (2 ^ 62)
        → ((p : ℕ) → q ≤ p → p < q + n → is_discarded r p ≡ false)
        → plain_loop n r f q end x ≡ skipping_loop n r f q end x
    unfolding plain_loop skipping_loop
    plain-skipping zero q end x few whole = refl
    plain-skipping (suc n) q end x few whole =
        let step : add q (of_nat 1) ≡ q + 1 = add_one_lem q (omega arith) in
        let onwards : (y : X) → plain_loop n r f (q + 1) end y ≡ skipping_loop n r f (q + 1) end y =
          λ y.
            plain-skipping n (q + 1) end y (omega arith)
              (λ p a b. whole p (omega arith) (omega arith)) in
        rw (whole q (omega arith) (omega arith), step)
          (ap (λ k. or_return (handle_event r f q (q == end) x) k) (fun_ext onwards))

    -- A batch from `next` to `end` calls the handler once for each sequence that is not discarded,
    -- in order, with the end of the batch marked at the last of these and nowhere else; the first
    -- failure ends the calls and is the result. The premise: a ring whose flag for discards is not
    -- set has no discarded sequence in the batch.
    pub process_batch-deliver :
        (next end : ℕ) (x : X)
        → of_nat 0 ≤ next
        → next ≤ end
        → end < of_nat (2 ^ 62)
        → (r.discarded ≡ false → (q : ℕ) → next ≤ q → q ≤ end → is_discarded r q ≡ false)
        → process_batch r f next end x
          ≡ deliver r f (mark_last (survivors r (end + 1 - next) next)) x
    unfolding process_batch
    process_batch-deliver next end x h0 le few tracked =
        if_elim (λ o. o ≡ deliver r f (mark_last (survivors r n next)) x) r.discarded
          (skipping_loop n r f next (last_loop n r end) x) (plain_loop n r f next end x)
          (λ some_gone. skipping-deliver n next (last_loop n r end) x (omega arith) (
            last_loop-IsLast n next (next + n) end h0 (omega arith) (omega arith) (omega arith)
              (λ p a b. absurd (omega arith))))
          (λ none_gone.
            plain-skipping n next end x (omega arith) (λ p a b. tracked none_gone p a (omega arith))
            ∙ skipping-deliver n next end x (omega arith) (record {
              after = λ p a b c. absurd (omega arith);
              live = λ a. tracked none_gone end le (omega arith);
              below = omega arith;
            }))
      where
        n : ℕ
        n = end + 1 - next
