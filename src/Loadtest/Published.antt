-- ===== src/Loadtest/Published.antt =====
-- cmd/loadtest/runner.go: what a publisher that ends with nil has published.
use disruptor_go.Prelude.{
  ℕ, zero, suc, ◌+◌, ◌-◌, ◌%◌, ◌^◌, ◌≤◌, ◌<◌, ◌≡◌, refl, ◌∙◌, ap, ap₂, sym, subst, ◌≢◌, arith, Bool,
  false, ◌&&◌, List, [], ◌∷◌, Option, none, some, ltb, ◌==◌, if◌then◌else◌, Bool-cases,
  Option-cases, inl, inr,
}
use disruptor_go.Int64.{of_nat, add, to_u64, add_lem}
use disruptor_go.Errors.{Result, ok, err}
use disruptor_go.Heap.{update}
use disruptor_go.Single
use disruptor_go.Multi
use disruptor_go.Ring.{
  Sequencer, single, multi, seq_publish, RingBuffer, Ending, fine, out_of_range, get, next,
  publish_range,
}
use disruptor_go.Loadtest.Publisher.{
  LoadEvent, Load, Iteration, touch_payload, fill_event, divides, after_claim, or_end, publisher,
}
use disruptor_go.Loadtest.Stride.{indices}

-- The sequencer after the publication of one sequence.
abbrev pub published : ℕ → Sequencer → Sequencer
published sequence (single s) = single (Single.publish sequence sequence s)
published sequence (multi s) = multi (Multi.publish sequence sequence s)

-- The bytes of a payload, from an index on: the low bytes of the sequence and the index together.
abbrev pub stamped : ℕ → ℕ → List ℕ → List ℕ
stamped sequence i [] = []
stamped sequence i (b ∷ bs) = (sequence + i) % 2 ^ 8 ∷ stamped sequence (i + 1) bs

-- The event for an index, where one in so many is sampled if any is.
abbrev pub event_for : ℕ → ℕ → Bool → ℕ → ℕ → ℕ → LoadEvent → LoadEvent
event_for now base sample every index sequence event =
    let sampled = sample && ((index - of_nat 0) % (every - of_nat 0) == 0) in
    record {
      value = add base index;
      published_at = if sampled then now else event.published_at;
      sampled = sampled;
      payload = stamped sequence 0 event.payload;
    }

-- An iteration claims the next sequence, writes the event of the index where the ring points for it,
-- and publishes the sequence.
pub record IsPublished (base : ℕ) (sample : Bool) (every : ℕ) (t : Iteration) (index : ℕ)
    (l l' : Load) : Type 0 where
  pub sequence : ℕ
  pub pointer : ℕ
  pub ring : RingBuffer ℕ
  pub claims : next t.claim l.ring ≡ (some (ok sequence), ring)
  pub points :
      get (t.claimed (record { ring = ring; events = l.events })).ring sequence ≡ some pointer
  pub leaves :
      let l₁ = t.claimed (record { ring = ring; events = l.events }) in
      let l₂ = t.filled (record l₁ {
        events =
            update l₁.events pointer
              (event_for t.now base sample every index sequence (l₁.events pointer));
      }) in
      l' ≡ record l₂ { ring = record l₂.ring { sequencer = published sequence l₂.ring.sequencer } }

-- The iterations publish the events of the indices, one after the other, and no others.
pub data ArePublished (base : ℕ) (sample : Bool) (every : ℕ)
    : List ℕ → List Iteration → Load → Load → Type 0 where
  all_done : {ts : List Iteration} {l : Load} → ArePublished base sample every [] ts l l
  one :
      {index : ℕ} {js : List ℕ} {t : Iteration} {ts : List Iteration} {l l' l'' : Load}
      → IsPublished base sample every t index l l'
      → ArePublished base sample every js ts l' l''
      → ArePublished base sample every (index ∷ js) (t ∷ ts) l l''

low_byte : (sequence i : ℕ) → to_u64 (add sequence (of_nat i)) % 2 ^ 8 ≡ (sequence + i) % 2 ^ 8
low_byte sequence i = omega arith

touch_payload-stamped :
    (sequence i : ℕ) (bs : List ℕ) → touch_payload sequence i bs ≡ stamped sequence i bs
unfolding touch_payload
touch_payload-stamped sequence i [] = refl
touch_payload-stamped sequence i (b ∷ bs) =
    ap₂ (λ x xs. x ∷ xs) (low_byte sequence i) (touch_payload-stamped sequence (i + 1) bs)

divides_lem :
    (index every : ℕ)
    → of_nat 0 ≤ index
    → of_nat 1 ≤ every
    → divides index every ≡ ((index - of_nat 0) % (every - of_nat 0) == 0)
divides_lem index every h1 h2 =
    let low : ltb index (of_nat 0) ≡ false = ground arith in
    let pos : ltb every (of_nat 0) ≡ false = ground arith in rw (low, pos) refl

seq_publish_lem :
    (sequence : ℕ) (s : Sequencer) → seq_publish sequence sequence s ≡ published sequence s
unfolding seq_publish
seq_publish_lem sequence (single s) = refl
seq_publish_lem sequence (multi s) = refl

module _ (base : ℕ) (sample : Bool) (every : ℕ) where
  fill_event_lem :
      (now index sequence : ℕ) (event : LoadEvent)
      → of_nat 0 ≤ index
      → of_nat 1 ≤ every
      → fill_event now (add base index) (sample && divides index every) sequence event
        ≡ event_for now base sample every index sequence event
  unfolding fill_event
  fill_event_lem now index sequence event h1 h2 =
      rw (divides_lem index every h1 h2, touch_payload-stamped sequence 0 event.payload) refl

  module _ (t : Iteration) (index sequence : ℕ) (r : RingBuffer ℕ) (events : ℕ → LoadEvent) where
    abbrev claimed : Load
    claimed = t.claimed (record { ring = r; events = events })

    abbrev filled : ℕ → Load
    filled p = t.filled (record claimed {
      events =
          update claimed.events p
            (event_for t.now base sample every index sequence (claimed.events p));
    })

    abbrev left : ℕ → Load
    left p =
        let l = filled p in
        record l { ring = record l.ring { sequencer = published sequence l.ring.sequencer } }

    after_claim-gone :
        get claimed.ring sequence ≡ none
        → after_claim t base sample every index (some (ok sequence), r) events
          ≡ (some (some out_of_range), claimed)
    unfolding after_claim
    after_claim-gone e = rw (e, after_claim) refl

    after_claim-there :
        (p : ℕ)
        → of_nat 0 ≤ index
        → of_nat 1 ≤ every
        → get claimed.ring sequence ≡ some p
        → after_claim t base sample every index (some (ok sequence), r) events ≡ (none, left p)
    unfolding after_claim publish_range
    after_claim-there p h1 h2 e =
        let positive : (sample && (every == of_nat 0)) ≡ false = ground arith in
        rw
          (
            e,
            positive,
            fill_event_lem t.now index sequence (claimed.events p) h1 h2,
            seq_publish_lem sequence (filled p).ring.sequencer,
            after_claim,
          )
          refl

  -- An iteration after which the loop goes on has published the event of its index.
  after_claim-IsPublished :
      (t : Iteration) (index : ℕ) (l l' : Load) (found : Option (Result ℕ) × RingBuffer ℕ)
      → of_nat 0 ≤ index
      → of_nat 1 ≤ every
      → next t.claim l.ring ≡ found
      → after_claim t base sample every index found l.events ≡ (none, l')
      → IsPublished base sample every t index l l'
  unfolding after_claim
  after_claim-IsPublished t index l l' (none, r) h1 h2 claims e = absurd (cc e)
  after_claim-IsPublished t index l l' (some (err x), r) h1 h2 claims e = absurd (cc e)
  after_claim-IsPublished t index l l' (some (ok q), r) h1 h2 claims e =
      elim (Option-cases (get (claimed t index q r l.events).ring q)) [
        | inl gone ↦ absurd (cc (sym (after_claim-gone t index q r l.events gone) ∙ e))
        | inr (p, there) ↦ record {
          sequence = q;
          pointer = p;
          ring = r;
          claims = claims;
          points = there;
          leaves = ap (λ o. o.1) (sym e ∙ after_claim-there t index q r l.events p h1 h2 there);
        }
      ]

  or_end-ArePublished :
      (t : Iteration) (ts : List Iteration) (index : ℕ) (js : List ℕ) (l l'' : Load)
      (o : Option (Option Ending) × Load) (rest : Load → Option Ending × Load)
      → of_nat 0 ≤ index
      → of_nat 1 ≤ every
      → after_claim t base sample every index (next t.claim l.ring) l.events ≡ o
      → or_end o rest ≡ (some fine, l'')
      → ((x : Option Ending) → o.0 ≡ some x → x ≢ some fine)
      → ((l' : Load) → rest l' ≡ (some fine, l'') → ArePublished base sample every js ts l' l'')
      → ArePublished base sample every (index ∷ js) (t ∷ ts) l l''
  or_end-ArePublished t ts index js l l'' (some x, l') rest h1 h2 run e other onwards =
      absurd (other x refl (ap (λ o. o.0) e))
  or_end-ArePublished t ts index js l l'' (none, l') rest h1 h2 run e other onwards =
      one (after_claim-IsPublished t index l l' (next t.claim l.ring) h1 h2 refl run) (onwards l' e)

  -- Only the end of the loop is nil.
  after_claim-never_fine :
      (t : Iteration) (index : ℕ) (found : Option (Result ℕ) × RingBuffer ℕ)
      (events : ℕ → LoadEvent) (x : Option Ending)
      → of_nat 0 ≤ index
      → of_nat 1 ≤ every
      → (after_claim t base sample every index found events).0 ≡ some x
      → x ≢ some fine
  unfolding after_claim
  after_claim-never_fine t index (none, r) events x h1 h2 e nil = cc
  after_claim-never_fine t index (some (err y), r) events x h1 h2 e nil = cc
  after_claim-never_fine t index (some (ok q), r) events x h1 h2 e nil =
      elim (Option-cases (get (claimed t index q r events).ring q)) [
        | inl gone ↦ cc (ap (λ o. o.0) (sym (after_claim-gone t index q r events gone)) ∙ e, nil)
        | inr (p, there) ↦
            cc (ap (λ o. o.0) (sym (after_claim-there t index q r events p h1 h2 there)) ∙ e)
      ]

  -- A publisher that ends with nil has, for each of its indices in order, claimed the next sequence,
  -- written the event of the index (the value, whether it is sampled and then the time, and the
  -- bytes of the payload) where the ring points for the sequence, and published the sequence, and it
  -- has published nothing else. The indices and the stride are within an int64, the first index is
  -- not negative, and one of at least one events is sampled.
  pub publisher-ArePublished :
      (ts : List Iteration) (p events n j : ℕ) (l l'' : Load)
      → 1 ≤ p
      → p < 2 ^ 63
      → events + p ≤ 2 ^ 64
      → events ≤ of_nat j + n
      → of_nat 1 ≤ every
      → publisher ts (of_nat p) base events sample every (of_nat j) l ≡ (some fine, l'')
      → ArePublished base sample every (indices n (of_nat p) events (of_nat j)) ts l l''
  unfolding publisher indices
  publisher-ArePublished [] p events zero j l l'' h1 h2 h3 h4 h5 e =
      let ge : ltb (of_nat j) events ≡ false = ground arith in
      let same : l ≡ l'' = ap (λ o. o.1) e in
      subst (ArePublished base sample every [] [] l) same all_done
  publisher-ArePublished [] p events (suc n) j l l'' h1 h2 h3 h4 h5 e =
      let same : l ≡ l'' = ap (λ o. o.1) e in
      elim (Bool-cases (ltb (of_nat j) events)) [
        | inl lt ↦ absurd (cc (rw lt at e))
        | inr ge ↦ rw ge (subst (ArePublished base sample every [] [] l) same all_done)
      ]
  publisher-ArePublished (t ∷ ts) p events zero j l l'' h1 h2 h3 h4 h5 e =
      let ge : ltb (of_nat j) events ≡ false = ground arith in
      let same : l ≡ l'' = ap (λ o. o.1) (rw ge at e) in
      subst (ArePublished base sample every [] (t ∷ ts) l) same all_done
  publisher-ArePublished (t ∷ ts) p events (suc n) j l l'' h1 h2 h3 h4 h5 e =
      elim (Bool-cases (ltb (of_nat j) events)) [
        | inl lt ↦
            let step : add (of_nat j) (of_nat p) ≡ of_nat (j + p) =
              add_lem (of_nat j) p h2 (ground (arith, lt)) ∙ omega arith in
            rw (lt, step)
              (or_end-ArePublished t ts (of_nat j) (indices n (of_nat p) events (of_nat (j + p))) l
                l'' (after_claim t base sample every (of_nat j) (next t.claim l.ring) l.events)
                (λ l'. publisher ts (of_nat p) base events sample every (of_nat (j + p)) l')
                (omega arith) h5 refl (rw (lt, step) at e)
                (λ x.
                  after_claim-never_fine t (of_nat j) (next t.claim l.ring) l.events x (omega arith)
                    h5)
                (λ l'.
                  publisher-ArePublished ts p events n (j + p) l' l'' h1 h2 h3
                    (omega (arith, h1, h4)) h5))
        | inr ge ↦
            let same : l ≡ l'' = ap (λ o. o.1) (rw ge at e) in
            rw ge (subst (ArePublished base sample every [] (t ∷ ts) l) same all_done)
      ]
