-- ===== src/Loadtest/Stride.antt =====
-- cmd/loadtest/runner.go: how the publishers share the events.
use native.Mathlib.Nat.{mod-lt, mod-le, mod-add-mod, mod-eq-sub-mod, mod-eq_of_lt, add-mod_right}
use disruptor_go.Prelude.{
  dec_lt, ℕ, zero, suc, ◌+◌, ◌-◌, ◌%◌, ◌^◌, ◌≤◌, ◌<◌, ◌≡◌, ◌∙◌, ap, arith, ◌&&◌, List, [], ◌∷◌, ltb,
  leb, ◌==◌, if◌then◌else◌, if_elim,
}
use disruptor_go.Int64.{of_nat, add, add_lem}

-- The indices that the loop's header runs through, of as many as are given.
unfoldable pub indices : ℕ → ℕ → ℕ → ℕ → List ℕ
indices zero producers events index = []
indices (suc n) producers events index =
    let rest = indices n producers events (add index producers) in
    if ltb index events then index ∷ rest else []

-- How often a number is in a list.
abbrev pub count : ℕ → List ℕ → ℕ
count i [] = 0
count i (j ∷ js) = if i == j then suc (count i js) else count i js

-- Within a stride of each other, numbers with the same remainder are the same.
near_lem : (r d p : ℕ) → r < p → d < p → (r + d) % p ≡ r → d ≡ 0
near_lem r d p hr hd e = elim (dec_lt (r + d) p) [
  | yes lt ↦ let same : (r + d) % p ≡ r + d = mod-eq_of_lt lt in omega (arith, same, e)
  | no ge ↦
      let back : (r + d) % p ≡ (r + d - p) % p = mod-eq-sub-mod (omega arith) in
      let low : (r + d - p) % p ≡ r + d - p = mod-eq_of_lt (omega arith) in
      omega (arith, back, low, e)
]

remainder_lem : (a b p : ℕ) → 1 ≤ p → a ≤ b → b < a + p → b % p ≡ a % p → b ≡ a
remainder_lem a b p pos le lt e =
    let whole : a + (b - a) ≡ b = omega arith in
    let split : (a % p + (b - a)) % p ≡ a % p =
      mod-add-mod a p (b - a) ∙ ap (λ x. x % p) whole ∙ e in
    let same : b - a ≡ 0 =
      near_lem (a % p) (b - a) p (mod-lt a (omega arith)) (omega arith) split in
    omega (arith, same)

module _ (p events : ℕ) where
  abbrev share : ℕ → ℕ → ℕ
  share i j = if leb (of_nat j) i && ltb i events && ((i - of_nat 0) % p == j % p) then 1 else 0

  share-step :
      (i j : ℕ)
      → 1 ≤ p
      → of_nat j < events
      → (if i == of_nat j then suc (share i (j + p)) else share i (j + p)) ≡ share i j
  share-step i j pos lt =
      let round : (j + p) % p ≡ j % p = add-mod_right j p in
      let near : of_nat j ≤ i → i < of_nat j + p → (i - of_nat 0) % p ≡ j % p → i - of_nat 0 ≡ j =
        λ a b e. remainder_lem j (i - of_nat 0) p pos (omega arith) (omega arith) e in
      let self : i ≡ of_nat j → (i - of_nat 0) % p ≡ j % p = λ e. ap (λ x. x % p) (omega arith) in
      ground (arith, round, near, self)

  indices-count :
      (n i j : ℕ)
      → 1 ≤ p
      → p < 2 ^ 63
      → events + p ≤ 2 ^ 64
      → events ≤ of_nat j + n
      → count i (indices n (of_nat p) events (of_nat j)) ≡ share i j
  unfolding indices
  indices-count zero i j h1 h2 h3 h4 = ground arith
  indices-count (suc n) i j h1 h2 h3 h4 =
      if_elim (λ js. count i js ≡ share i j) (ltb (of_nat j) events) _ []
        (λ lt.
          let step : add (of_nat j) (of_nat p) ≡ of_nat (j + p) =
            add_lem (of_nat j) p h2 (ground (arith, lt)) ∙ omega arith in
          rw step (
            ap (λ c. if i == of_nat j then suc c else c)
              (indices-count n i (j + p) h1 h2 h3 (omega (arith, h1, h4)))
            ∙ share-step i j h1 (ground (arith, lt))))
        (λ ge. ground (arith, ge))

  -- The publishers share the events out: of `p` of them, each index below the number of events is in
  -- the iterations of exactly one, the one whose number is its remainder, and there once; no other
  -- index is in the iterations of any. The number of events and of publishers together are within
  -- an int64, and the loop has rounds enough.
  pub indices-Share :
      (n id i : ℕ)
      → id < p
      → p < 2 ^ 63
      → events + p ≤ 2 ^ 64
      → events ≤ of_nat id + n
      → of_nat 0 ≤ i
      → count i (indices n (of_nat p) events (of_nat id))
        ≡ (if ltb i events && ((i - of_nat 0) % p == id) then 1 else 0)
  indices-Share n id i h1 h2 h3 h4 h0 =
      let own : id % p ≡ id = mod-eq_of_lt h1 in
      let low : (i - of_nat 0) % p ≤ i - of_nat 0 = mod-le (i - of_nat 0) p in
      indices-count n i id (omega arith) h2 h3 h4 ∙ ground (arith, own, low)
