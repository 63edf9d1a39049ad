-- ===== src/Loadtest/Report.antt =====
-- cmd/loadtest/runner.go: what the report sums up.
use disruptor_go.Prelude.{
  ℕ, ◌+◌, ◌-◌, ◌%◌, ◌^◌, ◌≤◌, ◌<◌, ◌≡◌, refl, arith, ltb, leb, if◌then◌else◌, List, [], ◌∷◌, ◌++◌,
  length, get_or, zero, suc, All,
}
use disruptor_go.Int64.{of_nat, sub}

-- The loop of `combineLatencies`.
unfoldable pub combine_latencies : List (List ℕ) → List ℕ
combine_latencies [] = []
combine_latencies (values ∷ groups) = values ++ combine_latencies groups

-- The index that `percentile` reads, of as many values, for what `int(math.Ceil(...))` gives.
abbrev pub index_of : ℕ → ℕ → ℕ
index_of n rank =
    let index = sub rank (of_nat 1) in
    let raised = if ltb index (of_nat 0) then of_nat 0 else index in
    if leb n raised then sub n (of_nat 1) else raised

-- `percentile`; `ceiled quantile n` is what `int(math.Ceil(quantile*float64(n)))` is, of Go's
-- floating-point numbers and package math.
unfoldable pub percentile {ℓ} : {Q : Type ℓ} → (Q → ℕ → ℕ) → List ℕ → Q → ℕ
percentile ceiled [] quantile = of_nat 0
percentile ceiled (v ∷ vs) quantile =
    let n = of_nat (length (v ∷ vs)) in
    get_or (v ∷ vs) (index_of n (ceiled quantile n) - of_nat 0) (of_nat 0)

-- The loop of `sumChecksums`.
unfoldable pub sum_from : ℕ → List ℕ → ℕ
sum_from sum [] = sum
sum_from sum (value ∷ values) = sum_from ((sum + value) % 2 ^ 64) values

-- sumChecksums
unfoldable pub sum_checksums : List ℕ → ℕ
unfolding sum_from
sum_checksums values = sum_from 0 values

-- What `sort.Slice` gives: each value is at most all that follow.
abbrev pub IsSorted : List ℕ → Type 0
IsSorted [] = Unit
IsSorted (v ∷ vs) = All (λ w. v ≤ w) vs × IsSorted vs

-- How many values are at most a bound, and how many are below it.
abbrev pub count_le : ℕ → List ℕ → ℕ
count_le x [] = 0
count_le x (v ∷ vs) = let rest = count_le x vs in if leb v x then suc rest else rest

abbrev pub count_lt : ℕ → List ℕ → ℕ
count_lt x [] = 0
count_lt x (v ∷ vs) = let rest = count_lt x vs in if ltb v x then suc rest else rest

All-get_or :
    (vs : List ℕ) (v i : ℕ) → All (λ w. v ≤ w) vs → i < length vs → v ≤ get_or vs i (of_nat 0)
All-get_or [] v i a lt = absurd (omega arith)
All-get_or (w ∷ ws) v zero a lt = a.0
All-get_or (w ∷ ws) v (suc i) a lt = All-get_or ws v i a.1 (omega arith)

count_lt-none : (v : ℕ) (vs : List ℕ) → All (λ w. v ≤ w) vs → count_lt v vs ≡ 0
count_lt-none v [] a = refl
count_lt-none v (w ∷ ws) a = ground (arith, a.0, count_lt-none v ws a.1)

-- Of sorted values, the one at an index is no less than those up to there, and no more than the
-- others.
get_or-counts :
    (vs : List ℕ) (i : ℕ)
    → IsSorted vs
    → i < length vs
    → (i + 1 ≤ count_le (get_or vs i (of_nat 0)) vs) × (count_lt (get_or vs i (of_nat 0)) vs ≤ i)
get_or-counts [] i s lt = absurd (omega arith)
get_or-counts (v ∷ vs) zero s lt = ground (arith, count_lt-none v vs s.0)
get_or-counts (v ∷ vs) (suc i) s lt =
    let (le, below) = get_or-counts vs i s.1 (omega arith) in
    ground (arith, All-get_or vs v i s.0 (omega arith), le, below)

-- The rank that a quantile asks for, of as many values: the first for none, and the last for more
-- than there are.
abbrev pub rank_of : ℕ → ℕ → ℕ
rank_of n rank =
    if leb rank (of_nat 0) then 1 else if leb (of_nat n) rank then n else rank - of_nat 0

index_of-rank_of :
    (n rank : ℕ)
    → 1 ≤ n
    → n < 2 ^ 62
    → 1 ≤ rank
    → rank < 2 ^ 64
    → (index_of (of_nat n) rank - of_nat 0) + 1 ≡ rank_of n rank
index_of-rank_of n rank h1 h2 h3 h4 = ground arith

rank_of-le : (n rank : ℕ) → 1 ≤ n → (1 ≤ rank_of n rank) × (rank_of n rank ≤ n)
rank_of-le n rank h = ground arith

-- `percentile` is the nearest rank: of sorted values, at least as many are at most the result as
-- the rank of the quantile, its product with their number rounded up and brought within 1 and their
-- number, and fewer are below it. There are values, fewer than 2^62, and the product rounded up is
-- an int64 other than the least.
pub percentile-nearest {ℓ} :
    {Q : Type ℓ} (ceiled : Q → ℕ → ℕ) (v : ℕ) (vs : List ℕ) (quantile : Q)
    → IsSorted (v ∷ vs)
    → length (v ∷ vs) < 2 ^ 62
    → 1 ≤ ceiled quantile (of_nat (length (v ∷ vs)))
    → ceiled quantile (of_nat (length (v ∷ vs))) < 2 ^ 64
    → let n = length (v ∷ vs) in
      let rank = rank_of n (ceiled quantile (of_nat n)) in
      (rank ≤ count_le (percentile ceiled (v ∷ vs) quantile) (v ∷ vs))
      × (count_lt (percentile ceiled (v ∷ vs) quantile) (v ∷ vs) < rank)
unfolding percentile
percentile-nearest ceiled v vs quantile s few low high =
    let n = length (v ∷ vs) in
    let c = ceiled quantile (of_nat n) in
    let at : (index_of (of_nat n) c - of_nat 0) + 1 ≡ rank_of n c =
      index_of-rank_of n c (omega arith) few low high in
    let fits = rank_of-le n c (omega arith) in
    let (le, lt) =
      get_or-counts (v ∷ vs) (index_of (of_nat n) c - of_nat 0) s (omega (arith, at, fits.1)) in
    (omega (arith, at, le), omega (arith, at, lt))

abbrev pub total : List ℕ → ℕ
total [] = 0
total (v ∷ vs) = v + total vs
