-- ===== src/Sink/Samples/Percentile.antt =====
-- kafka_sink_node.cpp: what calculate_percentile finds.
use ros2_dispatcher.Prelude.{
  ℕ, zero, suc, ◌+◌, ◌<◌, ◌≤◌, Bool, some, List, [], ◌∷◌, ◌≡◌, refl, subst, arith, leb, length,
  if◌then◌else◌, All, Bool-cases, inl, inr,
}
use ros2_dispatcher.Sink.Samples.{
  Doubles, insert, sort, sample_at, percentile_index, calculate_percentile,
}

-- How many of the samples pass a test.
abbrev pub how_many : (ℕ → Bool) → List ℕ → ℕ
how_many test [] = 0
how_many test (x ∷ xs) = if test x then suc (how_many test xs) else how_many test xs

how_many-insert :
    (test : ℕ → Bool) (x : ℕ) (xs : List ℕ) → how_many test (insert x xs) ≡ how_many test (x ∷ xs)
unfolding insert
how_many-insert test x [] = refl
how_many-insert test x (y ∷ ys) = ground (arith, how_many-insert test x ys)

how_many-sort : (test : ℕ → Bool) (xs : List ℕ) → how_many test (sort xs) ≡ how_many test xs
unfolding sort
how_many-sort test [] = refl
how_many-sort test (x ∷ xs) =
    ground (arith, how_many-insert test x (sort xs), how_many-sort test xs)

length-insert : (x : ℕ) (xs : List ℕ) → length (insert x xs) ≡ suc (length xs)
unfolding insert
length-insert x [] = refl
length-insert x (y ∷ ys) = ground (arith, length-insert x ys)

length-sort : (xs : List ℕ) → length (sort xs) ≡ length xs
unfolding sort
length-sort [] = refl
length-sort (x ∷ xs) = ground (arith, length-insert x (sort xs), length-sort xs)

abbrev IsAscending : List ℕ → Type 0
IsAscending [] = Unit
IsAscending (x ∷ xs) = All (λ y. x ≤ y) xs × IsAscending xs

All-weaken : (x y : ℕ) (xs : List ℕ) → x ≤ y → All (λ z. y ≤ z) xs → All (λ z. x ≤ z) xs
All-weaken x y [] h k = tt
All-weaken x y (z ∷ zs) h k = (omega (arith, k.0), All-weaken x y zs h k.1)

All-insert : (w x : ℕ) (xs : List ℕ) → w ≤ x → All (λ z. w ≤ z) xs → All (λ z. w ≤ z) (insert x xs)
unfolding insert
All-insert w x [] h k = (h, tt)
All-insert w x (y ∷ ys) h (k, ks) = elim (Bool-cases (leb x y)) [
  | inl e ↦ rw e (h, (k, ks))
  | inr e ↦ rw e (k, All-insert w x ys h ks)
]

insert-IsAscending : (x : ℕ) (xs : List ℕ) → IsAscending xs → IsAscending (insert x xs)
unfolding insert
insert-IsAscending x [] h = (tt, tt)
insert-IsAscending x (y ∷ ys) (h, hs) = elim (Bool-cases (leb x y)) [
  | inl e ↦ let le : x ≤ y = ground arith in rw e ((le, All-weaken x y ys le h), (h, hs))
  | inr e ↦
      let ge : y ≤ x = ground arith in rw e (All-insert y x ys ge h, insert-IsAscending x ys hs)
]

sort-IsAscending : (xs : List ℕ) → IsAscending (sort xs)
unfolding sort
sort-IsAscending [] = tt
sort-IsAscending (x ∷ xs) = insert-IsAscending x (sort xs) (sort-IsAscending xs)

how_many-length :
    (v : ℕ) (xs : List ℕ) → All (λ z. v ≤ z) xs → how_many (λ z. leb v z) xs ≡ length xs
how_many-length v [] h = refl
how_many-length v (x ∷ xs) (h, hs) = ground (arith, h, how_many-length v xs hs)

sample_at-above : (v w i : ℕ) (xs : List ℕ) → All (λ z. w ≤ z) xs → sample_at i xs ≡ some v → w ≤ v
unfolding sample_at
sample_at-above v w i [] h q = absurd (ground arith)
sample_at-above v w zero (x ∷ xs) (h, hs) q = ground (arith, h)
sample_at-above v w (suc i) (x ∷ xs) (h, hs) q = sample_at-above v w i xs hs q

sample_at-rank :
    (v i : ℕ) (xs : List ℕ)
    → IsAscending xs
    → sample_at i xs ≡ some v
    → (i < how_many (λ z. leb z v) xs) × (length xs ≤ i + how_many (λ z. leb v z) xs)
unfolding sample_at
sample_at-rank v i [] h q = absurd (ground arith)
sample_at-rank v zero (x ∷ xs) (h, hs) q =
    let same : x ≡ v = ground arith in
    ground (arith, same, how_many-length v xs (subst (λ y. All (λ z. y ≤ z) xs) same h))
sample_at-rank v (suc i) (x ∷ xs) (h, hs) q =
    ground (arith, sample_at-above v x i xs h q, sample_at-rank v i xs hs q)

sample_at-some : (i : ℕ) (xs : List ℕ) → i < length xs → (v : ℕ) × (sample_at i xs ≡ some v)
unfolding sample_at
sample_at-some i [] h = absurd (omega arith)
sample_at-some zero (x ∷ xs) h = (x, refl)
sample_at-some (suc i) (x ∷ xs) h = sample_at-some i xs (omega arith)

module _ (dbl : Doubles) where
  -- Where the index that the doubles give is one of the samples', the percentile is a number that
  -- more than so many samples do not exceed, and that at most so many samples are below.
  pub calculate_percentile-rank :
      (x : ℕ) (xs : List ℕ) (percent : ℕ)
      → percentile_index dbl percent (length (x ∷ xs)) < length (x ∷ xs)
      → (v : ℕ) × (calculate_percentile dbl (x ∷ xs) percent ≡ some v)
        × (percentile_index dbl percent (length (x ∷ xs)) < how_many (λ z. leb z v) (x ∷ xs))
        × (length (x ∷ xs)
            ≤ percentile_index dbl percent (length (x ∷ xs)) + how_many (λ z. leb v z) (x ∷ xs))
  unfolding calculate_percentile
  calculate_percentile-rank x xs percent h =
      let i = percentile_index dbl percent (length (x ∷ xs)) in
      let (v, q) = sample_at-some i (sort (x ∷ xs)) (rw (length-sort (x ∷ xs)) h) in
      let (below, above) = sample_at-rank v i (sort (x ∷ xs)) (sort-IsAscending (x ∷ xs)) q in
      (
        v,
        q,
        omega (arith, below, how_many-sort (λ z. leb z v) (x ∷ xs)),
        omega (arith, above, length-sort (x ∷ xs), how_many-sort (λ z. leb v z) (x ∷ xs)),
      )
