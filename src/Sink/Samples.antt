-- ===== src/Sink/Samples.antt =====
-- kafka_sink_node.cpp: calculate_percentile. A double is given by its 64 bits, and the arithmetic of
-- doubles is a parameter.
pub mod Percentile
use ros2_dispatcher.Prelude.{
  ℕ, zero, suc, ◌-◌, Bool, Option, none, some, List, [], ◌∷◌, leb, length, if◌then◌else◌, ℤ,
}

-- The conversions and the arithmetic of doubles; `hundredths 95` is the literal 0.95.
pub record Doubles : Type 0 where
  pub of_nat : ℕ → ℕ
  pub of_int : ℤ → ℕ
  pub hundredths : ℕ → ℕ
  pub multiply : ℕ → ℕ → ℕ
  pub divide : ℕ → ℕ → ℕ
  pub is_above_zero : ℕ → Bool
  pub to_size : ℕ → ℕ

-- std::sort
unfoldable pub insert : ℕ → List ℕ → List ℕ
insert x [] = x ∷ []
insert x (y ∷ ys) = if leb x y then x ∷ y ∷ ys else y ∷ insert x ys

unfoldable pub sort : List ℕ → List ℕ
unfolding insert
sort [] = []
sort (x ∷ xs) = insert x (sort xs)

unfoldable pub sample_at : ℕ → List ℕ → Option ℕ
sample_at i [] = none
sample_at zero (x ∷ xs) = some x
sample_at (suc i) (x ∷ xs) = sample_at i xs

module _ (dbl : Doubles) where
  unfoldable pub percentile_index : ℕ → ℕ → ℕ
  percentile_index percent size =
      dbl.to_size (dbl.multiply (dbl.hundredths percent) (dbl.of_nat (size - 1)))

  -- samples[index], none where there is no such sample.
  unfoldable pub calculate_percentile : List ℕ → ℕ → Option ℕ
  unfolding sort sample_at percentile_index
  calculate_percentile [] percent = some 0
  calculate_percentile (x ∷ xs) percent =
      sample_at (percentile_index percent (length (x ∷ xs))) (sort (x ∷ xs))
