-- ===== src/Levels/Pairs.antt =====
-- The numbers of the pairs of clocks, `cdd_difference`: pairs in order have consecutive numbers.
use ucdd.Base.{ℕ, zero, suc, ◌+◌, ◌-◌, ◌*◌, ◌<◌, ◌≤◌, ◌≡◌, ◌≢◌, arith, refl, ap, ◌⊎◌, inl, inr}
use ucdd.Levels.{cdd_difference_count, cdd_difference}

pub count_suc : (n : ℕ) → cdd_difference_count (suc n) ≡ cdd_difference_count n + n
unfolding cdd_difference_count
count_suc zero = refl
count_suc (suc n) =
    let outer : suc (suc n) - 1 ≡ suc n = omega arith in
    let inner : suc n - 1 ≡ n = omega arith in
    let double : suc (suc n) * (suc (suc n) - 1) ≡ suc n * (suc n - 1) + 2 * suc n =
      rw (outer, inner) (omega arith) in
    omega (arith, double)

pub count_mono : (m n : ℕ) → m ≤ n → cdd_difference_count m ≤ cdd_difference_count n
count_mono zero zero h = omega arith
count_mono zero (suc n) h = omega (arith, count_suc n, count_mono zero n (omega arith))
count_mono (suc m) zero h = absurd (omega arith)
count_mono (suc m) (suc n) h = omega (arith, count_suc m, count_suc n, count_mono m n (omega arith))

-- The number of a pair is below the numbers of all pairs of a larger clock.
pub difference-lt : (a b i : ℕ) → b < a → a < i → cdd_difference a b < cdd_difference_count i
unfolding cdd_difference
difference-lt a b i h k = omega (arith, count_suc a, count_mono (suc a) i (omega arith))

-- The pairs before (i, j) are those of smaller clocks and those of i with a smaller second clock.
abbrev pub Before : ℕ → ℕ → ℕ → ℕ → Type 0
Before a b i j = (a < i) ⊎ ((a ≡ i) × (b < j))

pub difference-ne : (a b i j : ℕ) → b < a → Before a b i j → cdd_difference i j ≢ cdd_difference a b
unfolding cdd_difference
difference-ne a b i j h (inl lt) e = omega (arith, count_suc a, count_mono (suc a) i (omega arith))
difference-ne a b i j h (inr (same, lt)) e =
    let count : cdd_difference_count a ≡ cdd_difference_count i = ap cdd_difference_count same in
    omega (arith, count)
