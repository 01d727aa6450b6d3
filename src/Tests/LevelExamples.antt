-- ===== src/Tests/LevelExamples.antt =====
-- The theorems on the level table at a table of three clocks and two variables.
use ucdd.Base.{
  ℤ, negsuc, Bool, ◌==◌, ◌||◌, ◌≢◌, length, List, ℕ, ◌+◌, ◌<◌, ◌≤◌, ◌≡◌, refl, subst, arith, inl,
  [], ◌∷◌, pos, get_or, ltb_ℤ,
}
use ucdd.Bounds.{infinity}
use ucdd.Dd.{Dd}
use ucdd.Dd.Meaning.{Valuation, eval}
use ucdd.Dd.WellFormed.{IsWf}
use ucdd.Machine.{LevelInfo, type_cdd, type_bdd, ok}
use ucdd.Levels.{
  Levels, Contents, no_levels, cdd_add_clocks, cdd_add_bddvar, cdd_interval, cdd_upper,
}
use ucdd.FromDbm.{cdd_from_dbm}
use ucdd.FromDbm.Meaning.{meets, from_dbm_correct}
use ucdd.Levels.Table.{IsTable}
use ucdd.Levels.Grow.{
  Kept, IsVariable, add_clocks-IsTable, add_bddvar-IsTable, at_start, with_clocks, with_variables,
  Reachable-IsTable,
}
use ucdd.Levels.Interval.{inside, difference_of, interval_correct}
use ucdd.Levels.Upper.{upper_correct}
use ucdd.Levels.Mark.{cdd_mark_clock, level_between, mark_clock_correct}

abbrev noise : LevelInfo
noise = record { type = type_bdd; clock1 = 77; clock2 = 78; diff = 79 }

abbrev fresh : Contents
fresh = record { info = noise; level = 99 }

abbrev three_clocks : Levels
three_clocks = record {
  clocknum = 3;
  varnum = 0;
  levelcnt = 3;
  bdd_start_level = 0;
  levelinfo =
      record { type = type_cdd; clock1 = 1; clock2 = 0; diff = 0 }
      ∷ record { type = type_cdd; clock1 = 2; clock2 = 0; diff = 1 }
      ∷ record { type = type_cdd; clock1 = 2; clock2 = 1; diff = 2 }
      ∷ [];
  diff2level = 0 ∷ 1 ∷ 2 ∷ [];
}

three_clocks_added : cdd_add_clocks fresh 3 no_levels ≡ three_clocks
unfolding cdd_add_clocks ucdd.Levels.add_rows ucdd.Levels.add_row ucdd.Levels.add_pair
    ucdd.Levels.realloc ucdd.Levels.cdd_difference_count ucdd.Levels.cdd_difference
three_clocks_added = refl

three_clocks-IsTable : IsTable three_clocks
three_clocks-IsTable =
    subst IsTable three_clocks_added (Reachable-IsTable _ (with_clocks fresh 3 at_start))

Reachable-IsTable_example : IsTable (cdd_add_bddvar fresh 2 (cdd_add_clocks fresh 3 no_levels)).1
Reachable-IsTable_example =
    Reachable-IsTable _ (with_variables fresh 2 (with_clocks fresh 3 at_start))

add_clocks-IsTable_example :
    IsTable (cdd_add_clocks fresh 2 three_clocks)
    × Kept three_clocks (cdd_add_clocks fresh 2 three_clocks)
    × ((cdd_add_clocks fresh 2 three_clocks).clocknum ≡ 3 + 2)
add_clocks-IsTable_example = add_clocks-IsTable fresh 2 three_clocks three_clocks-IsTable

add_bddvar-IsTable_example :
    IsTable (cdd_add_bddvar fresh 2 three_clocks).1
    × Kept three_clocks (cdd_add_bddvar fresh 2 three_clocks).1
    × ((k : ℕ)
        → (cdd_add_bddvar fresh 2 three_clocks).0 ≤ k
        → k < (cdd_add_bddvar fresh 2 three_clocks).0 + 2
        → IsVariable (cdd_add_bddvar fresh 2 three_clocks).1.levelinfo k)
add_bddvar-IsTable_example = add_bddvar-IsTable fresh 2 three_clocks three_clocks-IsTable

interval_correct_example :
    (d : Dd) × (cdd_interval 16 three_clocks 1 2 (pos 2) (pos 6) ≡ ok d)
    × IsWf (λ k. get_or three_clocks.levelinfo k noise) 3 d
    × ((v : Valuation) → eval v d ≡ inside (pos 2) (pos 6) (difference_of three_clocks v 1 2))
interval_correct_example =
    interval_correct three_clocks noise 16 1 2 (pos 2) (pos 6) three_clocks-IsTable (omega arith)
      (omega arith) (omega arith) (omega arith) (λ e. omega (arith, e)) (ground arith)
      (ground arith) (ground arith) (ground arith) (inl (ground arith))

upper_correct_example :
    (d : Dd) × (cdd_upper 16 three_clocks 2 1 (pos 5) ≡ ok d)
    × IsWf (λ k. get_or three_clocks.levelinfo k noise) 2 d
    × ((v : Valuation) → eval v d ≡ ltb_ℤ (difference_of three_clocks v 2 1) (pos 5))
upper_correct_example =
    upper_correct three_clocks noise 16 2 1 (pos 5) three_clocks-IsTable (omega arith) (omega arith)
      (omega arith) (omega arith) (λ e. omega (arith, e)) (ground arith) (ground arith)

mark_clock_correct_example :
    (vec' : List ℕ) × (cdd_mark_clock three_clocks (0 ∷ 0 ∷ 0 ∷ []) 1 ≡ ok vec')
    × (length vec' ≡ 3)
    × ((n : ℕ) → n < 3 → n ≢ 1 → get_or vec' (level_between three_clocks 1 n) 0 ≡ 1)
    × ((k : ℕ)
        → ((n : ℕ) → n < 3 → n ≢ 1 → level_between three_clocks 1 n ≢ k)
        → get_or vec' k 0 ≡ get_or (0 ∷ 0 ∷ 0 ∷ []) k 0)
mark_clock_correct_example =
    mark_clock_correct three_clocks 1 (0 ∷ 0 ∷ 0 ∷ []) three_clocks-IsTable (omega arith) refl

-- The first clock is at least 1 and below 3, and the second is not bounded.
abbrev matrix : List ℤ
matrix = pos 1 ∷ negsuc 0 ∷ pos 1 ∷ pos 6 ∷ pos 1 ∷ infinity ∷ infinity ∷ infinity ∷ pos 1 ∷ []

abbrev kept_bits : ℕ → Bool
kept_bits n = n == 1 || n == 3

from_dbm_correct_example :
    (d : Dd) × (cdd_from_dbm 16 three_clocks kept_bits matrix 3 ≡ ok d)
    × ((v : Valuation) → eval v d ≡ meets three_clocks kept_bits matrix 3 noise 3 v)
from_dbm_correct_example =
    from_dbm_correct three_clocks kept_bits matrix 3 noise 16 (omega arith) refl (omega arith)
