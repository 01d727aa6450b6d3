-- ===== src/Tests/GraphExamples.antt =====
-- The theorems on constraint graphs at a graph of three clocks.
use ucdd.Base.{
  ℕ, zero, suc, ◌+◌, ◌-◌, ◌<◌, ◌≡◌, refl, true, arith, List, [], ◌∷◌, ◌++◌, ℤ, pos, negsuc,
  if◌then◌else◌, ltb, length, get_or,
}
use ucdd.Bounds.{bnd_get_limit, low_bit}
use ucdd.Cache.Laws.{All}
use ucdd.BellmanFord.{
  Graph, Constraint, no_distance, cdd_bf_init, cdd_bf_push, cdd_bf_pop, cdd_bf_consistent,
}
use ucdd.BellmanFord.Stack.{live, pop-push}
use ucdd.BellmanFord.Potential.{Holds}
use ucdd.BellmanFord.Range.{IsShort, AreWithin, RunFits, consistent_solution}
use ucdd.BellmanFord.Complete.{solution-consistent}

abbrev strict_bit : ℤ → ℕ
strict_bit b = 1 - low_bit b

abbrev no_edge : Constraint
no_edge = record { i = 0; j = 0; value = pos 0 }

-- x1 - x0 < -1, x2 - x1 <= 2, x0 - x2 <= 0
abbrev triangle : Graph
triangle = record {
  dim = 3;
  count = 3;
  dist = no_distance ∷ no_distance ∷ no_distance ∷ [];
  edges =
      record { i = 0; j = 1; value = negsuc 1 }
      ∷ record { i = 1; j = 2; value = pos 5 }
      ∷ record { i = 2; j = 0; value = pos 1 }
      ∷ no_edge
      ∷ [];
}

triangle-consistent : (cdd_bf_consistent bnd_get_limit strict_bit triangle).0 ≡ true
unfolding cdd_bf_consistent ucdd.BellmanFord.rounds ucdd.BellmanFord.scan ucdd.BellmanFord.stable
    ucdd.BellmanFord.less ucdd.BellmanFord.add ucdd.BellmanFord.take bnd_get_limit low_bit
    ucdd.Base.◌+ℤ◌
triangle-consistent = refl

triangle-AreWithin : AreWithin 0 triangle.dist
triangle-AreWithin zero = ground arith
triangle-AreWithin (suc zero) = ground arith
triangle-AreWithin (suc (suc zero)) = ground arith
triangle-AreWithin (suc (suc (suc v))) = ground arith

triangle-IsShort : All (IsShort bnd_get_limit strict_bit 2) (live triangle)
unfolding bnd_get_limit low_bit ucdd.BellmanFord.take
triangle-IsShort = ground arith

consistent_solution_example :
    RunFits bnd_get_limit strict_bit triangle
    × (n : ℕ) × (x : ℕ → ℤ) × (0 < n)
    × All (Holds bnd_get_limit strict_bit n x) (live triangle)
unfolding ucdd.BellmanFord.take
consistent_solution_example =
    consistent_solution bnd_get_limit strict_bit 2 0 triangle triangle-IsShort triangle-AreWithin
      (omega arith) triangle-consistent

pop-push_example :
    (live (cdd_bf_push triangle 2 1 (pos 9))
      ≡ live triangle ++ (record { i = 2; j = 1; value = pos 9 } ∷ []))
    × (live (cdd_bf_pop (cdd_bf_push triangle 2 1 (pos 9))) ≡ live triangle)
pop-push_example = pop-push triangle 2 1 (pos 9) (omega arith)

-- The graph after a call that was not the first.
abbrev used_triangle : Graph
used_triangle = record triangle {
  dist =
      record { value = pos 5; strictness = 2 }
      ∷ record { value = negsuc 2; strictness = 0 }
      ∷ no_distance
      ∷ [];
}

unfoldable solution : ℕ → ℤ
solution v = get_or (pos 0 ∷ negsuc 3 ∷ pos 0 ∷ []) v (pos 0)

solution-Holds : All (Holds bnd_get_limit strict_bit 2 solution) (live used_triangle)
unfolding solution ucdd.BellmanFord.take ucdd.Base.◌+ℤ◌ ucdd.BellmanFord.Potential.scale
    bnd_get_limit low_bit
solution-Holds = omega arith

solution-consistent_example : (cdd_bf_consistent bnd_get_limit strict_bit used_triangle).0 ≡ true
unfolding ucdd.BellmanFord.take
solution-consistent_example =
    solution-consistent bnd_get_limit strict_bit used_triangle 2 solution refl (omega arith)
      (omega arith) solution-Holds
