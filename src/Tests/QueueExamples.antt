-- ===== src/Tests/QueueExamples.antt =====
-- The theorems on the queue of src/tarjan.c at a graph of three vertices.
use ucdd.Base.{
  ◌↔◌, ℕ, ◌-◌, ◌<◌, ◌≡◌, refl, false, true, arith, List, [], ◌∷◌, ◌++◌, ℤ, pos, negsuc, get_or,
}
use ucdd.Bounds.{bnd_get_limit, low_bit}
use ucdd.BellmanFord.{no_distance}
use ucdd.Tarjan.{TarjanGraph, Edge, Link, next_of, prev_of, insert, remove, populate_queue}
use ucdd.Tarjan.Queue.{IsQueue, enqueue-IsQueue, dequeue-IsQueue}
use ucdd.Tarjan.Short.{HasImprovement}
use ucdd.Tarjan.Populate.{Member, IsAscending, populate-IsQueue}

abbrev strict_of : ℤ → ℕ
strict_of b = 1 - low_bit b

-- Vertex 2 is followed by vertex 0; the element 3 closes the circle.
abbrev two_waiting : List Link
two_waiting =
    record { next = 3; prev = 2 }
    ∷ record { next = 9; prev = 9 }
    ∷ record { next = 0; prev = 3 }
    ∷ record { next = 2; prev = 0 }
    ∷ []

two_waiting-IsQueue : IsQueue 3 two_waiting (2 ∷ 0 ∷ [])
unfolding next_of prev_of
two_waiting-IsQueue = record {
  chain = (refl, refl, (refl, refl, (refl, refl)));
  distinct = ((λ e. omega (arith, e), tt), (tt, tt));
  vertices = (omega arith, (omega arith, tt));
  room = omega arith;
}

enqueue-IsQueue_example :
    IsQueue 3 (insert two_waiting (prev_of two_waiting 3) 1) ((2 ∷ 0 ∷ []) ++ (1 ∷ []))
enqueue-IsQueue_example =
    enqueue-IsQueue 3 two_waiting (2 ∷ 0 ∷ []) 1 two_waiting-IsQueue (omega arith)
      (λ e. omega (arith, e), (λ e. omega (arith, e), tt))

dequeue-IsQueue_example : (next_of two_waiting 3 ≡ 2) × IsQueue 3 (remove two_waiting 2) (0 ∷ [])
dequeue-IsQueue_example = dequeue-IsQueue 3 two_waiting 2 (0 ∷ []) two_waiting-IsQueue

abbrev no_edge : Edge
no_edge = record { v = 0; value = pos 0 }

-- The edge from 0 to 1 has the bound -1 and improves a distance, the edge from 1 to 2 does not.
abbrev short_edge : TarjanGraph
short_edge = record {
  dim = 3;
  count = 1 ∷ 1 ∷ 0 ∷ [];
  dist = no_distance ∷ no_distance ∷ no_distance ∷ [];
  edges =
      record { v = 1; value = negsuc 1 }
      ∷ no_edge
      ∷ record { v = 2; value = pos 5 }
      ∷ no_edge
      ∷ no_edge
      ∷ no_edge
      ∷ [];
  fifo = two_waiting;
  queued = false ∷ false ∷ true ∷ [];
}

populate-IsQueue_example :
    (q : List ℕ) × IsQueue 3 (populate_queue bnd_get_limit strict_of short_edge).fifo q
    × IsAscending q
    × ((u : ℕ)
        → u < 3
        → (Member u q ↔ HasImprovement bnd_get_limit strict_of short_edge u)
          × ((get_or (populate_queue bnd_get_limit strict_of short_edge).queued u false ≡ true)
              ↔ HasImprovement bnd_get_limit strict_of short_edge u))
populate-IsQueue_example = populate-IsQueue bnd_get_limit strict_of short_edge (omega arith)
