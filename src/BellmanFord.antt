-- ===== src/BellmanFord.antt =====
-- src/bellmanford.c and src/bellmanford.h: consistency of a set of bounds on differences of clocks,
-- by the algorithm of Bellman and Ford on distances that count strict bounds.
--
-- The arrays are lists that the caller provides. An access outside them, which the code does not
-- guard against, reads the zero distance and writes nothing here.
pub mod Potential
pub mod Order
pub mod Walks
pub mod Scan
pub mod Complete
pub mod Range
pub mod Stack
use ucdd.Base.{
  ℕ, zero, suc, ◌+◌, ◌-◌, Bool, true, false, ◌&&◌, ◌||◌, not, ◌==◌, ltb, if◌then◌else◌, List, [],
  ◌∷◌, ℤ, pos, ◌+ℤ◌, ltb_ℤ, ◌==ℤ◌, get_or, set, replicate,
}

-- The value and the number of strict bounds of a path, two fields of type `int32_t`. Here they are
-- unbounded, and sums do not wrap around; BellmanFord/Range is about when they cannot.
pub record Distance : Type 0 where
  pub value : ℤ
  pub strictness : ℕ

-- `constraint_t`
pub record Constraint : Type 0 where
  pub i : ℕ
  pub j : ℕ
  pub value : ℤ

pub record Graph : Type 0 where
  pub dim : ℕ
  pub count : ℕ
  pub dist : List Distance
  pub edges : List Constraint

abbrev pub no_distance : Distance
no_distance = record { value = pos 0; strictness = 0 }

-- The first `n` elements of an array.
unfoldable pub take : {A : Type 0} → ℕ → List A → List A
take zero xs = []
take (suc n) [] = []
take (suc n) (x ∷ xs) = x ∷ take n xs

unfoldable pub cdd_bf_init : ℕ → List Constraint → Graph
cdd_bf_init dim edges = record {
  dim = dim;
  count = 0;
  dist = replicate dim no_distance;
  edges = edges;
}

-- The assertions that the bound is below `dbm_LS_INFINITY`, that the graph does not have the edge yet
-- and that its ends differ have no counterpart: a build with NDEBUG leaves them out.
unfoldable pub cdd_bf_push : Graph → ℕ → ℕ → ℤ → Graph
cdd_bf_push graph i j c = record graph {
  count = suc graph.count;
  edges = set graph.edges graph.count (record { i = i; j = j; value = c });
}

unfoldable pub cdd_bf_pop : Graph → Graph
cdd_bf_pop graph = record graph { count = graph.count - 1 }

unfoldable pub less : Distance → Distance → Bool
less i j = ltb_ℤ i.value j.value || (i.value ==ℤ j.value && ltb j.strictness i.strictness)

-- `dbm_raw2bound` and `dbm_rawIsStrict` belong to the DBM library.
module _ (raw2bound : ℤ → ℤ) (raw_is_strict : ℤ → ℕ) where
  -- The sums are those of the source where they are in the range of `int32_t` (BellmanFord/Range).
  unfoldable pub add : Distance → ℤ → Distance
  add i e = record { value = i.value +ℤ raw2bound e; strictness = i.strictness + raw_is_strict e }

  -- The distance of the target through the edge, and whether it is an improvement.
  abbrev pub through : List Distance → Constraint → Distance
  through dist e = add (get_or dist e.i no_distance) e.value

  abbrev pub improves : List Distance → Constraint → Bool
  improves dist e = less (through dist e) (get_or dist e.j no_distance)

  -- The `for` loop over the edges, from a value of `found` on.
  unfoldable pub scan : List Constraint → List Distance → Bool → List Distance × Bool
  scan [] dist found = (dist, found)
  scan (e ∷ es) dist found =
      let better = improves dist e in
      scan es (if better then set dist e.j (through dist e) else dist)
        (if better then true else found)

  -- The `do` loop, for `v` up to the number of vertices; the code asserts that there is one.
  unfoldable pub rounds : ℕ → List Constraint → List Distance → List Distance × Bool
  unfolding scan
  rounds zero es dist = (dist, true)
  rounds (suc v) es dist =
      let next = scan es dist false in if not (v == 0) && next.1 then rounds v es next.0 else next

  -- The second `for` loop: no edge improves a distance.
  unfoldable pub stable : List Constraint → List Distance → Bool
  stable [] dist = true
  stable (e ∷ es) dist = if improves dist e then false else stable es dist

  -- The answer, and the graph with the new distances.
  unfoldable pub cdd_bf_consistent : Graph → Bool × Graph
  unfolding rounds
  cdd_bf_consistent graph =
      let edges = take graph.count graph.edges in
      let last = rounds graph.dim edges graph.dist in
      (if last.1 then stable edges last.0 else true, record graph { dist = last.0 })
