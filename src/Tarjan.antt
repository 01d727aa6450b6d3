-- ===== src/Tarjan.antt =====
-- src/tarjan.c and src/tarjan.h: the constraint graph with a queue of vertices to scan, both lists
-- linked through arrays. `add` and `less` have the same text there as in src/bellmanford.c.
--
-- The arrays are lists that the caller provides. An access outside them, which the code does not
-- guard against, reads a default and writes nothing here.
pub mod Links
pub mod Queue
pub mod Short
pub mod Populate
use ucdd.Base.{
  ℕ, zero, suc, ◌+◌, ◌-◌, ◌*◌, Bool, true, false, ◌&&◌, ◌||◌, not, if◌then◌else◌, List, [], ◌∷◌, ℤ,
  pos, get_or, set, replicate,
}
use ucdd.BellmanFord.{Distance, no_distance, take, add, less}

-- `struct node`
pub record Link : Type 0 where
  pub next : ℕ
  pub prev : ℕ

-- `struct edge`
pub record Edge : Type 0 where
  pub v : ℕ
  pub value : ℤ

pub record TarjanGraph : Type 0 where
  pub dim : ℕ
  pub count : List ℕ
  pub dist : List Distance
  pub edges : List Edge
  pub fifo : List Link
  pub queued : List Bool

abbrev pub no_link : Link
no_link = record { next = 0; prev = 0 }

unfoldable pub next_of : List Link → ℕ → ℕ
next_of list i = (get_or list i no_link).next

unfoldable pub prev_of : List Link → ℕ → ℕ
prev_of list i = (get_or list i no_link).prev

unfoldable pub set_next : List Link → ℕ → ℕ → List Link
set_next list i v = set list i (record (get_or list i no_link) { next = v })

unfoldable pub set_prev : List Link → ℕ → ℕ → List Link
set_prev list i v = set list i (record (get_or list i no_link) { prev = v })

unfoldable pub insert : List Link → ℕ → ℕ → List Link
insert list at element =
    let succ = next_of list at in
    let list₁ = set_prev list succ element in
    let list₂ = set_next list₁ element succ in
    let list₃ = set_prev list₂ element at in set_next list₃ at element

unfoldable pub remove : List Link → ℕ → List Link
remove list at =
    let next = next_of list at in
    let prev = prev_of list at in set_prev (set_next list prev next) next prev

-- `cdd_tarjan_init`, on the arrays of edges and links that the caller provides.
unfoldable pub cdd_tarjan_init : ℕ → List Edge → List Link → TarjanGraph
cdd_tarjan_init dim edges fifo = record {
  dim = dim;
  count = replicate dim 0;
  dist = replicate dim no_distance;
  edges = edges;
  fifo = set_next (set_prev fifo dim dim) dim dim;
  queued = replicate dim false;
}

abbrev pub count_of : TarjanGraph → ℕ → ℕ
count_of graph i = get_or graph.count i 0

unfoldable pub cdd_tarjan_pop : TarjanGraph → ℕ → TarjanGraph
cdd_tarjan_pop graph i = record graph { count = set graph.count i (count_of graph i - 1) }

unfoldable pub drop : {A : Type 0} → ℕ → List A → List A
drop zero xs = xs
drop (suc n) [] = []
drop (suc n) (x ∷ xs) = drop n xs

-- The edges that leave `u`.
unfoldable pub edges_of : TarjanGraph → ℕ → List Edge
edges_of graph u = take (count_of graph u) (drop (u * graph.dim - u) graph.edges)

module _ (raw2bound : ℤ → ℤ) (raw_is_strict : ℤ → ℕ) where
  -- The edge from `u` improves the distance of its target.
  abbrev pub is_short : List Distance → ℕ → Edge → Bool
  is_short dist u edge =
      less (add raw2bound raw_is_strict (get_or dist u no_distance) edge.value)
        (get_or dist edge.v no_distance)

  unfoldable pub cdd_tarjan_push : TarjanGraph → ℕ → ℕ → ℤ → TarjanGraph
  cdd_tarjan_push graph i j value =
      let count = count_of graph i in
      let edge : Edge = record { v = j; value = value } in
      let wait = not (get_or graph.queued i false) && is_short graph.dist i edge in
      record graph {
        count = set graph.count i (suc count);
        edges = set graph.edges (i * graph.dim - i + count) edge;
        queued = if wait then set graph.queued i true else graph.queued;
        fifo = if wait then insert graph.fifo (prev_of graph.fifo graph.dim) i else graph.fifo;
      }

  -- The inner loop of `populateQueue`, up to the `break`.
  unfoldable pub has_short : List Distance → ℕ → List Edge → Bool
  has_short dist u [] = false
  has_short dist u (e ∷ es) = is_short dist u e || has_short dist u es

  -- The outer loop, for the first `n` vertices.
  unfoldable pub populate_upto : TarjanGraph → ℕ → TarjanGraph
  populate_upto graph zero = record graph {
    queued = replicate graph.dim false;
    fifo = set_next (set_prev graph.fifo graph.dim graph.dim) graph.dim graph.dim;
  }
  populate_upto graph (suc u) =
      let done = populate_upto graph u in
      if has_short graph.dist u (edges_of graph u)
      then record done {
        fifo = insert done.fifo (prev_of done.fifo graph.dim) u;
        queued = set done.queued u true;
      }
      else done

  unfoldable pub populate_queue : TarjanGraph → TarjanGraph
  populate_queue graph = populate_upto graph graph.dim
