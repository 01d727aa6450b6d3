-- ===== src/Reduce.antt =====
-- src/debug.c: `cdd_bf_reduce`, which removes from a diagram the children whose bounds contradict
-- those on the path to them. The graph of the bounds on the path (BellmanFord) is the state. The
-- recursion takes fuel; the references that the code takes on its results do not show.
--
-- `dbm_LS_INFINITY`, `dbm_raw2bound` and `dbm_rawIsStrict` belong to the DBM library.
pub mod Graphs
pub mod Clocks
pub mod Room
pub mod Elements
pub mod Level
pub mod Find
pub mod Rest
pub mod Correct
use ucdd.Base.{ℕ, zero, suc, ◌*◌, Bool, not, if◌then◌else◌, List, replicate, ℤ, pos, ltb_ℤ, ◌==ℤ◌}
use ucdd.Bounds.{infinity, bnd_l2u}
use ucdd.Dd.{
  Dd, Node, Elems, ptr, bdd_node, cdd_node, nil, elem, cdd_mask, cdd_neg_cond, cdd_isterminal,
  level_of, same,
}
use ucdd.Machine.{Run, ok, fault, bad_read, out_of_fuel, LevelInfo, LevelType, type_cdd, type_bdd}
use ucdd.Nodes.{cdd_make_bdd_node, cdd_make_cdd_node}
use ucdd.BellmanFord.{Graph, Constraint, cdd_bf_init, cdd_bf_push, cdd_bf_pop, cdd_bf_consistent}

-- A sequence on the graph.
abbrev pub with_graph :
    {A B : Type 0} → Run (A × Graph) → (A → Graph → Run (B × Graph)) → Run (B × Graph)
with_graph r f = elim r [ ok (a, graph) ↦ f a graph | fault e ↦ fault e ]

abbrev pub result : Run (Dd × Graph) → Run Dd
result r = elim r [ ok (d, graph) ↦ ok d | fault e ↦ fault e ]

-- What the first loop ends with: the last child, or the first consistent child with its upper bound
-- and the elements after it.
pub data Sought : Type 0 where
  last_child : Dd → Sought
  first_consistent : Dd → ℤ → Elems → Sought

-- After the loop: the bound is popped, and the last child gets the bound `INF`.
unfoldable pub finish : Bool → Dd → Graph → Run (Elems × Graph)
finish mask prev graph = ok (elem (cdd_neg_cond prev mask) infinity nil, cdd_bf_pop graph)

module _ (raw2bound : ℤ → ℤ) (raw_is_strict : ℤ → ℕ) (ls_infinity : ℤ) where
  -- The `while` loop, with the bound of the current child pushed.
  unfoldable pub find_child : ℕ → ℕ → Dd → ℤ → Elems → Graph → Run (Sought × Graph)
  find_child clock1 clock2 c b nil graph =
      let answer = cdd_bf_consistent raw2bound raw_is_strict graph in
      if answer.0 then ok (first_consistent c b nil, answer.1) else fault bad_read
  find_child clock1 clock2 c b (elem c' b' es) graph =
      let answer = cdd_bf_consistent raw2bound raw_is_strict graph in
      if answer.0
      then ok (first_consistent c b (elem c' b' es), answer.1)
      else if b' ==ℤ ls_infinity
      then ok (last_child c', cdd_bf_pop answer.1)
      else find_child clock1 clock2 c' b' es (cdd_bf_push (cdd_bf_pop answer.1) clock1 clock2 b')

  -- The recursion for a child, under its upper bound if it has one.
  unfoldable pub reduce_child :
      (Dd → Graph → Run (Dd × Graph)) → ℕ → ℕ → ℤ → Dd → Graph → Run (Dd × Graph)
  reduce_child rec clock1 clock2 b c graph =
      if ltb_ℤ b ls_infinity
      then with_graph (rec c (cdd_bf_push graph clock1 clock2 b))
          (λ n after. ok (n, cdd_bf_pop after))
      else rec c graph

  -- The `for` loop: the elements that it pushes, from the lower bound `low` on.
  unfoldable pub reduce_rest :
      (Dd → Graph → Run (Dd × Graph))
      → ℕ
      → ℕ
      → Bool
      → Bool
      → ℤ
      → Elems
      → Dd
      → Graph
      → Run (Elems × Graph)
  unfolding finish reduce_child
  reduce_rest rec clock1 clock2 neg mask low nil prev graph =
      if low ==ℤ infinity then finish mask prev graph else fault bad_read
  reduce_rest rec clock1 clock2 neg mask low (elem c b es) prev graph =
      let answer =
        cdd_bf_consistent raw2bound raw_is_strict
          (cdd_bf_push (cdd_bf_pop graph) clock2 clock1 (bnd_l2u low)) in
      if low ==ℤ infinity
      then finish mask prev graph
      else if not answer.0
      then finish mask prev answer.1
      else with_graph (reduce_child rec clock1 clock2 b (cdd_neg_cond c neg) answer.1) λ n after.
        with_graph (reduce_rest rec clock1 clock2 neg mask b es n after) λ others end.
          ok (if same prev n then others else elem (cdd_neg_cond prev mask) low others, end)

  module _ (info : ℕ → LevelInfo) (maxcddsize : ℕ) where
    -- The node of the elements, negated by the mask.
    unfoldable pub make_masked : ℕ → Bool → Elems → Graph → Run (Dd × Graph)
    make_masked k mask es graph = elim (cdd_make_cdd_node maxcddsize k es) [
      | ok d ↦ ok (cdd_neg_cond d mask, graph)
      | fault e ↦ fault e
    ]

    -- What follows the first loop.
    unfoldable pub reduce_from :
        (Dd → Graph → Run (Dd × Graph)) → ℕ → Bool → Sought → Graph → Run (Dd × Graph)
    unfolding reduce_rest make_masked
    reduce_from rec k neg (last_child c) graph = rec (cdd_neg_cond c neg) graph
    reduce_from rec k neg (first_consistent c b es) graph =
        with_graph (rec (cdd_neg_cond c neg) graph) λ prev after.
          with_graph
            (reduce_rest rec (info k).clock1 (info k).clock2 neg (cdd_mask prev) b es prev after)
            (make_masked k (cdd_mask prev))

    -- The two cases of the `switch`.
    unfoldable pub reduce_level :
        (Dd → Graph → Run (Dd × Graph)) → LevelType → Bool → Node → Graph → Run (Dd × Graph)
    unfolding find_child reduce_from
    reduce_level rec type_bdd neg (bdd_node k low high) graph =
        with_graph (rec (cdd_neg_cond low neg) graph) λ n after.
          with_graph (rec (cdd_neg_cond high neg) after) λ m end. ok (cdd_make_bdd_node k n m, end)
    reduce_level rec type_cdd neg (cdd_node k (elem c b es)) graph =
        let clock1 = (info k).clock1 in
        let clock2 = (info k).clock2 in
        with_graph (find_child clock1 clock2 c b es (cdd_bf_push graph clock1 clock2 b))
          (reduce_from rec k neg)
    reduce_level rec type neg _ graph = fault bad_read

    unfoldable pub cdd_bf_reduce_rec : ℕ → Dd → Graph → Run (Dd × Graph)
    unfolding reduce_level
    cdd_bf_reduce_rec zero node graph = fault out_of_fuel
    cdd_bf_reduce_rec (suc fuel) (ptr m n) graph =
        if cdd_isterminal (ptr m n)
        then ok (ptr m n, graph)
        else reduce_level (cdd_bf_reduce_rec fuel) (info (level_of n)).type m n graph

    -- The arrays are on the stack: for `cdd_clocknum` vertices and its square of edges.
    unfoldable pub cdd_bf_reduce : ℕ → ℕ → Dd → Run Dd
    unfolding cdd_bf_reduce_rec
    cdd_bf_reduce fuel clocknum node =
        let unset : Constraint = record { i = 0; j = 0; value = pos 0 } in
        result (
          cdd_bf_reduce_rec fuel node
            (cdd_bf_init clocknum (replicate (clocknum * clocknum) unset)))
