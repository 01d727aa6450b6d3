-- ===== src/Lib.antt =====
-- UCDD, the decision diagram library of UPPAAL: clock difference diagrams (CDD), binary decision
-- diagrams (BDD) and mixtures of both. This library models its C core.
--
-- The program. src/kernel.c stores the nodes: it makes them unique through hash tables per level,
-- counts references and collects garbage. src/cddop.c implements the operations, which recurse over
-- diagrams and keep results in operation caches (src/cache.c, src/cache.h, src/relax.c). Some
-- operations ask whether a path of bounds is satisfiable, which src/tarjan.c and src/bellmanford.c
-- decide on a constraint graph. include/cdd/kernel.h holds the macros on bounds, pointers, and
-- elements, and include/cdd/cdd.h the interface.
--
-- The model. A `ddNode*` is a `Dd` (Dd): the negation bit and the node below, as data. Unique tables
-- make two pointers equal exactly when their diagrams are, so equality of pointers is the
-- function `same`, and a node constructor (Nodes) returns the diagram it stands for. The operations
-- run in a state monad with faults (Machine): the state holds the caches and the pending error, the
-- configuration holds what they only read, the level table, the largest arity and the addresses
-- of the pointers, which are arbitrary. `cdd_ref` and `cdd_deref` have no counterpart in the operations.
--
-- Files:
-- Base             lists, integers and Boolean tests that all files share
-- Bounds           the bound macros of include/cdd/kernel.h; proofs in Bounds/Laws
-- Dd               nodes, pointers, negation; Dd/Meaning is the function that a diagram stands
--                  for, Dd/WellFormed the invariant, Dd/Equality that `same` decides equality
-- Cache            the operation cache of src/cache.c; proofs in Cache/Laws
-- Machine          the state, the faults and the monad of src/cddop.c
-- Nodes            cdd_make_bdd_node, cdd_make_cdd_node, cdd_bddvar, cdd_interval_from_level and
--                  cdd_upper_from_level of src/kernel.c; proofs in Nodes/Laws
-- Apply            cdd_apply and cdd_apply_rec of src/cddop.c; Apply/Spec says what a call promises,
--                  Apply/Step, Rounds, Merge, Sight, Descend, Terminate and Hit treat its parts,
--                  Apply/Correct the whole call
-- Ops              cdd_and, cdd_xor, cdd_or and cdd_ite of src/cddop.c; proofs in Ops/Laws
-- BellmanFord      src/bellmanford.c; BellmanFord/Potential is the solution behind a consistent answer,
--                  BellmanFord/Stack the array of edges, BellmanFord/Order the order of distances,
--                  BellmanFord/Walks the paths of the graph, BellmanFord/Scan a round over the edges,
--                  BellmanFord/Complete the graphs that have a solution and BellmanFord/Range the runs
--                  whose sums are 32-bit integers
-- Reduce           cdd_bf_reduce of src/debug.c; Reduce/Graphs and Reduce/Clocks are what it relies on of
--                  BellmanFord, Reduce/Room when it can be applied, Reduce/Find, Reduce/Elements,
--                  Reduce/Rest and Reduce/Level its two loops and cases, Reduce/Correct the whole of it
-- Levels           the level table of src/kernel.c, cdd_interval and cdd_upper; Levels/Pairs numbers the
--                  pairs of clocks, Levels/Table is the invariant, Levels/Grow the calls that keep it,
--                  Levels/Interval and Levels/Upper say what the constructors build, Levels/Mark is
--                  cdd_mark_clock of src/cddop.c
-- Tarjan           the graph and the queue of src/tarjan.c; Tarjan/Links is what insertion and removal do to
--                  the arrays, Tarjan/Queue that they are a queue, Tarjan/Short what has_short looks for and
--                  Tarjan/Populate what populateQueue leaves
-- RelaxCache       the cache of src/relax.c
-- Walk             the loop over the children of a CDD node and the lookup in a cache with operation
--                  numbers, as cdd_replace and cdd_exist use them; Walk/Loop, Walk/Room, Walk/Children and
--                  Walk/Memo are the rules for them, in the logic of Ops/Yields (Apply/Frame is what
--                  cdd_apply leaves alone)
-- Replace          cdd_replace of src/cddop.c; Replace/Room says when it can be applied, Replace/Child and
--                  Replace/Correct what it yields
-- Relax, Exist     relax, cdd_exist and add_bound of src/cddop.c; Exist/Quantified and Exist/Occurs are the
--                  quantification of variables, Exist/Correct is cdd_exist on variables
-- Store            the node managers of src/kernel.c; Store/Refs is the counters of
--                  references, Store/Collect garbage collection, Store/Alloc
--                  allocation, Store/Rehash the growth of a table, Store/Chain the search in a chain of
--                  BDD nodes with Chain/Sorted and Chain/Stored
-- Mark             the marks of src/kernel.c, and cdd_nodecount and cdd_edgecount of src/cddop.c; Mark/Reach,
--                  Mark/Visit and Mark/Count are what marking visits, Mark/Correct the count, Mark/Unmark
--                  that no marks are left
-- FromDbm          cdd_from_dbm of src/cddop.c; FromDbm/Meaning says what the diagram stands for
-- Contains         cdd_contains of src/cddop.c; Contains/Sound says what a positive answer means
-- Extract          cdd_extract_bdd of src/cddop.c; Extract/Child is the child it goes on with and
--                  Extract/Correct what it returns
-- Managers         the managers of src/kernel.c by arity and their arrays by level; Managers/Room says which
--                  get entries for new levels
-- Start            cdd_init, cdd_done and cdd_ensure_running of src/kernel.c; Start/Outcomes says how
--                  cdd_init ends
-- Tests            inputs and runs
--
-- Meaning. A difference of clocks d enters a valuation by its position: 2 * d, or the odd number beside
-- it when d is not an integer. So a raw bound, strict or weak, is the first position
-- outside (Bounds/Laws). The differences of a valuation are
-- independent of each other, as in the diagrams, except where a theorem asks for a valuation whose
-- differences are those of clocks (Reduce/Clocks). A raw bound is an unbounded integer in the model;
-- the theorems ask for bounds up to INF where the range matters. The sum of two raw bounds wraps around in
-- 32 bits (Bounds), the distances of a constraint graph do not (BellmanFord/Range).
--
-- Bounds and fuel. `cdd_apply` recurses on fuel, and the sum of the heights plus one is enough; the
-- merge of two arrays of elements has their number as fuel, which is enough too. `cdd_replace` and,
-- on variables, `cdd_exist` recurse on fuel above the height of the diagram, and so do
-- `cdd_bf_reduce` and `cdd_extract_bdd`. `Config.maxcddsize` is arbitrary: where a theorem needs
-- room for nodes it asks for it.
--
-- Not modelled: in the node store cdd_rec_deref and cdd_reclaim, the search for CDD nodes; of the
-- start the terminals of cdd_add_tautologies and the hooks; the operations work on diagrams and not
-- on that store, since the unique tables make pointers equal exactly when their diagrams are. Of
-- src/cddop.c reduction by Tarjan, cdd_extract_dbm and cdd_remove_negative; of src/tarjan.c the
-- search of cdd_tarjan_consistent itself; the printing of src/print.c, which is output only; the C++
-- interface (src/cppext.cpp); and the DBM library that the operations call, whose functions are
-- parameters. What cdd_exist yields is proved for variables, not for clocks, for which relax adds
-- consequences.
pub mod Base
pub mod Bounds
pub mod Dd
pub mod Cache
pub mod RelaxCache
pub mod Machine
pub mod Nodes
pub mod Apply
pub mod Ops
pub mod Walk
pub mod Replace
pub mod Reduce
pub mod Relax
pub mod Exist
pub mod Store
pub mod Managers
pub mod Start
pub mod Mark
pub mod FromDbm
pub mod Contains
pub mod Extract
pub mod BellmanFord
pub mod Tarjan
pub mod Levels
pub mod Tests
