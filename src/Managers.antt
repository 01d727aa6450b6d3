-- ===== src/Managers.antt =====
-- The node managers of src/kernel.c: one for the BDD nodes, and one for the CDD nodes of each arity,
-- which is made when it is first needed; and how they get tables for new levels. An allocation
-- returns a fresh chunk; the case that `malloc` fails, which the code does not test, is left out.
pub mod Room
use ucdd.Base.{
  ℕ, zero, suc, ◌+◌, ◌-◌, ltb, if◌then◌else◌, List, [], ◌∷◌, ◌++◌, Option, none, some, map,
  get_elem?, set, replicate,
}
use ucdd.Machine.{Run, ok, fault, bad_read}
use ucdd.BellmanFord.{take}
use ucdd.Store.{SubTable, NodeManager, cdd_alloc_subtable, cdd_alloc_node}

-- The arrays and counters that are indexed by levels and arities.
pub record Managers (A B : Type 0) : Type 0 where
  pub levelcnt : ℕ
  pub maxcddsize : ℕ
  pub maxcddused : ℕ
  pub bddmanager : NodeManager A
  pub cddmanager : List (Option (NodeManager B))

-- A manager with an array for all levels; its sentinel is the first node of the first chunk.
abbrev pub bare_manager : {A : Type 0} → ℕ → NodeManager A
bare_manager levelcnt = record {
  freecnt = 0;
  chunkcnt = 0;
  alloccnt = 0;
  usedcnt = 0;
  deadcnt = 0;
  gbccnt = 0;
  free = [];
  subtables = replicate levelcnt none;
}

unfoldable pub cdd_alloc_nodemanager : {A : Type 0} → (ℕ → ℕ) → List ℕ → ℕ → Run (NodeManager A)
cdd_alloc_nodemanager {A} refs chunk levelcnt =
    elim (cdd_alloc_node {A = A} refs chunk (bare_manager levelcnt)) [
      | none ↦ fault bad_read
      | some (sentinel, man) ↦ ok man
    ]

-- `realloc` keeps the old array and adds `n` elements, which the loop sets to NULL.
unfoldable pub add_levels_to_nodemanager : {A : Type 0} → ℕ → ℕ → NodeManager A → NodeManager A
add_levels_to_nodemanager levelcnt n man = record man {
  subtables = take levelcnt man.subtables ++ replicate n none;
}

-- The loop over the managers below `n`.
unfoldable pub add_levels_below :
    {B : Type 0} → ℕ → ℕ → ℕ → List (Option (NodeManager B)) → List (Option (NodeManager B))
unfolding add_levels_to_nodemanager
add_levels_below levelcnt n zero mans = mans
add_levels_below levelcnt n (suc i) [] = []
add_levels_below levelcnt n (suc i) (none ∷ mans) = none ∷ add_levels_below levelcnt n i mans
add_levels_below levelcnt n (suc i) (some man ∷ mans) =
    some (add_levels_to_nodemanager levelcnt n man) ∷ add_levels_below levelcnt n i mans

-- `add_levels`, and the new number of levels, which its callers set.
unfoldable pub add_levels : {A B : Type 0} → ℕ → Managers A B → Managers A B
unfolding add_levels_to_nodemanager add_levels_below
add_levels n ms = record ms {
  levelcnt = ms.levelcnt + n;
  bddmanager = add_levels_to_nodemanager ms.levelcnt n ms.bddmanager;
  cddmanager = add_levels_below ms.levelcnt n ms.maxcddsize ms.cddmanager;
}

-- The new manager for nodes with `len` elements is entered.
unfoldable pub enter_manager :
    {A B : Type 0} → ℕ → Managers A B → Run (NodeManager B) → Run (NodeManager B × Managers A B)
enter_manager len ms (fault e) = fault e
enter_manager len ms (ok man) = ok (
  man,
  record ms {
    cddmanager = set ms.cddmanager len (some man);
    maxcddused = if ltb ms.maxcddused len then len else ms.maxcddused;
  },
)

module _ {A B : Type 0} (refs : ℕ → ℕ) (chunk : List ℕ) where
  -- The manager for nodes with `len` elements, of the entry of the array.
  unfoldable pub manager_from :
      ℕ → Managers A B → Option (Option (NodeManager B)) → Run (NodeManager B × Managers A B)
  unfolding enter_manager cdd_alloc_nodemanager
  manager_from len ms none = fault bad_read
  manager_from len ms (some none) =
      enter_manager len ms (cdd_alloc_nodemanager refs chunk ms.levelcnt)
  manager_from len ms (some (some man)) = ok (man, ms)

  unfoldable pub find_manager : ℕ → Managers A B → Run (NodeManager B × Managers A B)
  unfolding manager_from
  find_manager len ms = manager_from len ms (get_elem? ms.cddmanager len)

-- The table of a level, of the entry of the array. `density` is `HASH_DENSITY`.
unfoldable pub table_from :
    {B : Type 0}
    → ℕ
    → ℕ
    → NodeManager B
    → Option (Option (SubTable B))
    → Run (SubTable B × NodeManager B)
table_from density level man none = fault bad_read
table_from density level man (some none) = ok (cdd_alloc_subtable density level man)
table_from density level man (some (some tbl)) = ok (tbl, man)

unfoldable pub find_subtable :
    {B : Type 0} → ℕ → ℕ → NodeManager B → Run (SubTable B × NodeManager B)
unfolding table_from
find_subtable density level man = table_from density level man (get_elem? man.subtables level)
