-- ===== src/Managers/Room.antt =====
-- Which managers have room for the tables of new levels.
use ucdd.Base.{
  ℕ, zero, suc, ◌+◌, ◌<◌, ◌≤◌, ltb, if◌then◌else◌, ◌≡◌, refl, ap, ◌∙◌, arith, inl, inr, List, [],
  ◌∷◌, Option, none, some, Option-cases, get_elem?, set, length, length-append, length-replicate,
  replicate,
}
use mathlib.Core.Option.{some-injective}
use ucdd.Machine.{ok, fault, bad_read}
use ucdd.BellmanFord.{take}
use ucdd.Store.{SubTable, NodeManager, cdd_alloc_node, cdd_alloc_subtable}
use ucdd.Managers.{
  Managers, cdd_alloc_nodemanager, add_levels_to_nodemanager, add_levels_below, add_levels,
  enter_manager, manager_from, table_from, find_manager, find_subtable,
}

length-take : {A : Type 0} (n : ℕ) (xs : List A) → length xs ≡ n → length (take n xs) ≡ n
unfolding take
length-take zero xs h = refl
length-take (suc n) [] h = h
length-take (suc n) (x ∷ xs) h = ap suc (length-take n xs (omega arith))

read_inside :
    {C : Type 0} (xs : List C) (i : ℕ) → i < length xs → (x : C) × (get_elem? xs i ≡ some x)
read_inside [] i lt = absurd (omega arith)
read_inside (x ∷ xs) zero lt = (x, refl)
read_inside (x ∷ xs) (suc i) lt = read_inside xs i (omega arith)

read_outside : {C : Type 0} (xs : List C) (i : ℕ) → length xs ≤ i → get_elem? xs i ≡ none
read_outside [] i le = refl
read_outside (x ∷ xs) zero le = absurd (omega arith)
read_outside (x ∷ xs) (suc i) le = read_outside xs i (omega arith)

module _ {B : Type 0} where
  -- The array of the manager has an entry for each of `n` levels.
  abbrev pub HasLevels : ℕ → NodeManager B → Type 0
  HasLevels n man = length man.subtables ≡ n

  -- Every manager for nodes of an arity below `n` has an entry for each of `levels` levels.
  abbrev pub AllHave : ℕ → ℕ → List (Option (NodeManager B)) → Type 0
  AllHave n levels mans =
      (i : ℕ) (man : NodeManager B)
      → i < n
      → get_elem? mans i ≡ some (some man)
      → HasLevels levels man

  grown-HasLevels :
      (levelcnt n : ℕ) (man : NodeManager B)
      → HasLevels levelcnt man
      → HasLevels (levelcnt + n) (add_levels_to_nodemanager levelcnt n man)
  unfolding add_levels_to_nodemanager
  grown-HasLevels levelcnt n man h =
      let none_table : Option (SubTable B) = none in
      omega (
        arith,
        length-append (take levelcnt man.subtables) (replicate n none_table),
        length-take levelcnt man.subtables h,
        length-replicate n none_table,
      )

  below-AllHave :
      (levelcnt n k : ℕ) (mans : List (Option (NodeManager B)))
      → AllHave k levelcnt mans
      → AllHave k (levelcnt + n) (add_levels_below levelcnt n k mans)
  unfolding add_levels_below
  below-AllHave levelcnt n zero mans h i man lt e = absurd (omega arith)
  below-AllHave levelcnt n (suc k) [] h i man lt e = cc
  below-AllHave levelcnt n (suc k) (none ∷ mans) h zero man lt e =
      let gone : none ≡ some man = some-injective _ _ e in cc
  below-AllHave levelcnt n (suc k) (some old ∷ mans) h zero man lt e =
      let same = some-injective _ _ (some-injective _ _ e) in
      rw (← same) (grown-HasLevels levelcnt n old (h 0 old (omega arith) refl))
  below-AllHave levelcnt n (suc k) (none ∷ mans) h (suc i) man lt e =
      below-AllHave levelcnt n k mans (λ j m l. h (suc j) m (omega (arith, l))) i man (omega arith)
        e
  below-AllHave levelcnt n (suc k) (some old ∷ mans) h (suc i) man lt e =
      below-AllHave levelcnt n k mans (λ j m l. h (suc j) m (omega (arith, l))) i man (omega arith)
        e

  -- The loop leaves the managers from `k` on as they are.
  below_same :
      (levelcnt n k i : ℕ) (mans : List (Option (NodeManager B)))
      → k ≤ i
      → get_elem? (add_levels_below levelcnt n k mans) i ≡ get_elem? mans i
  unfolding add_levels_below
  below_same levelcnt n zero i mans le = refl
  below_same levelcnt n (suc k) i [] le = refl
  below_same levelcnt n (suc k) zero (m ∷ mans) le = absurd (omega arith)
  below_same levelcnt n (suc k) (suc i) (none ∷ mans) le =
      below_same levelcnt n k i mans (omega arith)
  below_same levelcnt n (suc k) (suc i) (some m ∷ mans) le =
      below_same levelcnt n k i mans (omega arith)

  length-below :
      (levelcnt n k : ℕ) (mans : List (Option (NodeManager B)))
      → length (add_levels_below levelcnt n k mans) ≡ length mans
  unfolding add_levels_below
  length-below levelcnt n zero mans = refl
  length-below levelcnt n (suc k) [] = refl
  length-below levelcnt n (suc k) (none ∷ mans) = ap suc (length-below levelcnt n k mans)
  length-below levelcnt n (suc k) (some m ∷ mans) = ap suc (length-below levelcnt n k mans)

  -- The table of the level is found or made.
  abbrev pub HasTable : ℕ → ℕ → NodeManager B → Type 0
  HasTable density level man =
      (tbl : SubTable B) × (man' : NodeManager B) × (find_subtable density level man
        ≡ ok (tbl, man'))

  levels-HasTable :
      (density level n : ℕ) (man : NodeManager B)
      → HasLevels n man
      → level < n
      → HasTable density level man
  unfolding find_subtable table_from
  levels-HasTable density level n man h lt =
      let (entry, found) = read_inside man.subtables level (omega arith) in
      elim (Option-cases entry) [
        | inl e ↦
            let made = cdd_alloc_subtable density level man in (made.0, made.1, rw (found, e) refl)
        | inr (tbl, e) ↦ (tbl, man, rw (found, e) refl)
      ]

  bare-HasLevels :
      (refs : ℕ → ℕ) (a : ℕ) (chunk : List ℕ) (levelcnt : ℕ)
      → (man : NodeManager B) × (cdd_alloc_nodemanager refs (a ∷ chunk) levelcnt ≡ ok man)
        × HasLevels levelcnt man
  unfolding cdd_alloc_nodemanager cdd_alloc_node
  bare-HasLevels refs a chunk levelcnt = (_, refl, length-replicate levelcnt none)

module _ {A B : Type 0} where
  -- Every manager has an entry for each level.
  pub record IsRoomy (ms : Managers A B) : Type 0 where
    pub arities : length ms.cddmanager ≡ suc ms.maxcddsize
    pub variables : length ms.bddmanager.subtables ≡ ms.levelcnt
    pub nodes : AllHave (suc ms.maxcddsize) ms.levelcnt ms.cddmanager

  -- For each arity below the largest and each level, the manager and its table are found or made.
  abbrev pub FindsTables : (ℕ → ℕ) → List ℕ → ℕ → Managers A B → Type 0
  FindsTables refs chunk density ms =
      (len level : ℕ)
      → len < ms.maxcddsize
      → level < ms.levelcnt
      → (man : NodeManager B) × (ms' : Managers A B) × (find_manager refs chunk len ms
          ≡ ok (man, ms'))
        × HasTable density level man

  -- With the new manager.
  unfoldable entered : ℕ → Managers A B → NodeManager B → Managers A B
  entered len ms man = record ms {
    cddmanager = set ms.cddmanager len (some man);
    maxcddused = if ltb ms.maxcddused len then len else ms.maxcddused;
  }

  found-HasTable :
      (refs : ℕ → ℕ) (a : ℕ) (chunk : List ℕ) (density : ℕ) (ms : Managers A B)
      → length ms.cddmanager ≡ suc ms.maxcddsize
      → AllHave ms.maxcddsize ms.levelcnt ms.cddmanager
      → FindsTables refs (a ∷ chunk) density ms
  unfolding find_manager manager_from enter_manager entered
  found-HasTable refs a chunk density ms arities all len level lt small =
      let (entry, found) = read_inside ms.cddmanager len (omega arith) in
      elim (Option-cases entry) [
        | inl e ↦
            let (man, made, h) = bare-HasLevels refs a chunk ms.levelcnt in
            (
              man,
              entered len ms man,
              rw (found, e, made) refl,
              levels-HasTable density level ms.levelcnt man h small,
            )
        | inr (man, e) ↦ (
          man,
          ms,
          rw (found, e) refl,
          levels-HasTable density level ms.levelcnt man (all len man lt (found ∙ ap some e)) small,
        )
      ]

  -- When every manager has an entry for each level, and a chunk has a node: after `add_levels` the
  -- manager for the BDD nodes has an entry for each old and new level, and for every arity below the
  -- largest and every level `cdd_make_cdd_node` finds or makes the manager and the table.
  pub add_levels-FindsTables :
      (refs : ℕ → ℕ) (a : ℕ) (chunk : List ℕ) (density n : ℕ) (ms : Managers A B)
      → IsRoomy ms
      → (length (add_levels n ms).bddmanager.subtables ≡ ms.levelcnt + n)
        × FindsTables refs (a ∷ chunk) density (add_levels n ms)
  unfolding add_levels
  add_levels-FindsTables refs a chunk density n ms r = (
    grown-HasLevels ms.levelcnt n ms.bddmanager r.variables,
    found-HasTable refs a chunk density (add_levels n ms)
        (length-below ms.levelcnt n ms.maxcddsize ms.cddmanager ∙ r.arities)
        (below-AllHave ms.levelcnt n ms.maxcddsize ms.cddmanager
          (λ i man lt e. r.nodes i man (omega (arith, lt)) e)),
  )

  -- When every manager has an entry for each level and there is one for the nodes of the largest
  -- arity: after `add_levels` that manager is found as it was, and the lookup of the table of a new
  -- level reads beyond the end of its array.
  pub add_levels_overflow :
      (refs : ℕ → ℕ) (chunk : List ℕ) (density n level : ℕ) (ms : Managers A B)
      (man : NodeManager B)
      → IsRoomy ms
      → get_elem? ms.cddmanager ms.maxcddsize ≡ some (some man)
      → ms.levelcnt ≤ level
      → level < (add_levels n ms).levelcnt
      → (find_manager refs chunk ms.maxcddsize (add_levels n ms) ≡ ok (man, add_levels n ms))
        × (find_subtable density level man ≡ fault bad_read)
  unfolding find_manager manager_from find_subtable table_from add_levels
  add_levels_overflow refs chunk density n level ms man r found new below =
      let kept = below_same ms.levelcnt n ms.maxcddsize ms.maxcddsize ms.cddmanager (omega arith) in
      let short = r.nodes ms.maxcddsize man (omega arith) found in
      (
        rw (kept, found) refl,
        rw (read_outside man.subtables level (omega (arith, short, new))) refl,
      )
