-- ===== src/Levels/Grow.antt =====
-- Adding clocks and variables keeps the level table in order.
use ucdd.Base.{
  ℕ, zero, suc, ◌+◌, ◌-◌, ◌<◌, ◌≤◌, ◌≡◌, refl, ◌∙◌, arith, ◌⊎◌, inl, inr, some, List, [], ◌∷◌,
  length, length-set, get_elem?, get_or, get_elem?-set_self, get_elem?-set_ne, set,
}
use Prim.Native.Nat.{max}
use ucdd.Machine.{LevelInfo, type_bdd}
use ucdd.Levels.{
  Levels, Contents, no_levels, realloc, mark_bdd, cdd_difference_count, add_rows, cdd_add_clocks,
  cdd_add_bddvar,
}
use ucdd.Levels.Pairs.{count_mono, difference-lt, Before}
use ucdd.Levels.Table.{IsTable, IsFilled, rows-IsFilled}

length-realloc :
    {A : Type 0} (a : A) (n : ℕ) (xs : List A) → length (realloc a n xs) ≡ max n (length xs)
unfolding realloc
length-realloc a zero xs = omega arith
length-realloc a (suc n) [] = omega (arith, length-realloc a n [])
length-realloc a (suc n) (x ∷ xs) = omega (arith, length-realloc a n xs)

get_elem?-realloc :
    {A : Type 0} (a : A) (n : ℕ) (xs : List A) (i : ℕ)
    → i < length xs
    → get_elem? (realloc a n xs) i ≡ get_elem? xs i
unfolding realloc
get_elem?-realloc a zero xs i h = refl
get_elem?-realloc a (suc n) [] i h = absurd (omega arith)
get_elem?-realloc a (suc n) (x ∷ xs) zero h = refl
get_elem?-realloc a (suc n) (x ∷ xs) (suc i) h = get_elem?-realloc a n xs i (omega arith)

-- The levels that were there are still the same.
abbrev pub Kept : Levels → Levels → Type 0
Kept s s' = (k : ℕ) → k < s.levelcnt → get_elem? s'.levelinfo k ≡ get_elem? s.levelinfo k

clock_lt : (a b c : ℕ) → Before a b c 0 → a < c
clock_lt a b c h = ground arith

-- `cdd_add_clocks` keeps the table in order, whatever new memory holds: every difference of two of
-- the old and new clocks has a level that knows them. It adds the clocks and keeps the old levels.
pub add_clocks-IsTable :
    (fresh : Contents) (n : ℕ) (s : Levels)
    → IsTable s
    → IsTable (cdd_add_clocks fresh n s)
      × Kept s (cdd_add_clocks fresh n s)
      × ((cdd_add_clocks fresh n s).clocknum ≡ s.clocknum + n)
unfolding cdd_add_clocks
add_clocks-IsTable fresh n s h =
    let c = s.clocknum in
    let count = cdd_difference_count (c + n) in
    let more = count_mono c (c + n) (omega arith) in
    let diffs = count - cdd_difference_count c in
    let start = record s {
      diff2level = realloc fresh.level count s.diff2level;
      levelinfo = realloc fresh.info (s.levelcnt + diffs) s.levelinfo;
    } in
    let room : length start.diff2level ≡ count =
      omega (arith, length-realloc fresh.level count s.diff2level, h.differences) in
    let space : length start.levelinfo + cdd_difference_count c ≡ start.levelcnt + count =
      omega (arith, length-realloc fresh.info (s.levelcnt + diffs) s.levelinfo, h.infos) in
    let first : IsFilled c n start room space c 0 start = record {
      pairs = λ a b ba before.
          let (k, small, level, info) = h.pairs a b ba (clock_lt a b c before) in
          let number = difference-lt a b c ba (clock_lt a b c before) in
          (
            k,
            small,
            get_elem?-realloc fresh.level count s.diff2level _ (omega (arith, h.differences))
                ∙ level,
            get_elem?-realloc fresh.info _ s.levelinfo k (omega (arith, h.infos)) ∙ info,
          );
      kept = λ k small. refl;
      count = omega arith;
      differences = refl;
      infos = refl;
      clocks = refl;
    } in
    let all = rows-IsFilled c n start room space n (omega arith) start first in
    let clocks : (add_rows c n start).clocknum ≡ c = all.clocks in
    (
      record {
        pairs = λ a b ba lt. all.pairs a b ba (inl (omega (arith, clocks)));
        differences = rw clocks (all.differences ∙ room);
        infos = omega (arith, all.infos, all.count, space);
      },
      λ k small.
          all.kept k small
          ∙ get_elem?-realloc fresh.info (s.levelcnt + diffs) s.levelinfo k
              (omega (arith, h.infos)),
      omega (arith, clocks),
    )

length-mark_bdd :
    (d : LevelInfo) (k n : ℕ) (xs : List LevelInfo) → length (mark_bdd d k n xs) ≡ length xs
unfolding mark_bdd
length-mark_bdd d k zero xs = refl
length-mark_bdd d k (suc n) xs = length-mark_bdd d (suc k) n (set xs k _) ∙ length-set xs k _

mark_bdd_below :
    (d : LevelInfo) (k n : ℕ) (xs : List LevelInfo) (j : ℕ)
    → j < k
    → get_elem? (mark_bdd d k n xs) j ≡ get_elem? xs j
unfolding mark_bdd
mark_bdd_below d k zero xs j h = refl
mark_bdd_below d k (suc n) xs j h =
    mark_bdd_below d (suc k) n (set xs k _) j (omega arith)
    ∙ get_elem?-set_ne xs k j _ (λ e. omega arith)

-- The level exists and is a Boolean variable.
abbrev pub IsVariable : List LevelInfo → ℕ → Type 0
IsVariable infos k = (info : LevelInfo) × (get_elem? infos k ≡ some info) × (info.type ≡ type_bdd)

mark_bdd-IsVariable :
    (d : LevelInfo) (k n : ℕ) (xs : List LevelInfo) (j : ℕ)
    → k + n ≤ length xs
    → k ≤ j
    → j < k + n
    → IsVariable (mark_bdd d k n xs) j
unfolding mark_bdd
mark_bdd-IsVariable d k zero xs j room le lt = absurd (omega arith)
mark_bdd-IsVariable d k (suc n) xs j room le lt = elim (le_cases k j le) [
  | inl eq ↦ (
    record (get_or xs k d) { type = type_bdd },
    rw (← eq) (
        mark_bdd_below d (suc k) n (set xs k _) k (omega arith)
        ∙ get_elem?-set_self xs k _ (omega arith)),
    refl,
  )
  | inr less ↦
      mark_bdd-IsVariable d (suc k) n (set xs k _) j (omega (arith, length-set xs k _)) less
        (omega arith)
]
  where
    le_cases : (m p : ℕ) → m ≤ p → (m ≡ p) ⊎ (suc m ≤ p)
    le_cases m p h = ground arith

-- `cdd_add_bddvar` keeps the table in order, whatever new memory holds. It returns the first of the
-- new levels, which are all Boolean variables, and keeps the old levels.
pub add_bddvar-IsTable :
    (fresh : Contents) (n : ℕ) (s : Levels)
    → IsTable s
    → IsTable (cdd_add_bddvar fresh n s).1
      × Kept s (cdd_add_bddvar fresh n s).1
      × ((k : ℕ)
          → (cdd_add_bddvar fresh n s).0 ≤ k
          → k < (cdd_add_bddvar fresh n s).0 + n
          → IsVariable (cdd_add_bddvar fresh n s).1.levelinfo k)
unfolding cdd_add_bddvar
add_bddvar-IsTable fresh n s h =
    let grown = realloc fresh.info (s.levelcnt + n) s.levelinfo in
    let size : length grown ≡ s.levelcnt + n =
      omega (arith, length-realloc fresh.info (s.levelcnt + n) s.levelinfo, h.infos) in
    let kept : Kept s (cdd_add_bddvar fresh n s).1 = λ k small.
      mark_bdd_below fresh.info s.levelcnt n grown k small
      ∙ get_elem?-realloc fresh.info _ s.levelinfo k (omega (arith, h.infos)) in
    (
      record {
        pairs = λ a b ba lt.
            let (k, small, level, info) = h.pairs a b ba lt in
            (k, omega arith, level, kept k small ∙ info);
        differences = h.differences;
        infos = length-mark_bdd fresh.info s.levelcnt n grown ∙ size;
      },
      kept,
      λ k le lt. mark_bdd-IsVariable fresh.info s.levelcnt n grown k (omega (arith, size)) le lt,
    )

-- The tables that calls of `cdd_add_clocks` and `cdd_add_bddvar` lead to from `cdd_init` on.
pub data Reachable : Levels → Type 0 where
  at_start : Reachable no_levels
  with_clocks :
      {s : Levels} (fresh : Contents) (n : ℕ) → Reachable s → Reachable (cdd_add_clocks fresh n s)
  with_variables :
      {s : Levels} (fresh : Contents) (n : ℕ) → Reachable s → Reachable (cdd_add_bddvar fresh n s).1

no_levels-IsTable : IsTable no_levels
unfolding cdd_difference_count
no_levels-IsTable = record {
  pairs = λ a b ba lt. absurd (omega arith);
  differences = refl;
  infos = refl;
}

-- In every table that calls of `cdd_add_clocks` and `cdd_add_bddvar` in any order lead to, every
-- difference of two clocks has a level that knows them, and the arrays have the right lengths.
pub Reachable-IsTable : (s : Levels) → Reachable s → IsTable s
Reachable-IsTable s at_start = no_levels-IsTable
Reachable-IsTable s (with_clocks fresh n h) =
    (add_clocks-IsTable fresh n _ (Reachable-IsTable _ h)).0
Reachable-IsTable s (with_variables fresh n h) =
    (add_bddvar-IsTable fresh n _ (Reachable-IsTable _ h)).0
