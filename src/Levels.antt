-- ===== src/Levels.antt =====
-- The level table of src/kernel.c: which level belongs to which difference of clocks, and which
-- ones are Boolean variables; and the constructors that go through it, `cdd_interval` and
-- `cdd_upper`.
--
-- New memory holds arbitrary contents, which the parameters of `Contents` stand for. That
-- the node managers get room for the new levels is in Managers.
pub mod Pairs
pub mod Table
pub mod Grow
pub mod Interval
pub mod Upper
pub mod Mark
use ucdd.Base.{
  ℕ, zero, suc, ◌+◌, ◌-◌, ◌*◌, ◌/◌, ltb, Bool, true, false, if◌then◌else◌, List, [], ◌∷◌, Option,
  none, some, ℤ, get_elem?, get_or, set,
}
use ucdd.Bounds.{bnd_u2l, bnd_l2u}
use ucdd.Dd.{Dd, cdd_neg}
use ucdd.Machine.{LevelInfo, type_cdd, type_bdd, Run, ok, fault, bad_read}
use ucdd.Nodes.{cdd_interval_from_level, cdd_upper_from_level, map_ok}

unfoldable pub cdd_difference_count : ℕ → ℕ
cdd_difference_count n = (n * (n - 1)) / 2

unfoldable pub cdd_difference : ℕ → ℕ → ℕ
cdd_difference c d = cdd_difference_count c + d

pub record Levels : Type 0 where
  pub clocknum : ℕ
  pub varnum : ℕ
  pub levelcnt : ℕ
  pub bdd_start_level : ℕ
  pub levelinfo : List LevelInfo
  pub diff2level : List ℕ

-- What `cdd_init` leaves.
abbrev pub no_levels : Levels
no_levels = record {
  clocknum = 0;
  varnum = 0;
  levelcnt = 0;
  bdd_start_level = 0;
  levelinfo = [];
  diff2level = [];
}

-- What memory holds that was not written yet.
pub record Contents : Type 0 where
  pub info : LevelInfo
  pub level : ℕ

-- `realloc` of an array to a length that is not smaller.
unfoldable pub realloc : {A : Type 0} → A → ℕ → List A → List A
realloc a zero xs = xs
realloc a (suc n) [] = a ∷ realloc a n []
realloc a (suc n) (x ∷ xs) = x ∷ realloc a n xs

-- The body of the inner loop.
unfoldable pub add_pair : ℕ → ℕ → Levels → Levels
add_pair i j s = record s {
  levelinfo =
      set s.levelinfo s.levelcnt
        (record { type = type_cdd; clock1 = i; clock2 = j; diff = cdd_difference i j });
  diff2level = set s.diff2level (cdd_difference i j) s.levelcnt;
  levelcnt = suc s.levelcnt;
}

-- The inner loop, for the first `k` values of `j`.
unfoldable pub add_row : ℕ → ℕ → Levels → Levels
add_row i zero s = s
add_row i (suc k) s = add_pair i k (add_row i k s)

-- The outer loop, for the first `n` values of `i` from `c` on.
unfoldable pub add_rows : ℕ → ℕ → Levels → Levels
add_rows c zero s = s
add_rows c (suc n) s = add_row (c + n) (c + n) (add_rows c n s)

unfoldable pub cdd_add_clocks : Contents → ℕ → Levels → Levels
cdd_add_clocks fresh n s =
    let count = cdd_difference_count (s.clocknum + n) in
    let diffs = count - cdd_difference_count s.clocknum in
    let room = record s {
      diff2level = realloc fresh.level count s.diff2level;
      levelinfo = realloc fresh.info (s.levelcnt + diffs) s.levelinfo;
    } in
    let filled = add_rows s.clocknum n room in record filled { clocknum = filled.clocknum + n }

-- `info->type = TYPE_BDD` for `n` entries from `k` on.
unfoldable pub mark_bdd : LevelInfo → ℕ → ℕ → List LevelInfo → List LevelInfo
mark_bdd default k zero infos = infos
mark_bdd default k (suc n) infos =
    mark_bdd default (suc k) n (set infos k (record (get_or infos k default) { type = type_bdd }))

-- The level of the first new variable, and the new table. `realloc` is taken to succeed.
unfoldable pub cdd_add_bddvar : Contents → ℕ → Levels → ℕ × Levels
cdd_add_bddvar fresh n s = (
  s.levelcnt,
  record s {
    levelcnt = s.levelcnt + n;
    varnum = s.varnum + n;
    levelinfo = mark_bdd fresh.info s.levelcnt n (realloc fresh.info (s.levelcnt + n) s.levelinfo);
    bdd_start_level = s.levelcnt;
  },
)

-- `cdd_diff2level[k]`
unfoldable pub level_at : Option ℕ → Run ℕ
level_at none = fault bad_read
level_at (some k) = ok k

unfoldable pub and_then : {A B : Type 0} → Run A → (A → Run B) → Run B
and_then (ok a) f = f a
and_then (fault e) f = fault e

unfoldable pub cdd_interval : ℕ → Levels → ℕ → ℕ → ℤ → ℤ → Run Dd
cdd_interval maxcddsize s i j low high =
    if ltb j i
    then and_then (level_at (get_elem? s.diff2level (cdd_difference i j)))
        (λ k. cdd_interval_from_level maxcddsize k low high)
    else and_then (level_at (get_elem? s.diff2level (cdd_difference j i)))
        (λ k. cdd_interval_from_level maxcddsize k (bnd_u2l high) (bnd_l2u low))

unfoldable pub cdd_upper : ℕ → Levels → ℕ → ℕ → ℤ → Run Dd
cdd_upper maxcddsize s i j bnd =
    if ltb j i
    then and_then (level_at (get_elem? s.diff2level (cdd_difference i j)))
        (λ k. cdd_upper_from_level maxcddsize k bnd)
    else map_ok cdd_neg (
        and_then (level_at (get_elem? s.diff2level (cdd_difference j i)))
          (λ k. cdd_upper_from_level maxcddsize k (bnd_u2l bnd)))
