-- ===== src/FromDbm.antt =====
-- `cdd_from_dbm` of src/cddop.c. What `dbm_analyzeForMinDBM` of the DBM library leaves in the bit matrix
-- `ok` is a parameter: a Boolean for each entry of the matrix.
pub mod Meaning
use ucdd.Base.{ℕ, zero, suc, ◌+◌, ◌*◌, Bool, true, false, ◌||◌, not, ltb, if◌then◌else◌, List, ℤ}
use ucdd.Bounds.{infinity, bnd_u2l}
use ucdd.Dd.{Dd, Elems, nil, elem, cddtrue, cddfalse, cdd_rglr, cdd_mask, cdd_neg_cond}
use ucdd.Machine.{Run, ok, LevelInfo, LevelType, type_cdd, type_bdd}
use ucdd.Nodes.{cdd_make_cdd_node, map_ok}
use ucdd.Levels.{Levels, and_then}
use ucdd.Relax.{read}

module _ (maxcddsize : ℕ) (table : Levels) (bits : ℕ → Bool) (dbm : List ℤ) (dim : ℕ) where
  -- The case of a lower bound, and maybe an upper one.
  unfoldable pub push_lower : ℕ → Bool → ℤ → Run ℤ → Dd → Run Dd
  unfolding and_then cdd_make_cdd_node
  push_lower k true l up c =
      and_then up λ u.
        cdd_make_cdd_node maxcddsize k (elem cddfalse l (elem c u (elem cddfalse infinity nil)))
  push_lower k false l up c = cdd_make_cdd_node maxcddsize k (elem cddfalse l (elem c infinity nil))

  -- The case of an upper bound only; the negation bit goes to the new node.
  unfoldable pub push_upper : ℕ → ℤ → Dd → Run Dd
  unfolding cdd_make_cdd_node map_ok
  push_upper k u c =
      map_ok (λ d. cdd_neg_cond d (cdd_mask c))
        (cdd_make_cdd_node maxcddsize k
          (elem (cdd_rglr c) u (elem (cdd_neg_cond cddfalse (cdd_mask c)) infinity nil)))

  -- `lo` and `hi`, on the level `k` of the difference of the clocks `i` and `j`.
  unfoldable pub push_bounds : ℕ → ℕ → ℕ → Bool → Bool → Dd → Run Dd
  unfolding push_lower push_upper and_then read
  push_bounds k i j true hi c =
      and_then (read dbm (j * dim + i)) λ l. push_lower k hi (bnd_u2l l) (read dbm (i * dim + j)) c
  push_bounds k i j false true c = and_then (read dbm (i * dim + j)) λ u. push_upper k u c
  push_bounds k i j false false c = ok c

  -- The body of the loop. Levels of variables and of clocks beyond the matrix are passed over.
  unfoldable pub push_level : ℕ → LevelInfo → LevelType → Dd → Run Dd
  unfolding push_bounds
  push_level k info type_bdd c = ok c
  push_level k info type_cdd c =
      if not (ltb info.clock1 dim) || not (ltb info.clock2 dim)
      then ok c
      else push_bounds k info.clock1 info.clock2 (bits (info.clock2 * dim + info.clock1))
          (bits (info.clock1 * dim + info.clock2)) c

  -- The loop over the levels below `n`, the last one first.
  unfoldable pub push_levels : ℕ → Dd → Run Dd
  unfolding push_level and_then read
  push_levels zero c = ok c
  push_levels (suc k) c =
      and_then (and_then (read table.levelinfo k) λ info. push_level k info info.type c)
        (push_levels k)

  unfoldable pub cdd_from_dbm : Run Dd
  unfolding push_levels
  cdd_from_dbm = push_levels table.levelcnt cddtrue
