-- ===== src/Nodes.antt =====
-- The constructors of nodes in src/kernel.c, `cdd_make_bdd_node` and `cdd_make_cdd_node`, on
-- diagrams: what they normalise and eliminate. The unique table that they search, and that makes
-- the node unique, does not show here: an equal diagram is the same pointer.
pub mod Laws
use ucdd.Base.{ℕ, Bool, true, false, ltb, ◌==◌, if◌then◌else◌, ℤ, ltb_ℤ, ◌==ℤ◌}
use ucdd.Bounds.{infinity, minus_infinity, bnd_u2l, bnd_l2u}
use ucdd.Dd.{
  Dd, Elems, ptr, bdd_node, cdd_node, nil, elem, size, same, cdd_mask, cdd_rglr, cdd_neg_cond,
  cdd_neg, cddtrue, cddfalse,
}
use ucdd.Machine.{Run, ok, fault, too_wide, bad_read}

unfoldable pub cdd_make_bdd_node : ℕ → Dd → Dd → Dd
cdd_make_bdd_node level low high =
    if same low high
    then low
    else let mask = cdd_mask low in
      cdd_neg_cond (ptr false (bdd_node level (cdd_rglr low) (cdd_neg_cond high mask))) mask

-- `elem[0].child`
unfoldable pub first_child : Elems → Run Dd
first_child nil = fault bad_read
first_child (elem c b es) = ok c

-- The `len` elements of the array, which are those of the list.
unfoldable pub cdd_make_cdd_node : ℕ → ℕ → Elems → Run Dd
unfolding first_child
cdd_make_cdd_node maxcddsize level es =
    if ltb maxcddsize (size es)
    then fault too_wide
    else if size es == 1
    then first_child es
    else ok (ptr false (cdd_node level es))

-- Negation under a result, where the code negates the pointer that a constructor returned.
unfoldable pub map_ok : (Dd → Dd) → Run Dd → Run Dd
map_ok f (ok d) = ok (f d)
map_ok f (fault e) = fault e

unfoldable pub cdd_bddvar : ℕ → Dd
unfolding cdd_make_bdd_node
cdd_bddvar level = cdd_make_bdd_node level cddfalse cddtrue

module _ (maxcddsize : ℕ) where
  unfoldable pub cdd_interval_from_level : ℕ → ℤ → ℤ → Run Dd
  unfolding cdd_make_cdd_node map_ok
  cdd_interval_from_level level low high =
      if ltb_ℤ minus_infinity low
      then cdd_make_cdd_node maxcddsize level (
          elem cddfalse low
            (elem cddtrue high (if ltb_ℤ high infinity then elem cddfalse infinity nil else nil)))
      else map_ok cdd_neg
          (cdd_make_cdd_node maxcddsize level (elem cddfalse high (elem cddtrue infinity nil)))

  unfoldable pub cdd_upper_from_level : ℕ → ℤ → Run Dd
  unfolding cdd_make_cdd_node map_ok
  cdd_upper_from_level level bnd =
      if bnd ==ℤ infinity
      then ok cddtrue
      else if bnd ==ℤ minus_infinity
      then ok cddfalse
      else map_ok cdd_neg
          (cdd_make_cdd_node maxcddsize level (elem cddfalse bnd (elem cddtrue infinity nil)))
