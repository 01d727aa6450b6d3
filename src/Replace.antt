-- ===== src/Replace.antt =====
-- `cdd_replace` of src/cddop.c: the Boolean variables and the clocks of a diagram are renamed.
pub mod Room
pub mod Child
pub mod Correct
use ucdd.Base.{
  ℕ, zero, suc, Bool, true, false, List, Option, none, some, ℤ, get_elem?, if◌then◌else◌,
}
use ucdd.Bounds.{minus_infinity}
use ucdd.Dd.{
  Dd, Node, terminal, xterm, bdd_node, cdd_node, cdd_isterminal, cdd_mask, cdd_neg_cond, node_of,
  level_of, cddfalse,
}
use ucdd.Machine.{
  Config, State, M, Run, ok, bad_read, out_of_fuel, ◌>>=◌, return, stop, LevelInfo, LevelType,
  type_cdd, type_bdd,
}
use ucdd.Nodes.{cdd_bddvar}
use ucdd.Apply.{lift}
use ucdd.Levels.{Levels, level_at, and_then, cdd_interval}
use ucdd.Ops.{cdd_and, cdd_or, cdd_ite}
use ucdd.Walk.{iterate, memo, replace_slot}

module _ (cfg : Config) (table : Levels) (levels clocks : List ℕ) where
  -- `cdd_bddvar(levels[level])`
  unfoldable pub new_variable : ℕ → Run Dd
  unfolding level_at and_then
  new_variable k = and_then (level_at (get_elem? levels k)) (λ l. ok (cdd_bddvar l))

  -- `cdd_interval(clocks[info->clock1], clocks[info->clock2], low, up)`
  unfoldable pub new_interval : LevelInfo → ℤ → ℤ → Run Dd
  unfolding level_at and_then
  new_interval info low up = and_then (level_at (get_elem? clocks info.clock1)) λ i.
      and_then (level_at (get_elem? clocks info.clock2))
        λ j. cdd_interval cfg.maxcddsize table i j low up

  -- The body of the loop of the case TYPE_CDD.
  unfoldable pub replace_child : (Dd → M Dd) → LevelInfo → ℤ → ℤ → Dd → Dd → M Dd
  replace_child rec info low up child res = do
    tmp1 ← lift (new_interval info low up)
    tmp2 ← rec child
    tmp3 ← cdd_and cfg tmp1 tmp2
    cdd_or cfg res tmp3

  -- The `switch` over the type of the level, on the node below a pointer with the negation bit.
  unfoldable pub replace_level : (Dd → M Dd) → LevelInfo → LevelType → Bool → Node → M Dd
  replace_level rec info type_bdd neg (bdd_node k low high) = do
    tmp1 ← lift (new_variable k)
    tmp2 ← rec (cdd_neg_cond low neg)
    tmp3 ← rec (cdd_neg_cond high neg)
    cdd_ite cfg tmp1 tmp3 tmp2
  replace_level rec info type_cdd neg (cdd_node k es) =
      iterate (replace_child rec info) neg minus_infinity es cddfalse
  replace_level rec info _ neg _ = stop bad_read

  -- One call of `cdd_replace_rec`. The hash is the address of the pointer.
  unfoldable pub replace_step : (Dd → M Dd) → Dd → M Dd
  replace_step rec node =
      if cdd_isterminal node
      then return node
      else (let info = cfg.info (level_of (node_of node)) in
          memo replace_slot (cfg.address node) node
            (replace_level rec info info.type (cdd_mask node) (node_of node)))

  unfoldable pub cdd_replace_rec : ℕ → Dd → M Dd
  cdd_replace_rec zero node = stop out_of_fuel
  cdd_replace_rec (suc fuel) node = replace_step (cdd_replace_rec fuel) node

  unfoldable pub cdd_replace : ℕ → Dd → M Dd
  cdd_replace fuel node s = cdd_replace_rec fuel node (record s { opid = suc s.opid })
