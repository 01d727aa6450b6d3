-- ===== src/Exist.antt =====
-- `cdd_exist` of src/cddop.c: Boolean variables and clocks of a diagram are quantified away. Also
-- `add_bound`.
pub mod Quantified
pub mod Occurs
pub mod Correct
use ucdd.Base.{
  ℕ, zero, suc, ◌+◌, ◌-◌, ◌*◌, Bool, true, false, ◌&&◌, ◌||◌, ◌==◌, if◌then◌else◌, List, [], ◌∷◌, ℤ,
  ◌==ℤ◌, set, replicate,
}
use ucdd.Bounds.{infinity, minus_infinity, bnd_l2u}
use ucdd.Dd.{
  Dd, Node, terminal, xterm, bdd_node, cdd_node, cdd_isterminal, cdd_mask, cdd_neg_cond, node_of,
  level_of, cddfalse,
}
use ucdd.Machine.{
  Config, State, M, Run, ok, fault, bad_read, out_of_fuel, ◌>>=◌, return, stop, LevelInfo,
  LevelType, type_cdd, type_bdd,
}
use ucdd.Nodes.{cdd_bddvar, cdd_interval_from_level}
use ucdd.Apply.{lift}
use ucdd.Levels.{Levels}
use ucdd.Ops.{cdd_and, cdd_or, cdd_ite}
use ucdd.Walk.{iterate, memo, quant_slot}
use ucdd.Relax.{relax}

-- The loops that set `level_affected_by_reset`: the test of the first `n` elements, up to the first
-- one that passes.
unfoldable pub is_affected : (ℕ → Bool) → ℕ → List ℕ → Run Bool
is_affected test zero xs = ok false
is_affected test (suc n) [] = fault bad_read
is_affected test (suc n) (x ∷ xs) = if test x then ok true else is_affected test n xs

module _ (cfg : Config) (table : Levels) (levels_bool clocks : List ℕ)
    (num_bool_resets num_clock_resets : ℕ) where
  -- The constraint of the level is written to `rc`. What the code restores afterwards is the
  -- array of the caller, which is not changed here.
  unfoldable pub remember : LevelInfo → ℤ → ℤ → List ℤ → List ℤ
  remember info low up rc =
      set (set rc (info.clock2 * table.clocknum + info.clock1) (bnd_l2u low))
        (info.clock1 * table.clocknum + info.clock2) up

  -- The body of the loop for a level that is affected.
  unfoldable pub forget_child :
      ℕ → (List ℤ → Dd → M Dd) → LevelInfo → List ℤ → ℤ → ℤ → Dd → Dd → M Dd
  unfolding remember
  forget_child fuel rec info rc low up child res = do
    tmp1 ←
        relax cfg table clocks (remember info low up rc) fuel child low info.clock1 info.clock2 up
    tmp2 ← rec (remember info low up rc) tmp1
    cdd_or cfg res tmp2

  -- The body of the loop for another level.
  unfoldable pub keep_child : (Dd → M Dd) → ℕ → ℤ → ℤ → Dd → Dd → M Dd
  keep_child rec level low up child res = do
    tmp1 ← lift (cdd_interval_from_level cfg.maxcddsize level low up)
    tmp2 ← rec child
    tmp3 ← cdd_and cfg tmp1 tmp2
    cdd_or cfg res tmp3

  -- The `switch` over the type of the level, on the node below a pointer with the negation bit.
  unfoldable pub exist_level :
      ℕ → (List ℤ → Dd → M Dd) → LevelInfo → List ℤ → LevelType → Bool → Node → M Dd
  unfolding is_affected
  exist_level fuel rec info rc type_bdd neg (bdd_node k low high) = do
    tmp1 ← rec rc (cdd_neg_cond low neg)
    tmp2 ← rec rc (cdd_neg_cond high neg)
    affected ← lift (is_affected (λ x. x == k) num_bool_resets levels_bool)
    if affected then cdd_or cfg tmp1 tmp2 else cdd_ite cfg (cdd_bddvar k) tmp2 tmp1
  exist_level fuel rec info rc type_cdd neg (cdd_node k es) = do
    affected ←
        lift (is_affected (λ x. x == info.clock1 || x == info.clock2) num_clock_resets clocks)
    if affected
        then iterate (forget_child fuel rec info rc) neg minus_infinity es cddfalse
        else iterate (keep_child (rec rc) k) neg minus_infinity es cddfalse
  exist_level fuel rec info rc _ neg _ = stop bad_read

  -- One call of `cdd_exist_rec`. The hash is the address of the pointer.
  unfoldable pub exist_step : ℕ → (List ℤ → Dd → M Dd) → List ℤ → Dd → M Dd
  unfolding exist_level
  exist_step fuel rec rc node =
      if cdd_isterminal node
      then return node
      else (let info = cfg.info (level_of (node_of node)) in
          memo quant_slot (cfg.address node) node
            (exist_level fuel rec info rc info.type (cdd_mask node) (node_of node)))

  unfoldable pub cdd_exist_rec : ℕ → List ℤ → Dd → M Dd
  cdd_exist_rec zero rc node = stop out_of_fuel
  cdd_exist_rec (suc fuel) rc node = exist_step fuel (cdd_exist_rec fuel) rc node

  -- The array `removed_constraint` is filled with `INF`.
  unfoldable pub cdd_exist : ℕ → Dd → M Dd
  cdd_exist fuel node s =
      cdd_exist_rec fuel (replicate (table.clocknum * table.clocknum) infinity) node
        (record s { opid = suc s.opid })

unfoldable pub add_bound : Config → Dd → ℕ → ℤ → ℤ → M Dd
add_bound cfg c level low up =
    if low ==ℤ minus_infinity && up ==ℤ infinity
    then return c
    else (do tmp1 ← lift (cdd_interval_from_level cfg.maxcddsize level low up); cdd_and cfg c tmp1)
