-- ===== src/Apply.antt =====
-- `cdd_apply` of src/cddop.c: conjunction and exclusive or of two diagrams, with the negation bits
-- pushed down, the children of CDD nodes merged by their bounds, and the results cached.
-- The calls of `cdd_ref` and `cdd_deref` only keep nodes from being collected and do not change a
-- diagram; they have no counterpart here.
pub mod Spec
pub mod Step
pub mod Rounds
pub mod Merge
pub mod Sight
pub mod Descend
pub mod Terminate
pub mod Hit
pub mod Correct
pub mod Frame
use ucdd.Base.{
  ℕ, zero, suc, ◌+◌, ◌*◌, ◌%◌, ◌^◌, Bool, true, false, xor, not, ◌&&◌, ◌||◌, ◌==◌, ltb, leb,
  if◌then◌else◌, Option, none, some, ℤ, pos, ltb_ℤ, ◌==ℤ◌, set, length,
}
use Prim.Native.Nat.{min}
use ucdd.Bounds.{infinity}
use ucdd.Dd.{
  Dd, Node, Elems, ptr, nil, elem, bdd_node, cdd_node, same, cdd_mask, cdd_rglr, cdd_neg,
  cdd_neg_cond, cdd_isterminal, cddtrue, cddfalse, level_of, node_of, size,
}
use ucdd.Cache.{Entry, Cache, lookup, holds}
use ucdd.Machine.{
  Config, State, M, Run, ok, fault, bad_read, out_of_fuel, backed_off, ◌>>=◌, return, stop,
  LevelType, type_cdd, type_bdd,
}
use ucdd.Nodes.{cdd_make_bdd_node, cdd_make_cdd_node, map_ok}

pub data Op : Type 0 where
  cddop_and cddop_xor : Op

abbrev pub op_code : Op → ℕ
op_code cddop_and = 0
op_code cddop_xor = 1

-- `minimum`
abbrev pub minimum : ℤ → ℤ → ℤ
minimum a b = if ltb_ℤ a b then a else b

-- The first `switch`: the results that need no recursion.
unfoldable pub terminate : Op → Dd → Dd → Option Dd
terminate cddop_and l r =
    if same l r || same r cddtrue
    then some l
    else if same l cddfalse || (same r cddfalse || same l (cdd_neg r))
    then some cddfalse
    else if same l cddtrue
    then some r
    else none
terminate cddop_xor l r =
    if same l r
    then some cddfalse
    else if same l (cdd_neg r)
    then some cddtrue
    else if same l cddfalse
    then some r
    else if same r cddfalse
    then some l
    else if same l cddtrue
    then some (cdd_neg r)
    else if same r cddtrue
    then some (cdd_neg l)
    else none

-- The elements of a node, or for a pointer to a node further down the single pushed element.
unfoldable pub elems_at : Bool → Node → Run Elems
elems_at false n = ok (elem (ptr false n) infinity nil)
elems_at true (cdd_node k es) = ok es
elems_at true _ = fault bad_read

unfoldable pub low_at : Bool → Node → Run Dd
low_at false n = ok (ptr false n)
low_at true (bdd_node k low high) = ok low
low_at true _ = fault bad_read

unfoldable pub high_at : Bool → Node → Run Dd
high_at false n = ok (ptr false n)
high_at true (bdd_node k low high) = ok high
high_at true _ = fault bad_read

-- `lp += (lp->bnd == bnd)`
unfoldable pub advance : ℤ → Elems → Elems
advance bnd nil = nil
advance bnd (elem c b es) = if b ==ℤ bnd then es else elem c b es

-- `*lp`
unfoldable pub head_of : Elems → Run (Dd × ℤ)
head_of nil = fault bad_read
head_of (elem c b es) = ok (c, b)

-- A computation that does not touch the state.
unfoldable pub lift : {A : Type 0} → Run A → M A
lift (ok a) s = ok (a, s)
lift (fault e) s = fault e

abbrev pub Recursion : Type 0
Recursion = Dd → Dd → M Dd

-- The loop over the merged bounds. `prev` is the result up to the bound reached and has not been
-- pushed yet; the elements pushed from here on are returned in order.
unfoldable pub merge_loop : Recursion → Bool → Bool → Bool → ℕ → Elems → Elems → Dd → M Elems
unfolding head_of lift
merge_loop rec lmask rmask mask zero lp rp prev = stop out_of_fuel
merge_loop rec lmask rmask mask (suc k) lp rp prev = do
  (lc, lb) ← lift (head_of lp)
  (rc, rb) ← lift (head_of rp)
  let bnd = minimum lb rb
  let rest = λ (s : State).
      (do
        (lc', lb') ← lift (head_of (advance bnd lp))
        (rc', rb') ← lift (head_of (advance bnd rp))
        n ← rec (cdd_neg_cond lc' lmask) (cdd_neg_cond rc' rmask)
        es ←
            merge_loop rec lmask rmask mask k (advance bnd lp) (advance bnd rp)
              (if same n prev then prev else n)
        return (if same n prev then es else elem (cdd_neg_cond prev mask) bnd es))
        s
  if ltb_ℤ bnd infinity then rest else return (elem (cdd_neg_cond prev mask) infinity nil)

-- The case TYPE_CDD: the first recursion, the loop and the new node.
unfoldable pub apply_cdd : Config → Recursion → Bool → Bool → ℕ → Elems → Elems → M Dd
unfolding head_of lift
apply_cdd cfg rec lmask rmask level lp rp = do
  (lc, lb) ← lift (head_of lp)
  (rc, rb) ← lift (head_of rp)
  prev ← rec (cdd_neg_cond lc lmask) (cdd_neg_cond rc rmask)
  let mask = cdd_mask prev
  es ← merge_loop rec lmask rmask mask (size lp + size rp) lp rp prev
  lift (map_ok (λ d. cdd_neg_cond d mask) (cdd_make_cdd_node cfg.maxcddsize level es))

-- The case TYPE_BDD.
unfoldable pub apply_bdd : Recursion → Bool → Bool → ℕ → Dd → Dd → Dd → Dd → M Dd
apply_bdd rec lmask rmask level ll lh rl rh = do
  low ← rec (cdd_neg_cond ll lmask) (cdd_neg_cond rl rmask)
  high ← rec (cdd_neg_cond lh lmask) (cdd_neg_cond rh rmask)
  return (cdd_make_bdd_node level low high)

-- The `switch` over the type of the smaller level, on regular pointers to `l` and `r`.
unfoldable pub apply_level : Config → Recursion → Bool → Bool → LevelType → ℕ → Node → Node → M Dd
unfolding lift
apply_level cfg rec lmask rmask type_cdd level l r = do
  lp ← lift (elems_at (leb (level_of l) (level_of r)) l)
  rp ← lift (elems_at (leb (level_of r) (level_of l)) r)
  apply_cdd cfg rec lmask rmask level lp rp
apply_level cfg rec lmask rmask type_bdd level l r = do
  ll ← lift (low_at (leb (level_of l) (level_of r)) l)
  lh ← lift (high_at (leb (level_of l) (level_of r)) l)
  rl ← lift (low_at (leb (level_of r) (level_of l)) r)
  rh ← lift (high_at (leb (level_of r) (level_of l)) r)
  apply_bdd rec lmask rmask level ll lh rl rh

unfoldable pub apply_nodes : Config → Recursion → Bool → Bool → Node → Node → M Dd
apply_nodes cfg rec lmask rmask l r =
    let level = min (level_of l) (level_of r) in
    apply_level cfg rec lmask rmask (cfg.info level).type level l r

-- `APPLYHASH`
unfoldable pub apply_hash : Config → Op → Dd → Dd → ℕ
apply_hash cfg op l r = ((op_code op + cfg.address l) * 12582917 + cfg.address r) * 4256249 % 2 ^ 64

-- The test of a cache hit.
abbrev pub is_hit : Entry → Dd → Dd → ℕ → Bool
is_hit e l r code = holds e.a l && (holds e.b r && e.c == code)

unfoldable pub store_apply : ℕ → Entry → State → State
store_apply i e s = record s { applycache = set s.applycache i e }

-- The rest of the call behind the terminal cases, on pointers in the order of their addresses.
-- `i` is the index of the entry that was looked up before the recursion, and written after it.
unfoldable pub apply_ordered : Config → Op → Recursion → Dd → Dd → M Dd
unfolding store_apply
apply_ordered cfg op rec l r s =
    if cdd_isterminal l && cdd_isterminal r
    then ok (l, s)
    else (elim (lookup s.applycache (apply_hash cfg op l r)) [
      | none ↦ fault bad_read
      | some (i, e) ↦
          if is_hit e l r (op_code op)
          then elim e.res [ none ↦ fault bad_read | some d ↦ ok (d, s) ]
          else (elim (apply_nodes cfg rec (cdd_mask l) (cdd_mask r) (node_of l) (node_of r) s) [
            | fault f ↦ fault f
            | ok (d, s') ↦ ok (
              d,
              store_apply i (record { a = some l; b = some r; res = some d; c = op_code op }) s',
            )
          ])
    ])

-- One call of `cdd_apply_rec`.
unfoldable pub apply_step : Config → Op → Recursion → Dd → Dd → M Dd
apply_step cfg op rec l r s =
    if s.errorcond ==ℤ pos 0
    then (elim (terminate op l r) [
      | some d ↦ ok (d, s)
      | none ↦
          if ltb (cfg.address r) (cfg.address l)
          then apply_ordered cfg op rec r l s
          else apply_ordered cfg op rec l r s
    ])
    else fault backed_off

unfoldable pub cdd_apply_rec : Config → Op → ℕ → Dd → Dd → M Dd
cdd_apply_rec cfg op zero l r = stop out_of_fuel
cdd_apply_rec cfg op (suc fuel) l r = apply_step cfg op (cdd_apply_rec cfg op fuel) l r

-- The error condition is tested once more at the end.
unfoldable pub cdd_apply : Config → ℕ → Dd → Dd → Op → M Dd
cdd_apply cfg fuel l h op = do
  d ← cdd_apply_rec cfg op fuel l h
  λ s. if s.errorcond ==ℤ pos 0 then ok (d, s) else fault backed_off
