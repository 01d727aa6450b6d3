-- ===== src/Ops.antt =====
-- Operations of src/cddop.c that are made of calls of `cdd_apply`: the macros `cdd_and`, `cdd_xor`
-- and `cdd_or`, and `cdd_ite`. The fuel of each call of `cdd_apply` is read off its arguments.
-- `cdd_ref`, `cdd_deref` and `cdd_rec_deref` do not change a diagram.
pub mod Laws
pub mod Yields
use ucdd.Base.{ℕ, suc, ◌+◌}
use ucdd.Dd.{Dd, Node, cdd_neg}
use ucdd.Cache.{reset, flush}
use ucdd.RelaxCache.{relax_reset}
use ucdd.Dd.WellFormed.{height}
use ucdd.Machine.{Config, State, M, ◌>>=◌, return}
use ucdd.Apply.{cdd_apply, Op, cddop_and, cddop_xor}

-- `cdd_apply` with the fuel that is enough (Apply.Correct).
unfoldable pub apply_fuelled : Config → Op → Dd → Dd → M Dd
apply_fuelled cfg op l r = cdd_apply cfg (suc (height l + height r)) l r op

unfoldable pub cdd_and : Config → Dd → Dd → M Dd
cdd_and cfg l r = apply_fuelled cfg cddop_and l r

unfoldable pub cdd_xor : Config → Dd → Dd → M Dd
cdd_xor cfg l r = apply_fuelled cfg cddop_xor l r

unfoldable pub cdd_or : Config → Dd → Dd → M Dd
cdd_or cfg l r = do d ← cdd_and cfg (cdd_neg l) (cdd_neg r); return (cdd_neg d)

unfoldable pub cdd_ite : Config → Dd → Dd → Dd → M Dd
cdd_ite cfg f g h = do g' ← cdd_and cfg f g; h' ← cdd_and cfg (cdd_neg f) h; cdd_or cfg g' h'

-- The caches of all operations are emptied.
unfoldable pub cdd_operator_reset : State → State
cdd_operator_reset s = record s {
  applycache = reset s.applycache;
  quantcache = reset s.quantcache;
  replacecache = reset s.replacecache;
  relaxcache = relax_reset s.relaxcache;
}

-- Before garbage is collected, the entries with dead diagrams are dropped, and all relaxations.
unfoldable pub cdd_operator_flush : (Node → ℕ) → State → State
cdd_operator_flush refs s = record s {
  applycache = flush refs s.applycache;
  quantcache = flush refs s.quantcache;
  replacecache = flush refs s.replacecache;
  relaxcache = relax_reset s.relaxcache;
}
