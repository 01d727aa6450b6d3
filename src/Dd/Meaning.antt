-- ===== src/Dd/Meaning.antt =====
-- The Boolean function that a diagram stands for.
use ucdd.Base.{ℕ, Bool, true, false, xor, ◌≡◌, refl, ltb_ℤ, if◌then◌else◌, ℤ, ◌<ℤ◌, arith}
use ucdd.Bounds.{infinity, minus_infinity}
use ucdd.Dd.{
  Dd, Node, Elems, ptr, terminal, xterm, bdd_node, cdd_node, nil, elem, cddtrue, cddfalse,
  cdd_neg_cond, cdd_neg,
}

-- A value for each BDD level, and the position of a difference for each CDD level (Bounds.Laws),
-- strictly between -INF and INF.
pub record Valuation : Type 0 where
  pub bools : ℕ → Bool
  pub diffs : ℕ → ℤ
  pub above : (k : ℕ) → minus_infinity <ℤ diffs k
  pub in_range : (k : ℕ) → diffs k <ℤ infinity

-- A negated pointer stands for the complement; `cddfalse` is the regular pointer to the terminal.
-- An extra terminal counts as true, as in `cdd_eval_true`. A CDD node leads to the first child
-- whose upper bound holds.
unfoldable mutual
  pub eval : Valuation → Dd → Bool
  eval v (ptr m n) = xor m (eval_node v n)

  pub eval_node : Valuation → Node → Bool
  eval_node v terminal = false
  eval_node v (xterm id) = true
  eval_node v (bdd_node k low high) = if v.bools k then eval v high else eval v low
  eval_node v (cdd_node k es) = eval_elems v (v.diffs k) es

  pub eval_elems : Valuation → ℤ → Elems → Bool
  eval_elems v q nil = false
  eval_elems v q (elem c b es) = if ltb_ℤ q b then eval v c else eval_elems v q es

pub eval-neg_cond :
    (v : Valuation) (d : Dd) (m : Bool) → eval v (cdd_neg_cond d m) ≡ xor m (eval v d)
unfolding eval
eval-neg_cond v (ptr b n) m = ground arith

pub eval-neg : (v : Valuation) (d : Dd) → eval v (cdd_neg d) ≡ xor true (eval v d)
eval-neg v d = eval-neg_cond v d true

pub eval-false : (v : Valuation) → eval v cddfalse ≡ false
unfolding eval
eval-false v = refl

pub eval-true : (v : Valuation) → eval v cddtrue ≡ true
unfolding eval
eval-true v = refl
