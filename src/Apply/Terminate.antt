-- ===== src/Apply/Terminate.antt =====
-- The terminal cases of `cdd_apply_rec`.
use ucdd.Base.{ℕ, ◌<◌, Bool, true, false, ◌≡◌, ◌≢◌, arith, inl, inr, ap, ◌⊎◌, some, none}
use Prim.Native.Nat.{min}
use ucdd.Dd.{
  Dd, Node, ptr, terminal, xterm, bdd_node, cdd_node, same, cddtrue, cddfalse, cdd_neg, level_of,
  max_level,
}
use ucdd.Dd.Equality.{same→eq}
use ucdd.Dd.Meaning.{Valuation, eval, eval-neg, eval-true, eval-false}
use ucdd.Dd.WellFormed.{IsWf, IsWfNode, IsWf-neg_cond}
use ucdd.Machine.{LevelInfo}
use ucdd.Apply.{Op, cddop_and, cddop_xor, terminate}
use ucdd.Apply.Spec.{op_bool, IsOp}

same-eval : (v : Valuation) (a b : Dd) → same a b ≡ true → eval v a ≡ eval v b
same-eval v a b h = ap (eval v) (same→eq a b h)

pub terminate-IsOp : (op : Op) (l r d : Dd) → terminate op l r ≡ some d → IsOp op l r d
unfolding terminate
terminate-IsOp cddop_and l r d h v = ground (
  arith,
  same-eval v l r,
  same-eval v r cddtrue,
  same-eval v l cddfalse,
  same-eval v r cddfalse,
  same-eval v l (cdd_neg r),
  same-eval v l cddtrue,
  eval-true v,
  eval-false v,
  eval-neg v r,
)
terminate-IsOp cddop_xor l r d h v = ground (
  arith,
  same-eval v l r,
  same-eval v l (cdd_neg r),
  same-eval v l cddfalse,
  same-eval v r cddfalse,
  same-eval v l cddtrue,
  same-eval v r cddtrue,
  eval-true v,
  eval-false v,
  eval-neg v r,
  eval-neg v l,
)

pub op_bool_comm : (op : Op) (a b : Bool) → op_bool op a b ≡ op_bool op b a
op_bool_comm cddop_and a b = ground arith
op_bool_comm cddop_xor a b = ground arith

-- The result is one of the arguments, perhaps negated, or a terminal.
abbrev pub Picked : Dd → Dd → Dd → Type 0
Picked l r d =
    (d ≡ l) ⊎ (d ≡ r) ⊎ (d ≡ cdd_neg l) ⊎ (d ≡ cdd_neg r) ⊎ (d ≡ cddfalse) ⊎ (d ≡ cddtrue)

pub terminate-Picked : (op : Op) (l r d : Dd) → terminate op l r ≡ some d → Picked l r d
unfolding terminate
terminate-Picked cddop_and l r d h = ground arith
terminate-Picked cddop_xor l r d h = ground arith

pub Picked-IsWf :
    (info : ℕ → LevelInfo) (w : ℕ) (l r d : Dd)
    → Picked l r d
    → IsWf info w l
    → IsWf info w r
    → IsWf info w d
unfolding IsWf
Picked-IsWf info w l r d p hl hr = elim p [
  | inl e ↦ rw e hl
  | inr (inl e) ↦ rw e hr
  | inr (inr (inl e)) ↦ rw e (IsWf-neg_cond info w l true hl)
  | inr (inr (inr (inl e))) ↦ rw e (IsWf-neg_cond info w r true hr)
  | inr (inr (inr (inr (inl e)))) ↦ rw e tt
  | inr (inr (inr (inr (inr e)))) ↦ rw e tt
]

-- Two terminals are a terminal case.
terminals : (op : Op) (m m' : Bool) → terminate op (ptr m terminal) (ptr m' terminal) ≢ none
unfolding terminate same
terminals cddop_and true true = cc
terminals cddop_and true false = cc
terminals cddop_and false true = cc
terminals cddop_and false false = cc
terminals cddop_xor true true = cc
terminals cddop_xor true false = cc
terminals cddop_xor false true = cc
terminals cddop_xor false false = cc

pub terminate_nodes :
    (info : ℕ → LevelInfo) (w : ℕ) (op : Op) (m m' : Bool) (n n' : Node)
    → terminate op (ptr m n) (ptr m' n') ≡ none
    → IsWfNode info w n
    → IsWfNode info w n'
    → min (level_of n) (level_of n') < max_level
unfolding IsWf
terminate_nodes info w op m m' terminal terminal e hl hr = absurd (terminals op m m' e)
terminate_nodes info w op m m' (xterm i) n' e hl hr = absurd hl
terminate_nodes info w op m m' terminal (xterm i) e hl hr = absurd hr
terminate_nodes info w op m m' terminal (bdd_node k l h) e hl hr = omega (arith, hr.1)
terminate_nodes info w op m m' terminal (cdd_node k es) e hl hr = omega (arith, hr.1)
terminate_nodes info w op m m' (bdd_node k l h) n' e hl hr = omega (arith, hl.1)
terminate_nodes info w op m m' (cdd_node k es) n' e hl hr = omega (arith, hl.1)
