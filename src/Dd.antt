-- ===== src/Dd.antt =====
-- Decision diagrams as the pointers of include/cdd/kernel.h see them: a pointer carries the
-- negation bit in its lowest bit and leads to a node. The unique tables make pointers equal exactly
-- when the diagrams below them are, so a pointer is modelled by the diagram that it leads to.
pub mod Meaning
pub mod Equality
pub mod WellFormed
use ucdd.Base.{
  ℕ, suc, ◌+◌, ◌-◌, ◌^◌, Bool, true, false, xor, ◌&&◌, ◌||◌, not, ◌==◌, ltb, if◌then◌else◌,
}
use ucdd.Base.{Option, none, some, ℤ, pos, ◌==ℤ◌, ltb_ℤ}

mutual
  -- `node_`, `xtermnode_`, `bddnode_` and `cddnode_`, without the fields of the unique table.
  pub data Node : Type 0 where
    terminal : Node
    xterm : ℕ → Node
    bdd_node : ℕ → Dd → Dd → Node
    cdd_node : ℕ → Elems → Node

  -- A `ddNode*`: the negation bit and the node.
  pub data Dd : Type 0 where
    ptr : Bool → Node → Dd

  -- An array of `elem_`, a child and its upper bound each.
  pub data Elems : Type 0 where
    nil : Elems
    elem : Dd → ℤ → Elems → Elems

abbrev pub max_level : ℕ
max_level = 2 ^ 20 - 1

abbrev pub cddfalse : Dd
cddfalse = ptr false terminal

abbrev pub cddtrue : Dd
cddtrue = ptr true terminal

abbrev pub node_of : Dd → Node
node_of (ptr m n) = n

abbrev pub cdd_mask : Dd → Bool
cdd_mask (ptr m n) = m

abbrev pub cdd_rglr : Dd → Dd
cdd_rglr (ptr m n) = ptr false n

abbrev pub cdd_neg_cond : Dd → Bool → Dd
cdd_neg_cond (ptr m n) mask = ptr (xor m mask) n

abbrev pub cdd_neg : Dd → Dd
cdd_neg d = cdd_neg_cond d true

-- The bit field `level`.
abbrev pub level_of : Node → ℕ
level_of terminal = max_level
level_of (xterm id) = max_level
level_of (bdd_node k low high) = k
level_of (cdd_node k es) = k

unfoldable pub cdd_isterminal : Dd → Bool
cdd_isterminal d = level_of (node_of d) == max_level

unfoldable pub is_tfterminal : Dd → Bool
is_tfterminal (ptr m terminal) = true
is_tfterminal (ptr m _) = false

unfoldable pub cdd_is_extra_terminal : Dd → Bool
unfolding cdd_isterminal is_tfterminal
cdd_is_extra_terminal d = not (is_tfterminal d) && cdd_isterminal d

-- `node == cddtrue` and `node == cddfalse`.
unfoldable pub is_true : Dd → Bool
is_true (ptr m terminal) = m
is_true (ptr m _) = false

unfoldable pub is_false : Dd → Bool
is_false (ptr m terminal) = not m
is_false (ptr m _) = false

unfoldable pub cdd_eval_true : Dd → Bool
unfolding is_true cdd_is_extra_terminal
cdd_eval_true d = is_true d || (cdd_is_extra_terminal d && not (cdd_mask d))

unfoldable pub cdd_eval_false : Dd → Bool
unfolding is_false cdd_is_extra_terminal
cdd_eval_false d = is_false d || (cdd_is_extra_terminal d && cdd_mask d)

-- The children of a BDD node seen through a pointer, `bdd_low` and `bdd_high`.
unfoldable pub bdd_low : Dd → Option Dd
bdd_low (ptr m (bdd_node k low high)) = some (cdd_neg_cond low m)
bdd_low _ = none

unfoldable pub bdd_high : Dd → Option Dd
bdd_high (ptr m (bdd_node k low high)) = some (cdd_neg_cond high m)
bdd_high _ = none

abbrev pub size : Elems → ℕ
size nil = 0
size (elem c b es) = suc (size es)

-- Equality of pointers.
unfoldable mutual
  pub same : Dd → Dd → Bool
  same (ptr m n) (ptr m' n') = not (xor m m') && same_node n n'

  pub same_node : Node → Node → Bool
  same_node terminal terminal = true
  same_node (xterm id) (xterm id') = id == id'
  same_node (bdd_node k l h) (bdd_node k' l' h') = k == k' && (same l l' && same h h')
  same_node (cdd_node k es) (cdd_node k' es') = k == k' && same_elems es es'
  same_node _ _ = false

  pub same_elems : Elems → Elems → Bool
  same_elems nil nil = true
  same_elems (elem c b es) (elem c' b' es') = same c c' && (b ==ℤ b' && same_elems es es')
  same_elems _ _ = false
