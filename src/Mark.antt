-- ===== src/Mark.antt =====
-- The marks of src/kernel.c, and the counts of nodes and edges of src/cddop.c. The flag of a node is a
-- Boolean for each node; the negation bit of a pointer is ignored.
pub mod Reach
pub mod Visit
pub mod Count
pub mod Correct
pub mod Unmark
use ucdd.Base.{ℕ, suc, ◌+◌, Bool, true, false, not, ◌&&◌, ◌||◌, ◌==◌, if◌then◌else◌, ◌==ℤ◌}
use ucdd.Bounds.{infinity}
use ucdd.Dd.{
  Dd, Node, Elems, ptr, terminal, xterm, bdd_node, cdd_node, nil, elem, same_node, max_level,
}

abbrev pub Marks : Type 0
Marks = Node → Bool

unfoldable pub cdd_setmark : Node → Marks → Marks
cdd_setmark n marks m = same_node m n || marks m

unfoldable pub cdd_resetmark : Node → Marks → Marks
cdd_resetmark n marks m = not (same_node m n) && marks m

-- In all loops the iterator ends after the bound INF, which the last element has. A node on the level
-- of the terminals counts as one.
unfoldable mutual
  pub cdd_mark : Dd → Marks → Marks
  cdd_mark (ptr b n) marks = mark_node n marks

  pub mark_node : Node → Marks → Marks
  mark_node terminal marks = marks
  mark_node (xterm id) marks = marks
  mark_node (bdd_node k low high) marks =
      let visited = cdd_mark high (cdd_mark low (cdd_setmark (bdd_node k low high) marks)) in
      if k == max_level || marks (bdd_node k low high) then marks else visited
  mark_node (cdd_node k es) marks =
      let visited = mark_elems es (cdd_setmark (cdd_node k es) marks) in
      if k == max_level || marks (cdd_node k es) then marks else visited

  pub mark_elems : Elems → Marks → Marks
  mark_elems nil marks = marks
  mark_elems (elem c b es) marks =
      let rest = mark_elems es (cdd_mark c marks) in
      if b ==ℤ infinity then cdd_mark c marks else rest

unfoldable mutual
  pub cdd_markcount : Dd → Marks × ℕ → Marks × ℕ
  cdd_markcount (ptr b n) s = count_node n s

  pub count_node : Node → Marks × ℕ → Marks × ℕ
  count_node terminal s = s
  count_node (xterm id) s = s
  count_node (bdd_node k low high) s =
      let visited =
        cdd_markcount high (cdd_markcount low (cdd_setmark (bdd_node k low high) s.0, suc s.1)) in
      if k == max_level || s.0 (bdd_node k low high) then s else visited
  count_node (cdd_node k es) s =
      let visited = count_elems es (cdd_setmark (cdd_node k es) s.0, suc s.1) in
      if k == max_level || s.0 (cdd_node k es) then s else visited

  pub count_elems : Elems → Marks × ℕ → Marks × ℕ
  count_elems nil s = s
  count_elems (elem c b es) s =
      let rest = count_elems es (cdd_markcount c s) in
      if b ==ℤ infinity then cdd_markcount c s else rest

unfoldable mutual
  pub cdd_markedgecount : Dd → Marks × ℕ → Marks × ℕ
  cdd_markedgecount (ptr b n) s = edges_node n s

  pub edges_node : Node → Marks × ℕ → Marks × ℕ
  edges_node terminal s = s
  edges_node (xterm id) s = s
  edges_node (bdd_node k low high) s =
      let visited =
        cdd_markedgecount high
          (cdd_markedgecount low (cdd_setmark (bdd_node k low high) s.0, s.1 + 2)) in
      if k == max_level || s.0 (bdd_node k low high) then s else visited
  edges_node (cdd_node k es) s =
      let visited = edges_elems es (cdd_setmark (cdd_node k es) s.0, s.1) in
      if k == max_level || s.0 (cdd_node k es) then s else visited

  pub edges_elems : Elems → Marks × ℕ → Marks × ℕ
  edges_elems nil s = s
  edges_elems (elem c b es) s =
      let first = cdd_markedgecount c (s.0, suc s.1) in
      let rest = edges_elems es first in if b ==ℤ infinity then first else rest

unfoldable mutual
  pub cdd_unmark : Dd → Marks → Marks
  cdd_unmark (ptr b n) marks = unmark_node n marks

  pub unmark_node : Node → Marks → Marks
  unmark_node terminal marks = marks
  unmark_node (xterm id) marks = if marks (xterm id) then cdd_resetmark (xterm id) marks else marks
  unmark_node (bdd_node k low high) marks =
      let reset = cdd_resetmark (bdd_node k low high) marks in
      let visited = cdd_unmark high (cdd_unmark low reset) in
      if not (marks (bdd_node k low high)) then marks else if k == max_level then reset else visited
  unmark_node (cdd_node k es) marks =
      let reset = cdd_resetmark (cdd_node k es) marks in
      let visited = unmark_elems es reset in
      if not (marks (cdd_node k es)) then marks else if k == max_level then reset else visited

  pub unmark_elems : Elems → Marks → Marks
  unmark_elems nil marks = marks
  unmark_elems (elem c b es) marks =
      let first = cdd_unmark c marks in
      let rest = unmark_elems es first in if b ==ℤ infinity then first else rest

unfoldable mutual
  pub cdd_force_unmark : Dd → Marks → Marks
  cdd_force_unmark (ptr b n) marks = force_node n marks

  pub force_node : Node → Marks → Marks
  force_node terminal marks = marks
  force_node (xterm id) marks = cdd_resetmark (xterm id) marks
  force_node (bdd_node k low high) marks =
      let reset = cdd_resetmark (bdd_node k low high) marks in
      let visited = cdd_force_unmark high (cdd_force_unmark low reset) in
      if k == max_level then reset else visited
  force_node (cdd_node k es) marks =
      let reset = cdd_resetmark (cdd_node k es) marks in
      let visited = force_elems es reset in if k == max_level then reset else visited

  pub force_elems : Elems → Marks → Marks
  force_elems nil marks = marks
  force_elems (elem c b es) marks =
      let first = cdd_force_unmark c marks in
      let rest = force_elems es first in if b ==ℤ infinity then first else rest

-- The count, and the marks afterwards. The pointer is not NULL.
unfoldable pub cdd_nodecount : Dd → Marks → ℕ × Marks
unfolding cdd_markcount cdd_unmark
cdd_nodecount node marks =
    let counted = cdd_markcount node (marks, 0) in (counted.1, cdd_unmark node counted.0)

unfoldable pub cdd_edgecount : Dd → Marks → ℕ × Marks
unfolding cdd_markedgecount cdd_unmark
cdd_edgecount node marks =
    let counted = cdd_markedgecount node (marks, 0) in (counted.1, cdd_unmark node counted.0)
