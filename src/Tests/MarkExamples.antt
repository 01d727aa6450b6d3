-- ===== src/Tests/MarkExamples.antt =====
-- The theorems on marks, counts and references at concrete diagrams.
use ucdd.Base.{◌≡◌, refl, arith, false, if◌then◌else◌, List, length, pos}
use ucdd.Bounds.{infinity}
use ucdd.Dd.{Dd, Node, ptr, cdd_node, nil, elem, cddfalse}
use ucdd.Dd.WellFormed.{IsWf}
use ucdd.Store.Refs.{made, taken, released, IsExact, Counts-IsExact, cdd_satinc, cdd_satdec}
use ucdd.Mark.{cdd_mark, Marks, cdd_nodecount}
use ucdd.Mark.Reach.{reaches}
use ucdd.Mark.Correct.{times, nodecount_correct}
use ucdd.Mark.Unmark.{mark-reaches, nodecount_unmarks}
use ucdd.Tests.Inputs.{levels, variable_two}

-- Both children are the same node.
abbrev shared : Dd
shared = ptr false (
    cdd_node 0 (
      elem variable_two (pos 6) (
        elem (ptr false (cdd_node 1 (elem cddfalse (pos 2) (elem variable_two infinity nil))))
          infinity nil)))

abbrev no_marks : Marks
no_marks n = false

shared-IsWf : IsWf levels 2 shared
unfolding IsWf
shared-IsWf = (
  refl,
  ground arith,
  ground arith,
  (ground arith, refl),
  (
    (refl, ground arith, tt, tt),
    (
      (
        refl,
        ground arith,
        ground arith,
        (ground arith, refl),
        (tt, ((refl, ground arith, tt, tt), tt)),
      ),
      tt,
    ),
  ),
)

nodecount_correct_example :
    (nodes : List Node) × ((cdd_nodecount shared no_marks).0 ≡ length nodes)
    × ((m : Node) → times m nodes ≡ (if reaches m shared then 1 else 0))
nodecount_correct_example = nodecount_correct levels 2 shared no_marks shared-IsWf (λ n. refl)

nodecount_unmarks_example : (cdd_nodecount shared no_marks).1 (cdd_node 0 nil) ≡ false
nodecount_unmarks_example =
    nodecount_unmarks levels 2 shared no_marks shared-IsWf (λ n. refl) (cdd_node 0 nil)

-- The shared node is counted once.
shared_count : (cdd_nodecount shared no_marks).0 ≡ 3
unfolding cdd_nodecount ucdd.Mark.cdd_markcount ucdd.Mark.cdd_setmark ucdd.Dd.same_node
shared_count = refl

Counts-IsExact_example : IsExact (cdd_satdec (cdd_satinc (cdd_satinc 0))) 1
Counts-IsExact_example =
    Counts-IsExact (cdd_satdec (cdd_satinc (cdd_satinc 0))) 1 (released (taken (taken made)))

mark-reaches_example : cdd_mark shared no_marks (cdd_node 0 nil) ≡ reaches (cdd_node 0 nil) shared
mark-reaches_example =
    mark-reaches levels 2 shared no_marks shared-IsWf (λ n. refl) (cdd_node 0 nil)
