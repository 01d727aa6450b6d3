-- ===== src/Mark/Correct.antt =====
-- `cdd_nodecount` counts the inner nodes of a diagram, each once.
use ucdd.Base.{
  ℕ, suc, ◌≡◌, sym, ap, subst, ◌∙◌, arith, inl, inr, true, false, not, if◌then◌else◌, ◌&&◌,
  Bool-cases, List, [], ◌∷◌, length,
}
use ucdd.Dd.{Dd, Node, same_node}
use ucdd.Dd.WellFormed.{IsWf}
use ucdd.Machine.{LevelInfo}
use ucdd.Mark.{Marks, cdd_setmark, cdd_nodecount}
use ucdd.Mark.Reach.{reaches, same_node→eq}
use ucdd.Mark.Visit.{after, Fresh, markcount-Visited}
use ucdd.Mark.Count.{dd-Adds}

-- How often a node is in a list.
unfoldable pub times : Node → List Node → ℕ
times m [] = 0
times m (n ∷ ns) = let rest = times m ns in if same_node m n then suc rest else rest

after-keeps : (m : Node) (marks : Marks) (ns : List Node) → marks m ≡ true → after marks ns m ≡ true
unfolding after cdd_setmark
after-keeps m marks [] h = h
after-keeps m marks (n ∷ ns) h = after-keeps m (cdd_setmark n marks) ns (ground (arith, h))

times-Fresh :
    (m : Node) (marks : Marks) (ns : List Node)
    → Fresh marks ns
    → times m ns ≡ (if after marks ns m && not (marks m) then 1 else 0)
unfolding after Fresh times cdd_setmark
times-Fresh m marks [] h = ground arith
times-Fresh m marks (n ∷ ns) (e, h) =
    let ih = times-Fresh m (cdd_setmark n marks) ns h in
    elim (Bool-cases (same_node m n)) [
      | inl same ↦
          let at : marks m ≡ false = subst (λ x. marks x ≡ false) (sym (same_node→eq m n same)) e in
          let set : cdd_setmark n marks m ≡ true = ground (arith, same) in
          let kept = after-keeps m (cdd_setmark n marks) ns set in
          ground (arith, ih, at, set, kept, same)
      | inr differ ↦
          let set : cdd_setmark n marks m ≡ marks m = ground (arith, differ) in
          ground (arith, ih, set, differ)
    ]

-- On a well-formed diagram without marks, `cdd_nodecount` returns the length of a list in which every
-- inner node of the diagram is exactly once, and nothing else.
pub nodecount_correct :
    (info : ℕ → LevelInfo) (width : ℕ) (d : Dd) (marks : Marks)
    → IsWf info width d
    → ((n : Node) → marks n ≡ false)
    → (nodes : List Node) × ((cdd_nodecount d marks).0 ≡ length nodes)
      × ((m : Node) → times m nodes ≡ (if reaches m d then 1 else 0))
unfolding cdd_nodecount
nodecount_correct info width d marks wf none =
    let (nodes, fresh, marked, counted) = markcount-Visited d (marks, 0) in
    let adds = dd-Adds info width d (marks, 0) wf (λ n m inside at inner. absurd (clash n at)) in
    (
      nodes,
      omega (arith, counted),
      λ m.
          let all = sym (ap (λ f. f m) marked) ∙ adds m in
          let count = times-Fresh m marks nodes fresh in
          let unset = none m in ground (arith, all, count, unset),
    )
  where
    clash : (n : Node) → marks n ≡ true → ⊥
    clash n at = let e = none n in ground (arith, at, e)
