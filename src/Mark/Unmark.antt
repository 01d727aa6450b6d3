-- ===== src/Mark/Unmark.antt =====
-- `cdd_unmark` is `cdd_mark` on the marks that are not set; so `cdd_nodecount` leaves no marks.
use ucdd.Base.{
  ℕ, suc, ◌≡◌, refl, sym, ◌∙◌, ap, arith, inl, inr, true, false, not, ◌||◌, ◌==◌, ◌==ℤ◌, Bool-cases,
}
use mathlib.Core.Path.{fun_ext}
use ucdd.Bounds.{infinity}
use ucdd.Dd.{Dd, Node, Elems, ptr, terminal, xterm, bdd_node, cdd_node, nil, elem, max_level}
use ucdd.Dd.WellFormed.{IsWf, IsWfNode, IsWfElems}
use ucdd.Machine.{LevelInfo}
use ucdd.Mark.{
  Marks, cdd_setmark, cdd_resetmark, cdd_mark, mark_node, mark_elems, cdd_markcount, count_node,
  count_elems, cdd_unmark, unmark_node, unmark_elems, cdd_nodecount,
}
use ucdd.Mark.Reach.{reaches}
use ucdd.Mark.Count.{dd-Adds}

-- `cdd_markcount` marks what `cdd_mark` does.
mutual
  unfolding cdd_markcount cdd_mark

  markcount-mark : (d : Dd) (s : Marks × ℕ) → (cdd_markcount d s).0 ≡ cdd_mark d s.0
  markcount-mark (ptr b n) s = node-mark n s

  node-mark : (n : Node) (s : Marks × ℕ) → (count_node n s).0 ≡ mark_node n s.0
  node-mark terminal s = refl
  node-mark (xterm id) s = refl
  node-mark (bdd_node k low high) s =
      elim (Bool-cases (k == max_level || s.0 (bdd_node k low high))) [
        | inl e ↦ rw e refl
        | inr e ↦
            let s₁ : Marks × ℕ = (cdd_setmark (bdd_node k low high) s.0, suc s.1) in
            rw e (
              markcount-mark high (cdd_markcount low s₁)
              ∙ ap (cdd_mark high) (markcount-mark low s₁))
      ]
  node-mark (cdd_node k es) s = elim (Bool-cases (k == max_level || s.0 (cdd_node k es))) [
    | inl e ↦ rw e refl
    | inr e ↦ rw e (elems-mark es (cdd_setmark (cdd_node k es) s.0, suc s.1))
  ]

  elems-mark : (es : Elems) (s : Marks × ℕ) → (count_elems es s).0 ≡ mark_elems es s.0
  elems-mark nil s = refl
  elems-mark (elem c b es) s = elim (Bool-cases (b ==ℤ infinity)) [
    | inl e ↦ rw e (markcount-mark c s)
    | inr e ↦ rw e (elems-mark es (cdd_markcount c s) ∙ ap (mark_elems es) (markcount-mark c s))
  ]

-- The marks the other way round.
abbrev flip : Marks → Marks
flip marks m = not (marks m)

flip-flip : (marks : Marks) → flip (flip marks) ≡ marks
flip-flip marks = fun_ext (λ m. ground arith)

flip-reset : (n : Node) (marks : Marks) → flip (cdd_resetmark n marks) ≡ cdd_setmark n (flip marks)
unfolding cdd_resetmark cdd_setmark
flip-reset n marks = fun_ext (λ m. ground arith)

module _ (info : ℕ → LevelInfo) (width : ℕ) where
  mutual
    unfolding cdd_unmark cdd_mark IsWf

    unmark-flip :
        (d : Dd) (marks : Marks)
        → IsWf info width d
        → flip (cdd_unmark d marks) ≡ cdd_mark d (flip marks)
    unmark-flip (ptr b n) marks wf = node-flip n marks wf

    node-flip :
        (n : Node) (marks : Marks)
        → IsWfNode info width n
        → flip (unmark_node n marks) ≡ mark_node n (flip marks)
    node-flip terminal marks wf = refl
    node-flip (xterm id) marks wf = absurd wf
    node-flip (bdd_node k low high) marks (t, lt, wl, wh) =
        let N = bdd_node k low high in
        let inner : (k == max_level) ≡ false = ground arith in
        elim (Bool-cases (marks N)) [
          | inl e ↦
              rw (inner, e)
                (unmark-flip high (cdd_unmark low (cdd_resetmark N marks)) wh
                  ∙ ap (cdd_mark high) (
                      unmark-flip low (cdd_resetmark N marks) wl
                      ∙ ap (cdd_mark low) (flip-reset N marks)))
          | inr e ↦ rw (inner, e) refl
        ]
    node-flip (cdd_node k es) marks (t, lt, size, bounded, all) =
        let N = cdd_node k es in
        let inner : (k == max_level) ≡ false = ground arith in
        elim (Bool-cases (marks N)) [
          | inl e ↦
              rw (inner, e)
                (elems-flip es (cdd_resetmark N marks) all
                  ∙ ap (mark_elems es) (flip-reset N marks))
          | inr e ↦ rw (inner, e) refl
        ]

    elems-flip :
        (es : Elems) (marks : Marks)
        → IsWfElems info width es
        → flip (unmark_elems es marks) ≡ mark_elems es (flip marks)
    elems-flip nil marks wf = refl
    elems-flip (elem c b es) marks wf = elim (Bool-cases (b ==ℤ infinity)) [
      | inl e ↦ rw e (unmark-flip c marks wf.0)
      | inr e ↦
          rw e (
            elems-flip es (cdd_unmark c marks) wf.1 ∙ ap (mark_elems es) (unmark-flip c marks wf.0))
    ]

  -- On a well-formed diagram without marks, `cdd_mark` marks the inner nodes and nothing else.
  pub mark-reaches :
      (d : Dd) (marks : Marks)
      → IsWf info width d
      → ((n : Node) → marks n ≡ false)
      → (m : Node) → cdd_mark d marks m ≡ reaches m d
  mark-reaches d marks wf none m =
      let adds = dd-Adds info width d (marks, 0) wf (λ n m inside at inner. absurd (clash n at)) in
      let same = ap (λ f. f m) (markcount-mark d (marks, 0)) in sym same ∙ adds m ∙ rw (none m) refl
    where
      clash : (n : Node) → marks n ≡ true → ⊥
      clash n at = let e = none n in ground (arith, at, e)

  -- On a well-formed diagram without marks, no mark is left after `cdd_nodecount`.
  pub nodecount_unmarks :
      (d : Dd) (marks : Marks)
      → IsWf info width d
      → ((n : Node) → marks n ≡ false)
      → (m : Node) → (cdd_nodecount d marks).1 m ≡ false
  unfolding cdd_nodecount
  nodecount_unmarks d marks wf none m =
      let counted : Marks = (cdd_markcount d (marks, 0)).0 in
      let adds = dd-Adds info width d (marks, 0) wf (λ n m inside at inner. absurd (clash n at)) in
      let again =
        dd-Adds info width d (flip counted, 0) wf
          (λ n m inside at inner. absurd (inside_all n (adds n) inside at)) in
      let flipped =
        ap (λ f. f m) (unmark-flip d counted wf ∙ sym (markcount-mark d (flip counted, 0))) in
      let a = adds m in let b = again m in let c = none m in ground (arith, flipped, a, b, c)
    where
      clash : (n : Node) → marks n ≡ true → ⊥
      clash n at = let e = none n in ground (arith, at, e)

      inside_all :
          (n : Node)
          → (cdd_markcount d (marks, 0)).0 n ≡ (marks n || reaches n d)
          → reaches n d ≡ true
          → not ((cdd_markcount d (marks, 0)).0 n) ≡ true
          → ⊥
      inside_all n a h at = ground (arith, a, h, at)
