-- ===== src/Reduce/Find.antt =====
-- What the first loop of `cdd_bf_reduce_rec` finds: the children that it passes have bounds that no
-- clocks within the graph meet.
use ucdd.Base.{
  ℕ, suc, ◌<◌, ◌≤◌, true, false, ◌≡◌, refl, sym, ◌∙◌, arith, Bool-cases, inl, inr, ℤ, ◌<ℤ◌, ◌==ℤ◌,
  ltb_ℤ, ==ℤ_iff, ==ℤ-no, ltb_ℤ→lt,
}
use ucdd.Bounds.{infinity}
use ucdd.Dd.{Dd, Elems, nil, elem, size}
use ucdd.Dd.Meaning.{Valuation, eval, eval_elems}
use ucdd.Dd.WellFormed.{Bounded}
use ucdd.Machine.{Run, ok, LevelInfo}
use ucdd.Apply.Step.{Bounded-le, eval-head}
use ucdd.BellmanFord.{Graph, cdd_bf_push, cdd_bf_pop, cdd_bf_consistent}
use ucdd.Reduce.{Sought, last_child, first_consistent, find_child}
use ucdd.Reduce.Room.{Every}
use ucdd.Reduce.Graphs.{
  Keeps, Keeps-trans, IsReady, IsReady-Keeps, push-IsReady, pop-Keeps, push-Keeps, consistent-Keeps,
}
use ucdd.Reduce.Clocks.{AtClocks, IsRaw, Obeys-consistent, Obeys-Keeps, push-Obeys, upper-Holds}

-- From the head's bound on, an array leads to its tail.
eval-tail :
    (v : Valuation) (q : ℤ) (c : Dd) (b : ℤ) (es : Elems)
    → ltb_ℤ q b ≡ false
    → eval_elems v q (elem c b es) ≡ eval_elems v q es
unfolding eval
eval-tail v q c b es h = rw h refl

module _ (raw2bound : ℤ → ℤ) (raw_is_strict : ℤ → ℕ) (raw : IsRaw raw2bound raw_is_strict)
    (info : ℕ → LevelInfo) (P : Dd → Type 0) (n k : ℕ) (g : Graph) (ready : IsReady (suc n) g)
    (in1 : (info k).clock1 < g.dim) (in2 : (info k).clock2 < g.dim) where
  abbrev Always : (Valuation → Type 0) → Type 0
  Always Q = AtClocks raw2bound raw_is_strict info g Q

  abbrev pub with_upper : ℤ → Graph
  with_upper b = cdd_bf_push g (info k).clock1 (info k).clock2 b

  -- What was found stands for the elements, at all clocks within the graph.
  abbrev pub IsFound : Elems → Sought → Graph → Type 0
  IsFound es (last_child c) h =
      Keeps g h × P c × Always (λ v. eval_elems v (v.diffs k) es ≡ eval v c)
  IsFound es (first_consistent c b rest) h =
      Keeps (with_upper b) h
      × Bounded (elem c b rest)
      × Every P (elem c b rest)
      × (size (elem c b rest) ≤ size es)
      × Always (λ v. eval_elems v (v.diffs k) es ≡ eval_elems v (v.diffs k) (elem c b rest))

  abbrev Finds : Elems → Run (Sought × Graph) → Type 0
  Finds es r = (s : Sought) × (h : Graph) × (r ≡ ok (s, h)) × IsFound es s h

  -- The elements may be those before, of the same value.
  earlier :
      (es fs : Elems) (s : Sought) (h : Graph)
      → size fs ≤ size es
      → Always (λ v. eval_elems v (v.diffs k) es ≡ eval_elems v (v.diffs k) fs)
      → IsFound fs s h
      → IsFound es s h
  earlier es fs (last_child c) h le same (kept, good, means) =
      (kept, good, λ v x clocked obeys. same v x clocked obeys ∙ means v x clocked obeys)
  earlier es fs (first_consistent c b rest) h le same (kept, bounded, good, small, means) = (
    kept,
    bounded,
    good,
    omega arith,
    λ v x clocked obeys. same v x clocked obeys ∙ means v x clocked obeys,
  )

  -- An upper bound that the graph contradicts.
  upper-fails :
      (b : ℤ) (h : Graph)
      → Keeps (with_upper b) h
      → (cdd_bf_consistent raw2bound raw_is_strict h).0 ≡ false
      → Always (λ v. ltb_ℤ (v.diffs k) b ≡ false)
  upper-fails b h kept no_solution v x clocked obeys = elim (Bool-cases (ltb_ℤ (v.diffs k) b)) [
    | inr e ↦ e
    | inl e ↦
        let edge =
          upper-Holds raw2bound raw_is_strict raw info v x clocked k b (ltb_ℤ→lt (v.diffs k) b e) in
        let more = push-Obeys raw2bound raw_is_strict n x g _ _ b ready obeys edge in
        let good = IsReady-Keeps n _ h kept (push-IsReady n g _ _ b in1 in2 ready) in
        let answer =
          Obeys-consistent raw2bound raw_is_strict n x h good
            (Obeys-Keeps raw2bound raw_is_strict x _ h kept more) in
        let clash : false ≡ true = sym no_solution ∙ answer in cc
  ]

  pub find_child-Finds :
      (c : Dd) (b : ℤ) (es : Elems) (h : Graph)
      → b <ℤ infinity
      → Bounded (elem c b es)
      → Every P (elem c b es)
      → Keeps (with_upper b) h
      → Finds
          (elem c b es)
          (find_child raw2bound raw_is_strict infinity (info k).clock1 (info k).clock2 c b es h)
  unfolding find_child
  find_child-Finds c b nil h lt e good kept = absurd (ground arith)
  find_child-Finds c b (elem c' b' es) h lt bounded good kept =
      let answer = cdd_bf_consistent raw2bound raw_is_strict h in
      let kept' = Keeps-trans _ h answer.1 kept (consistent-Keeps raw2bound raw_is_strict h) in
      let popped = pop-Keeps n g answer.1 _ _ b ready kept' in
      elim (Bool-cases answer.0) [
        | inl found ↦ (
          first_consistent c b (elem c' b' es),
          answer.1,
          rw found refl,
          (kept', bounded, good, omega arith, λ v x clocked obeys. refl),
        )
        | inr failed ↦
            let passed = upper-fails b h kept failed in
            let skip : Always (λ v.
              eval_elems v (v.diffs k) (elem c b (elem c' b' es))
              ≡ eval_elems v (v.diffs k) (elem c' b' es)) =
              λ v x clocked obeys. eval-tail v _ c b (elem c' b' es) (passed v x clocked obeys) in
            elim (Bool-cases (b' ==ℤ infinity)) [
              | inl end ↦
                  let top : b' ≡ infinity = (==ℤ_iff b' infinity).0 end in
                  (
                    last_child c',
                    cdd_bf_pop answer.1,
                    rw (failed, end) refl,
                    (
                      popped,
                      good.1.0,
                      λ v x clocked obeys.
                          skip v x clocked obeys ∙ eval-head v _ c' b' es (rw top (v.in_range k)),
                    ),
                  )
              | inr more ↦
                  let le = Bounded-le c' b' es bounded.1 in
                  let ne = ==ℤ-no b' infinity more in
                  let (s, h', run, is_found) =
                    find_child-Finds c' b' es
                      (cdd_bf_push (cdd_bf_pop answer.1) (info k).clock1 (info k).clock2 b')
                      (omega (arith, le, ne)) bounded.1 good.1
                      (push-Keeps n g _ _ _ b' ready popped) in
                  (
                    s,
                    h',
                    rw (failed, more) run,
                    earlier (elem c b (elem c' b' es)) (elem c' b' es) s h' (omega arith) skip
                        is_found,
                  )
            ]
      ]
