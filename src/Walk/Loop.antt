-- ===== src/Walk/Loop.antt =====
-- What the loop over the children of a CDD node computes.
use ucdd.Base.{
  ℕ, ◌≤◌, Bool, true, false, xor, not, ◌&&◌, ◌||◌, ◌≡◌, ◌∙◌, arith, ℤ, ◌<ℤ◌, ltb_ℤ, ◌==ℤ◌, ==ℤ_iff,
}
use ucdd.Bounds.{infinity, minus_infinity}
use ucdd.Dd.{Dd, Elems, nil, elem, cdd_neg_cond}
use ucdd.Dd.Meaning.{Valuation, eval, eval_elems, eval-neg_cond}
use ucdd.Dd.WellFormed.{IsWf, Bounded}
use ucdd.Machine.{Config, M, Rest}
use ucdd.Walk.{iterate}
use ucdd.Levels.Interval.{inside}
use ucdd.Ops.Yields.{Yields, bind-Yields, as-Yields, return-Yields}

-- What holds of each child, with its bounds.
abbrev pub Steps : (ℤ → ℤ → Dd → Type 0) → Bool → ℤ → Elems → Type 0
Steps P neg low nil = Unit
Steps P neg low (elem c b es) = P low b (cdd_neg_cond c neg) × Steps P neg b es

-- Some child contributes.
abbrev pub some_child : (ℤ → ℤ → Dd → Bool) → Bool → ℤ → Elems → Bool
some_child T neg low nil = false
some_child T neg low (elem c b es) = T low b (cdd_neg_cond c neg) || some_child T neg b es

-- The width of the result, when the body turns a result of width `w` into one of width `grow w c`.
abbrev pub width_after : (ℕ → Dd → ℕ) → Bool → Elems → ℕ → ℕ
width_after grow neg nil w = w
width_after grow neg (elem c b es) w = width_after grow neg es (grow w (cdd_neg_cond c neg))

pub width_after-le :
    (grow : ℕ → Dd → ℕ)
    → ((w : ℕ) (c : Dd) → w ≤ grow w c)
    → (neg : Bool) (es : Elems) (w : ℕ) → w ≤ width_after grow neg es w
width_after-le grow up neg nil w = omega arith
width_after-le grow up neg (elem c b es) w =
    omega (
      arith,
      up w (cdd_neg_cond c neg),
      width_after-le grow up neg es (grow w (cdd_neg_cond c neg)),
    )

module _ (cfg : Config) (E : Rest → Type 0) (grow : ℕ → Dd → ℕ)
    (up : (w : ℕ) (c : Dd) → w ≤ grow w c) (T : Valuation → ℤ → ℤ → Dd → Bool)
    (P : ℤ → ℤ → Dd → Type 0) (body : ℤ → ℤ → Dd → Dd → M Dd)
    (step : (low b : ℤ) (c res : Dd) (w : ℕ)
      → P low b c
      → grow w c ≤ cfg.maxcddsize
      → 1 ≤ w
      → IsWf cfg.info w res
      → Yields cfg E (grow w c) (λ v. eval v res || T v low b c) (body low b c res)) where
  -- The loop joins the contributions of all children.
  pub iterate-Yields :
      (neg : Bool) (low : ℤ) (es : Elems) (res : Dd) (w : ℕ)
      → low <ℤ infinity
      → Bounded es
      → Steps (λ l b c. P l b c × (l <ℤ b)) neg low es
      → width_after grow neg es w ≤ cfg.maxcddsize
      → 1 ≤ w
      → IsWf cfg.info w res
      → Yields cfg E
          (width_after grow neg es w)
          (λ v. eval v res || some_child (T v) neg low es)
          (iterate body neg low es res)
  unfolding iterate
  iterate-Yields neg low nil res w lt b steps fits one wf = absurd b
  iterate-Yields neg low (elem c b nil) res w lt e steps fits one wf =
      let go : (low ==ℤ infinity) ≡ false = ground arith in
      let stop : (b ==ℤ infinity) ≡ true = (==ℤ_iff b infinity).1 e in
      rw go (
        bind-Yields cfg E _ _ _ _ _ _ (step low b (cdd_neg_cond c neg) res w steps.0.0 fits one wf)
          (λ d wd means. rw stop (return-Yields cfg E _ _ d wd (λ v. means v ∙ ground arith))))
  iterate-Yields neg low (elem c b (elem c' b' es)) res w lt bounded steps fits one wf =
      let go : (low ==ℤ infinity) ≡ false = ground arith in
      let grown = grow w (cdd_neg_cond c neg) in
      let more = width_after-le grow up neg (elem c' b' es) grown in
      let wide = up w (cdd_neg_cond c neg) in
      rw go (
        bind-Yields cfg E _ _ _ _ _ _
          (step low b (cdd_neg_cond c neg) res w steps.0.0 (omega (arith, more, fits)) one wf)
          (λ d wd means.
            as-Yields cfg E _ _ _ _ _ (omega arith) (λ v. rw (means v) (ground arith))
              (iterate-Yields neg b (elem c' b' es) d grown (below b b' es bounded) bounded.1
                steps.1 fits (omega (arith, wide, one)) wd)))
    where
      below : (p q : ℤ) (rest : Elems) → Bounded (elem c p (elem c' q rest)) → p <ℤ infinity
      below p q nil h = ground (arith, h.0, h.1)
      below p q (elem c'' r rest) h = omega (arith, h.0, below q r rest h.1)

-- The loop over all children with the interval of each is the value of the node.
pub some_child-eval :
    (v : Valuation) (q : ℤ) (neg : Bool) (low : ℤ) (es : Elems)
    → minus_infinity <ℤ q
    → q <ℤ infinity
    → Bounded es
    → Steps (λ l b c. l <ℤ b) neg low es
    → some_child (λ l b c. inside l b q && eval v c) neg low es
      ≡ (not (ltb_ℤ q low) && xor neg (eval_elems v q es))
unfolding inside eval
some_child-eval v q neg low nil above below b steps = absurd b
some_child-eval v q neg low (elem c b nil) above below e steps =
    rw (eval-neg_cond v c neg, e) (ground arith)
some_child-eval v q neg low (elem c b (elem c' b' es)) above below bounded steps =
    rw
      (
        some_child-eval v q neg b (elem c' b' es) above below bounded.1 steps.1,
        eval-neg_cond v c neg,
      )
      (ground (arith, steps.0))

-- The same at a level of the valuation, from -INF on.
pub some_child-value :
    (v : Valuation) (k : ℕ) (neg : Bool) (es : Elems)
    → Bounded es
    → Steps (λ l b c. l <ℤ b) neg minus_infinity es
    → some_child (λ l b c. inside l b (v.diffs k) && eval v c) neg minus_infinity es
      ≡ xor neg (eval_elems v (v.diffs k) es)
some_child-value v k neg es bounded steps =
    some_child-eval v (v.diffs k) neg minus_infinity es (v.above k) (v.in_range k) bounded steps
    ∙ ground (arith, v.above k)
