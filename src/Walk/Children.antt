-- ===== src/Walk/Children.antt =====
-- The loop over the children of a CDD node that intersects the result of the recursion with the
-- interval of the child, and joins.
use ucdd.Base.{ℕ, ◌+◌, ◌<◌, ◌≤◌, refl, arith, inr, Bool, ◌&&◌, ◌||◌, ℤ, ◌<ℤ◌, negsuc}
use Prim.Native.Nat.{max}
use ucdd.Bounds.{minus_infinity}
use ucdd.Dd.{Dd, Elems, elem, cdd_neg_cond, cddfalse}
use ucdd.Dd.Meaning.{Valuation, eval, eval-false}
use ucdd.Dd.WellFormed.{Bounded, IsWf, IsWf-widen, height, height_elems}
use ucdd.Machine.{Config, M, Run, Rest, ◌>>=◌}
use ucdd.Apply.{lift, cddop_and}
use ucdd.Apply.Step.{Bounded-le}
use ucdd.Levels.Interval.{inside}
use ucdd.Ops.{cdd_and, cdd_or}
use ucdd.Ops.Yields.{Yields, bind-Yields, as-Yields, apply-Yields, or-Yields}
use ucdd.Walk.{iterate}
use ucdd.Walk.Loop.{Steps, some_child, iterate-Yields}
use ucdd.Walk.Room.{both, room, room_elems, room_after, grow, InRange, Child, Children, all-Steps}

-- The body of the loop.
abbrev pub rebuild : Config → (ℤ → ℤ → Run Dd) → (Dd → M Dd) → ℤ → ℤ → Dd → Dd → M Dd
rebuild cfg interval rec low up child res = do
  tmp1 ← lift (interval low up)
  tmp2 ← rec child
  tmp3 ← cdd_and cfg tmp1 tmp2
  cdd_or cfg res tmp3

module _ (cfg : Config) (E : Rest → Type 0) (fuel : ℕ) (rec : Dd → M Dd) (T : Valuation → Dd → Bool)
    (Good : Dd → Type 0) (neg_good : (d : Dd) (m : Bool) → Good d → Good (cdd_neg_cond d m))
    (ih : (node : Dd)
      → Good node
      → height node < fuel
      → room node ≤ cfg.maxcddsize
      → Yields cfg E (room node) (λ v. T v node) (rec node))
    (q : Valuation → ℤ) (interval : ℤ → ℤ → Run Dd)
    (interval-Yields : (low b : ℤ)
      → 3 ≤ cfg.maxcddsize
      → InRange low b
      → Yields cfg E 3 (λ v. inside low b (q v)) (lift (interval low b))) where
  body-Yields :
      (low b : ℤ) (c res : Dd) (w : ℕ)
      → Child Good neg_good fuel low b c
      → grow w c ≤ cfg.maxcddsize
      → 1 ≤ w
      → IsWf cfg.info w res
      → Yields cfg E
          (grow w c)
          (λ v. eval v res || (inside low b (q v) && T v c))
          (rebuild cfg interval rec low b c res)
  unfolding cdd_and
  body-Yields low b c res w (range, good, small) fits one wf =
      let p = max 3 (room c) in
      bind-Yields cfg E _ _ _ _ _ _ (interval-Yields low b (omega arith) range) λ d₁ wf₁ m₁.
        bind-Yields cfg E _ _ _ _ _ _ (ih c good small (omega arith)) λ d₂ wf₂ m₂.
          bind-Yields cfg E _ _ _ _ _ _
            (apply-Yields cfg E p cddop_and d₁ d₂ (omega arith) (omega arith)
              (IsWf-widen cfg.info 3 p (omega arith) d₁ wf₁)
              (IsWf-widen cfg.info (room c) p (omega arith) d₂ wf₂))
            λ d₃ wf₃ m₃.
              as-Yields cfg E _ _ _ _ _ (omega arith) (λ v. rw (m₃ v, m₁ v, m₂ v) refl)
                (or-Yields cfg E (max w (both 3 (room c))) res d₃ (omega arith) (omega arith)
                  (IsWf-widen cfg.info w _ (omega arith) res wf)
                  (IsWf-widen cfg.info (p + p) _ (omega arith) d₃ wf₃))

  joined_up : (w : ℕ) (c : Dd) → w ≤ grow w c
  joined_up w c = omega arith

  -- The loop over the children of a node, from -INF on.
  pub rebuild-Yields :
      (neg : Bool) (c c' : Dd) (b b' : ℤ) (es : Elems)
      → Bounded (elem c b (elem c' b' es))
      → negsuc 0x7FFFFFFC <ℤ b
      → Children Good (elem c b (elem c' b' es))
      → height_elems (elem c b (elem c' b' es)) < fuel
      → room_elems (elem c b (elem c' b' es)) 1 ≤ cfg.maxcddsize
      → Steps
          (λ l u d. Child Good neg_good fuel l u d × (l <ℤ u))
          neg
          minus_infinity
          (elem c b (elem c' b' es))
        × Yields cfg E
            (room_elems (elem c b (elem c' b' es)) 1)
            (λ v.
              some_child
                (λ l u d. inside l u (q v) && T v d)
                neg
                minus_infinity
                (elem c b (elem c' b' es)))
            (iterate
              (rebuild cfg interval rec)
              neg
              minus_infinity
              (elem c b (elem c' b' es))
              cddfalse)
  unfolding IsWf
  rebuild-Yields neg c c' b b' es bounded far good small fits =
      let all = elem c b (elem c' b' es) in
      let steps =
        all-Steps Good neg_good fuel neg minus_infinity b c (elem c' b' es) bounded (ground arith)
          (omega arith) far (inr (omega (arith, bounded.0, Bounded-le c' b' es bounded.1))) good
          small in
      let size = room_after neg all 1 in
      (
        steps,
        as-Yields cfg E _ _ _ _ _ (omega (arith, size)) (λ v. rw (eval-false v) refl)
            (iterate-Yields cfg E grow joined_up (λ v l u d. inside l u (q v) && T v d)
              (Child Good neg_good fuel) (rebuild cfg interval rec)
              (λ low u d res w p. body-Yields low u d res w p) neg minus_infinity all cddfalse 1
              (ground arith) bounded steps (omega (arith, size, fits)) (omega arith) tt),
      )
