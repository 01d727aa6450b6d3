-- ===== src/Replace/Child.antt =====
-- The new variable or interval of a level, and the loop over the children of a CDD node in
-- `cdd_replace`.
use ucdd.Base.{
  ℕ, ◌<◌, ◌≤◌, ◌≡◌, refl, sym, ◌∙◌, ap, subst, arith, inl, inr, Bool, xor, Bool-cases, ltb, List,
  get_or, ℤ, ◌<ℤ◌, negsuc, neg_ℤ_parts,
}
use ucdd.Bounds.{infinity, minus_infinity}
use ucdd.Dd.{Dd, Elems, elem, max_level, cddfalse}
use ucdd.Dd.Meaning.{Valuation, eval, eval_elems}
use ucdd.Dd.WellFormed.{Bounded, IsWf, height, height_elems}
use ucdd.Machine.{Config, M, Rest, LevelInfo}
use ucdd.Nodes.{cdd_bddvar}
use ucdd.Nodes.Laws.{eval-bddvar, bddvar-IsWf}
use ucdd.Apply.{lift}
use ucdd.Levels.{Levels, level_at, and_then}
use ucdd.Levels.Table.{IsTable}
use ucdd.Levels.Interval.{inside, difference_of, get_or-some, interval_correct}
use ucdd.Ops.Yields.{Yields, lift-Yields, as-Yields}
use ucdd.Walk.{iterate}
use ucdd.Walk.Loop.{some_child-value}
use ucdd.Walk.Room.{room, room_elems, InRange, Child, weaken-Steps}
use ucdd.Walk.Children.{rebuild-Yields}
use ucdd.Replace.{new_variable, new_interval, replace_child}
use ucdd.Replace.Room.{
  HasVariable, HasClocks, IsReplaceable, IsReplaceableElems, IsReplaceable-neg_cond,
  IsReplaceable-Children,
}

difference_of-above :
    (table : Levels) (v : Valuation) (i j : ℕ) → minus_infinity <ℤ difference_of table v i j
unfolding difference_of
difference_of-above table v i j = elim (Bool-cases (ltb j i)) [
  | inl e ↦ rw e (v.above _)
  | inr e ↦ rw e (omega (arith, neg_ℤ_parts (v.diffs _), v.in_range _))
]

difference_of-below :
    (table : Levels) (v : Valuation) (i j : ℕ) → difference_of table v i j <ℤ infinity
unfolding difference_of
difference_of-below table v i j = elim (Bool-cases (ltb j i)) [
  | inl e ↦ rw e (v.in_range _)
  | inr e ↦ rw e (omega (arith, neg_ℤ_parts (v.diffs _), v.above _))
]

module _ (cfg : Config) (table : Levels) (levels clocks : List ℕ) where
  -- The valuation of the old variables and clocks by the new ones.
  pub renamed : Valuation → Valuation
  renamed v = record {
    bools = λ k. v.bools (get_or levels k 0);
    diffs = λ k.
        difference_of table v (get_or clocks (cfg.info k).clock1 0)
          (get_or clocks (cfg.info k).clock2 0);
    above = λ k. difference_of-above table v _ _;
    in_range = λ k. difference_of-below table v _ _;
  }

  -- The result of the replacement in a diagram.
  abbrev pub IsRenamed : Dd → Dd → Type 0
  IsRenamed node d =
      IsWf cfg.info (room node) d × ((v : Valuation) → eval v d ≡ eval (renamed v) node)

  module _ (default : LevelInfo) (matches : cfg.info ≡ λ k. get_or table.levelinfo k default)
      (ordered : IsTable table) (few : table.levelcnt ≤ max_level) (E : Rest → Type 0) where
    pub variable-Yields :
        (k : ℕ)
        → HasVariable cfg table levels clocks k
        → Yields cfg E 1 (λ v. (renamed v).bools k) (lift (new_variable cfg table levels clocks k))
    unfolding new_variable level_at and_then renamed IsWf
    variable-Yields k (l, at, t, small) =
        lift-Yields cfg E 1 _ _ (cdd_bddvar l) (rw at refl) (bddvar-IsWf cfg.info 1 l t small)
          (λ v. eval-bddvar v l ∙ ap v.bools (sym (get_or-some levels k 0 l at)))

    interval-Yields :
        (k : ℕ) (low b : ℤ)
        → HasClocks cfg table levels clocks k
        → 3 ≤ cfg.maxcddsize
        → InRange low b
        → Yields cfg E 3
            (λ v. inside low b ((renamed v).diffs k))
            (lift (new_interval cfg table levels clocks (cfg.info k) low b))
    unfolding new_interval level_at and_then renamed
    interval-Yields k low b (i, j, ati, atj, li, lj, ne) space (bottom, lt, top, far, finite) =
        let (d, run, wf, means) =
          interval_correct table default cfg.maxcddsize i j low b ordered few space li lj ne bottom
            lt top far finite in
        lift-Yields cfg E 3 _ _ d (rw (ati, atj) run) (subst (λ i. IsWf i 3 d) (sym matches) wf)
          (λ v. rw (means v, get_or-some clocks _ 0 i ati, get_or-some clocks _ 0 j atj) refl)

    module _ (fuel : ℕ) (rec : Dd → M Dd)
        (ih : (node : Dd)
          → IsReplaceable cfg table levels clocks node
          → height node < fuel
          → room node ≤ cfg.maxcddsize
          → Yields cfg E (room node) (λ v. eval (renamed v) node) (rec node)) where
      pub cdd-Yields :
          (k : ℕ) (neg : Bool) (c c' : Dd) (b b' : ℤ) (es : Elems)
          → HasClocks cfg table levels clocks k
          → Bounded (elem c b (elem c' b' es))
          → negsuc 0x7FFFFFFC <ℤ b
          → IsReplaceableElems cfg table levels clocks (elem c b (elem c' b' es))
          → height_elems (elem c b (elem c' b' es)) < fuel
          → room_elems (elem c b (elem c' b' es)) 1 ≤ cfg.maxcddsize
          → Yields cfg E
              (room_elems (elem c b (elem c' b' es)) 1)
              (λ v.
                xor neg (eval_elems (renamed v) ((renamed v).diffs k) (elem c b (elem c' b' es))))
              (iterate
                (replace_child cfg table levels clocks rec (cfg.info k))
                neg
                minus_infinity
                (elem c b (elem c' b' es))
                cddfalse)
      unfolding replace_child
      cdd-Yields k neg c c' b b' es hc bounded far good small fits =
          let all = elem c b (elem c' b' es) in
          let (steps, h) =
            rebuild-Yields cfg E fuel rec (λ v d. eval (renamed v) d)
              (IsReplaceable cfg table levels clocks)
              (IsReplaceable-neg_cond cfg table levels clocks) ih (λ v. (renamed v).diffs k)
              (new_interval cfg table levels clocks (cfg.info k))
              (λ low u space range. interval-Yields k low u hc space range) neg c c' b b' es bounded
              far (IsReplaceable-Children cfg table levels clocks all good) small fits in
          as-Yields cfg E _ _ _ _ _ (omega arith)
            (λ v. some_child-value (renamed v) k neg all bounded (
              weaken-Steps
                (Child (IsReplaceable cfg table levels clocks)
                  (IsReplaceable-neg_cond cfg table levels clocks) fuel)
                neg minus_infinity all steps))
            h
