-- ===== src/Replace/Correct.antt =====
-- `cdd_replace` is the renaming of variables and clocks.
use ucdd.Base.{
  ℕ, zero, suc, ◌<◌, ◌≤◌, ◌≡◌, refl, arith, inl, inr, Bool, true, false, xor, Bool-cases, List,
  get_or, length,
}
use Prim.Native.Nat.{max}
use ucdd.Dd.{
  Dd, Node, ptr, terminal, xterm, bdd_node, cdd_node, nil, elem, max_level, cdd_neg_cond,
  cdd_isterminal, level_of,
}
use ucdd.Dd.Meaning.{Valuation, eval, eval-neg_cond}
use ucdd.Dd.WellFormed.{IsWf, IsWf-widen, height, height-neg_cond}
use ucdd.Cache.Laws.{All}
use ucdd.RelaxCache.{RelaxCache}
use ucdd.Machine.{Config, State, M, Rest, Returns, LevelInfo}
use ucdd.Apply.Spec.{IsSound}
use ucdd.Levels.{Levels}
use ucdd.Levels.Table.{IsTable}
use ucdd.Ops.Yields.{Yields, bind-Yields, return-Yields, as-Yields, ite-Yields}
use ucdd.Walk.{replace_slot}
use ucdd.Walk.Memo.{During, earlier, memo-Yields}
use ucdd.Replace.{
  new_interval, replace_child, replace_level, replace_step, cdd_replace_rec, cdd_replace,
}
use ucdd.Walk.Room.{room, room-neg_cond}
use ucdd.Replace.Room.{IsReplaceable, IsReplaceable-neg_cond}
use ucdd.Replace.Child.{renamed, IsRenamed, variable-Yields, cdd-Yields}

module _ (cfg : Config) (table : Levels) (levels clocks : List ℕ) (default : LevelInfo)
    (matches : cfg.info ≡ λ k. get_or table.levelinfo k default) (ordered : IsTable table)
    (few : table.levelcnt ≤ max_level) where
  abbrev Replaced : (Rest → Type 0) → Dd → M Dd → Type 0
  Replaced E node m =
      Yields cfg E (room node) (λ v. eval (renamed cfg table levels clocks v) node) m

  -- The recursive calls with less fuel are right.
  abbrev IsRight : (Rest → Type 0) → ℕ → (Dd → M Dd) → Type 0
  IsRight E fuel rec =
      (node : Dd)
      → IsReplaceable cfg table levels clocks node
      → height node < fuel
      → room node ≤ cfg.maxcddsize
      → Replaced E node (rec node)

  module _ (E : Rest → Type 0) (fuel : ℕ) (rec : Dd → M Dd) (ih : IsRight E fuel rec) where
    branch-Yields :
        (d : Dd) (m : Bool)
        → IsReplaceable cfg table levels clocks d
        → height d < fuel
        → room d ≤ cfg.maxcddsize
        → Yields cfg E
            (room d)
            (λ v. xor m (eval (renamed cfg table levels clocks v) d))
            (rec (cdd_neg_cond d m))
    branch-Yields d m good small fits =
        as-Yields cfg E _ _ _ _ _ (omega (arith, room-neg_cond d m))
          (λ v. eval-neg_cond (renamed cfg table levels clocks v) d m)
          (ih (cdd_neg_cond d m) (IsReplaceable-neg_cond cfg table levels clocks d m good)
            (omega (arith, height-neg_cond d m)) (omega (arith, room-neg_cond d m)))

    level-Yields :
        (m : Bool) (n : Node)
        → IsReplaceable cfg table levels clocks (ptr m n)
        → height (ptr m n) < suc fuel
        → room (ptr m n) ≤ cfg.maxcddsize
        → cdd_isterminal (ptr m n) ≡ false
        → Replaced E (ptr m n) (
            replace_level cfg table levels clocks rec
              (cfg.info (level_of n))
              (cfg.info (level_of n)).type
              m
              n)
    unfolding replace_level IsReplaceable room eval height cdd_isterminal replace_child new_interval
    level-Yields m terminal good small fits inner = absurd (ground arith)
    level-Yields m (xterm id) good small fits inner = absurd good
    level-Yields m (bdd_node k low high) (t, lt, var, gl, gh) small fits inner =
        let w = max 1 (max (room low) (room high)) in
        rw t (
          bind-Yields cfg E _ _ _ _ _ _
            (variable-Yields cfg table levels clocks default matches ordered few E k var)
            λ d₁ wf₁ m₁.
              bind-Yields cfg E _ _ _ _ _ _ (branch-Yields low m gl (omega arith) (omega arith))
                λ d₂ wf₂ m₂.
                  bind-Yields cfg E _ _ _ _ _ _
                    (branch-Yields high m gh (omega arith) (omega arith))
                    λ d₃ wf₃ m₃.
                      as-Yields cfg E _ _ _ _ _ (omega arith)
                        (λ v. rw (m₁ v, m₂ v, m₃ v) (ground arith))
                        (ite-Yields cfg E w d₁ d₃ d₂ (omega arith) (omega arith)
                          (IsWf-widen cfg.info 1 w (omega arith) d₁ wf₁)
                          (IsWf-widen cfg.info (room high) w (omega arith) d₃ wf₃)
                          (IsWf-widen cfg.info (room low) w (omega arith) d₂ wf₂)))
    level-Yields m (cdd_node k nil) (t, lt, hc, bounded, far, all) small fits inner = absurd bounded
    level-Yields m (cdd_node k (elem c b nil)) (t, lt, hc, bounded, far, all) small fits inner =
        absurd far
    level-Yields m (cdd_node k (elem c b (elem c' b' es))) (t, lt, hc, bounded, far, all) small fits
          inner =
        rw t (
          cdd-Yields cfg table levels clocks default matches ordered few E fuel rec ih k m c c' b b'
            es hc bounded far all (omega arith) fits)

  module _ (n : ℕ) (X : RelaxCache → Type 0) where
    abbrev Now : Rest → Type 0
    Now = During replace_slot n (IsRenamed cfg table levels clocks) X

    step-Yields :
        (fuel : ℕ) (rec : Dd → M Dd)
        → IsRight Now fuel rec
        → IsRight Now (suc fuel) (replace_step cfg table levels clocks rec)
    unfolding replace_step cdd_isterminal IsReplaceable IsWf eval
    step-Yields fuel rec ih (ptr m node) good small fits =
        elim (Bool-cases (cdd_isterminal (ptr m node))) [
          | inl e ↦ rw e (
              return-Yields cfg Now _ _ (ptr m node) (leaf_wf m node good e)
                (λ v. leaf_eval m node v good e))
          | inr e ↦ rw e (
              memo-Yields cfg replace_slot n _ X _ (ptr m node) _ _ _ (λ d g. g)
                (λ d wf means. (wf, means)) (level-Yields Now fuel rec ih m node good small fits e))
        ]
      where
        leaf_wf :
            (m : Bool) (node : Node)
            → IsReplaceable cfg table levels clocks (ptr m node)
            → cdd_isterminal (ptr m node) ≡ true
            → IsWf cfg.info (room (ptr m node)) (ptr m node)
        leaf_wf m terminal good e = tt
        leaf_wf m (xterm id) good e = absurd good
        leaf_wf m (bdd_node k low high) good e = absurd (ground (arith, good))
        leaf_wf m (cdd_node k es) good e = absurd (ground (arith, good))

        leaf_eval :
            (m : Bool) (node : Node) (v : Valuation)
            → IsReplaceable cfg table levels clocks (ptr m node)
            → cdd_isterminal (ptr m node) ≡ true
            → eval v (ptr m node) ≡ eval (renamed cfg table levels clocks v) (ptr m node)
        leaf_eval m terminal v good e = refl
        leaf_eval m (xterm id) v good e = refl
        leaf_eval m (bdd_node k low high) v good e = absurd (ground (arith, good))
        leaf_eval m (cdd_node k es) v good e = absurd (ground (arith, good))

    rec-IsRight : (fuel : ℕ) → IsRight Now fuel (cdd_replace_rec cfg table levels clocks fuel)
    unfolding cdd_replace_rec
    rec-IsRight zero node good small fits = absurd (omega arith)
    rec-IsRight (suc fuel) node good small fits =
        step-Yields fuel _ (rec-IsRight fuel) node good small fits

  -- On a diagram whose nodes stand on levels of their own type and whose only terminals are true
  -- and false, with bounds that increase up to INF, a first bound above 1 - INF and at least two
  -- children at each CDD node, over a table that is in order and has at most max_level levels, in
  -- which every variable of the diagram has a new level of a variable and every difference two
  -- different new clocks of the table, with fuel above the height, room for the widths, a sound
  -- state and a replace cache that is not empty and holds no entry of a later operation:
  -- cdd_replace returns a well-formed diagram of the width that was reserved, whose value at each
  -- valuation is the value of the old diagram at the valuation in which each variable and clock has
  -- the value of its new one.
  pub replace_correct :
      (fuel : ℕ) (node : Dd) (s : State)
      → IsReplaceable cfg table levels clocks node
      → height node < fuel
      → room node ≤ cfg.maxcddsize
      → IsSound cfg s
      → 0 < length s.replacecache
      → All (λ e. e.c ≤ s.opid) s.replacecache
      → Returns (cdd_replace cfg table levels clocks fuel node s) (λ d s'.
        IsWf cfg.info (room node) d
        × ((v : Valuation) → eval v d ≡ eval (renamed cfg table levels clocks v) node))
  unfolding cdd_replace
  replace_correct fuel node s good small fits sound space old =
      let (d, s', run, (g, after)) =
        rec-IsRight (suc s.opid) (λ x. Unit) fuel node good small fits
          (record s { opid = suc s.opid })
          (record { calm = sound.calm; room = sound.room; entries = sound.entries })
          (record {
            current = refl;
            room = space;
            entries = earlier _ s.opid s.replacecache old;
            other = tt;
          }) in
      (d, s', run, (g.wf, g.meaning))
