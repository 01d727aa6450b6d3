-- ===== src/Exist/Correct.antt =====
-- `cdd_exist` without clocks is the existential quantification of the variables.
use ucdd.Base.{
  ℕ, zero, suc, ◌<◌, ◌≤◌, ◌≡◌, refl, sym, ◌∙◌, arith, inl, inr, Bool, false, ◌&&◌, ◌==◌,
  if◌then◌else◌, Bool-cases, List, [], ◌∷◌, length, ℤ,
}
use Prim.Native.Nat.{max}
use ucdd.Bounds.{minus_infinity}
use ucdd.Dd.{
  Dd, Elems, ptr, terminal, xterm, bdd_node, cdd_node, nil, elem, max_level, cdd_neg_cond,
  cdd_isterminal,
}
use ucdd.Dd.Meaning.{Valuation, eval, eval-neg_cond}
use ucdd.Dd.WellFormed.{IsWf, IsWf-widen, height, height-neg_cond}
use ucdd.Cache.Laws.{All}
use ucdd.RelaxCache.{RelaxCache}
use ucdd.Machine.{Config, State, M, Rest, Returns, ok, type_bdd, type_cdd}
use ucdd.Nodes.{cdd_bddvar, cdd_interval_from_level}
use ucdd.Nodes.Laws.{interval_meaning, eval-bddvar, bddvar-IsWf}
use ucdd.Apply.{lift}
use ucdd.Apply.Spec.{IsSound}
use ucdd.Levels.{Levels}
use ucdd.Levels.Interval.{inside}
use ucdd.Ops.Yields.{
  Yields, bind-Yields, lift-Yields, known-Yields, return-Yields, as-Yields, or-Yields, ite-Yields,
}
use ucdd.Walk.{quant_slot}
use ucdd.Walk.Loop.{some_child, some_child-value}
use ucdd.Walk.Room.{room, room-neg_cond, InRange, Child, weaken-Steps}
use ucdd.Walk.Children.{rebuild-Yields}
use ucdd.Walk.Memo.{During, earlier, memo-Yields}
use ucdd.Exist.{
  is_affected, forget_child, keep_child, exist_level, exist_step, cdd_exist_rec, cdd_exist,
}
use ucdd.Exist.Quantified.{
  quantified, quantified-or, quantified-and, quantified-const, quantified-same, quantified-if,
  quantified-join, is_listed,
}
use ucdd.Exist.Occurs.{
  Avoids-neg_cond, eval-Ignores, IsReadOnce, IsReadOnce-neg_cond, IsReadOnce-Children,
}

affected_listed :
    (k : ℕ) (ks : List ℕ) → is_affected (λ x. x == k) (length ks) ks ≡ ok (is_listed k ks)
unfolding is_affected is_listed
affected_listed k [] = refl
affected_listed k (j ∷ js) = elim (Bool-cases (j == k)) [
  | inl e ↦ rw e refl
  | inr e ↦ rw e (affected_listed k js)
]

some_child-quantified :
    (ks : List ℕ) (v : Valuation) (k : ℕ) (neg : Bool) (low : ℤ) (es : Elems)
    → some_child (λ l b c. inside l b (v.diffs k) && quantified ks (λ u. eval u c) v) neg low es
      ≡ quantified ks (λ u. some_child (λ l b c. inside l b (u.diffs k) && eval u c) neg low es) v
some_child-quantified ks v k neg low nil = sym (quantified-const ks false v)
some_child-quantified ks v k neg low (elem c b es) =
    rw
      (
        some_child-quantified ks v k neg b es,
        quantified-or ks (λ u. inside low b (u.diffs k) && eval u (cdd_neg_cond c neg))
            (λ u. some_child (λ l b c. inside l b (u.diffs k) && eval u c) neg b es) v,
        quantified-and ks (λ u. inside low b (u.diffs k)) (λ u. eval u (cdd_neg_cond c neg)) v
            (λ u j x. refl),
      )
      refl

-- The node under a pointer with a negation bit chooses between the negated children.
branches :
    (v : Valuation) (m : Bool) (k : ℕ) (low high : Dd)
    → (if v.bools k then eval v (cdd_neg_cond high m) else eval v (cdd_neg_cond low m))
      ≡ eval v (ptr m (bdd_node k low high))
unfolding eval
branches v m k low high = rw (eval-neg_cond v high m, eval-neg_cond v low m) (ground arith)

module _ (cfg : Config) (table : Levels) (ks clocks : List ℕ) where
  abbrev Quantified : (Rest → Type 0) → Dd → M Dd → Type 0
  Quantified E node m = Yields cfg E (room node) (λ v. quantified ks (λ u. eval u node) v) m

  -- The recursive calls with less fuel are right.
  abbrev IsRight : (Rest → Type 0) → ℕ → (Dd → M Dd) → Type 0
  IsRight E fuel rec =
      (node : Dd)
      → IsReadOnce cfg ks node
      → height node < fuel
      → room node ≤ cfg.maxcddsize
      → Quantified E node (rec node)

  -- The quantification of a diagram.
  abbrev IsQuantified : Dd → Dd → Type 0
  IsQuantified node d =
      IsWf cfg.info (room node) d
      × ((v : Valuation) → eval v d ≡ quantified ks (λ u. eval u node) v)

  module _ (E : Rest → Type 0) (fuel : ℕ) (rc : List ℤ) (rec : List ℤ → Dd → M Dd)
      (ih : IsRight E fuel (rec rc)) where
    branch-Yields :
        (d : Dd) (m : Bool)
        → IsReadOnce cfg ks d
        → height d < fuel
        → room d ≤ cfg.maxcddsize
        → Yields cfg E
            (room d)
            (λ v. quantified ks (λ u. eval u (cdd_neg_cond d m)) v)
            (rec rc (cdd_neg_cond d m))
    branch-Yields d m good small fits =
        as-Yields cfg E _ _ _ _ _ (omega (arith, room-neg_cond d m)) (λ v. refl)
          (ih (cdd_neg_cond d m) (IsReadOnce-neg_cond cfg ks d m good)
            (omega (arith, height-neg_cond d m)) (omega (arith, room-neg_cond d m)))

    interval-Yields :
        (k : ℕ) (low b : ℤ)
        → (cfg.info k).type ≡ type_cdd
        → k < max_level
        → 3 ≤ cfg.maxcddsize
        → InRange low b
        → Yields cfg E 3
            (λ v. inside low b (v.diffs k))
            (lift (cdd_interval_from_level cfg.maxcddsize k low b))
    unfolding inside
    interval-Yields k low b t lt space (bottom, order, top, far, finite) =
        let (d, run, wf, means) =
          interval_meaning cfg.info cfg.maxcddsize k low b space t lt order top
            (elim finite [ inl h ↦ inl (omega arith) | inr h ↦ inr h ]) in
        lift-Yields cfg E 3 _ _ d run wf means

    bdd-Yields :
        (m : Bool) (k : ℕ) (low high : Dd)
        → IsReadOnce cfg ks (ptr m (bdd_node k low high))
        → height (ptr m (bdd_node k low high)) < suc fuel
        → room (ptr m (bdd_node k low high)) ≤ cfg.maxcddsize
        → Quantified E (ptr m (bdd_node k low high)) (
            exist_level cfg table ks clocks
              (length ks)
              0
              fuel
              rec
              (cfg.info k)
              rc
              type_bdd
              m
              (bdd_node k low high))
    unfolding exist_level IsReadOnce room height
    bdd-Yields m k low high (t, lt, once, gl, gh) small fits =
        let w = max 1 (max (room low) (room high)) in
        let f = λ (u : Valuation). eval u (cdd_neg_cond high m) in
        let g = λ (u : Valuation). eval u (cdd_neg_cond low m) in
        let node : (v : Valuation)
            → quantified ks (λ u. if u.bools k then f u else g u) v
              ≡ quantified ks (λ u. eval u (ptr m (bdd_node k low high))) v =
          λ v. quantified-same ks _ _ v (λ u. branches u m k low high) in
        bind-Yields cfg E _ _ _ _ _ _ (branch-Yields low m gl (omega arith) (omega arith))
          λ d₁ wf₁ m₁.
            bind-Yields cfg E _ _ _ _ _ _ (branch-Yields high m gh (omega arith) (omega arith))
              λ d₂ wf₂ m₂.
                let wide₁ = IsWf-widen cfg.info (room low) w (omega arith) d₁ wf₁ in
                let wide₂ = IsWf-widen cfg.info (room high) w (omega arith) d₂ wf₂ in
                known-Yields cfg E _ _ _ (is_listed k ks) _ (affected_listed k ks)
                  (elim (Bool-cases (is_listed k ks)) [
                    | inl e ↦ rw e (
                        as-Yields cfg E _ _ _ _ _ (omega arith)
                          (λ v.
                            let (al, ah) = once e in
                            rw (m₁ v, m₂ v)
                              (sym (
                                  quantified-join ks k f g v e
                                    (eval-Ignores k _ (Avoids-neg_cond k high m ah))
                                    (eval-Ignores k _ (Avoids-neg_cond k low m al)))
                                ∙ node v))
                          (or-Yields cfg E w d₁ d₂ (omega arith) (omega arith) wide₁ wide₂))
                    | inr e ↦ rw e (
                        as-Yields cfg E _ _ _ _ _ (omega arith)
                          (λ v.
                            rw (eval-bddvar v k, m₁ v, m₂ v)
                              (sym (quantified-if ks k f g v e) ∙ node v))
                          (ite-Yields cfg E w (cdd_bddvar k) d₂ d₁ (omega arith) (omega arith)
                            (bddvar-IsWf cfg.info w k t lt) wide₂ wide₁))
                  ])

    cdd-Yields :
        (m : Bool) (k : ℕ) (es : Elems)
        → IsReadOnce cfg ks (ptr m (cdd_node k es))
        → height (ptr m (cdd_node k es)) < suc fuel
        → room (ptr m (cdd_node k es)) ≤ cfg.maxcddsize
        → Quantified E (ptr m (cdd_node k es)) (
            exist_level cfg table ks clocks
              (length ks)
              0
              fuel
              rec
              (cfg.info k)
              rc
              type_cdd
              m
              (cdd_node k es))
    unfolding exist_level is_affected keep_child IsReadOnce room height eval
    cdd-Yields m k nil (t, lt, bounded, far, all) small fits = absurd bounded
    cdd-Yields m k (elem c b nil) (t, lt, bounded, far, all) small fits = absurd far
    cdd-Yields m k (elem c b (elem c' b' es)) (t, lt, bounded, far, all) small fits =
        let es' = elem c b (elem c' b' es) in
        let (steps, h) =
          rebuild-Yields cfg E fuel (rec rc) (λ v d. quantified ks (λ u. eval u d) v)
            (IsReadOnce cfg ks) (IsReadOnce-neg_cond cfg ks) ih (λ v. v.diffs k)
            (cdd_interval_from_level cfg.maxcddsize k)
            (λ low u space range. interval-Yields k low u t lt space range) m c c' b b' es bounded
            far (IsReadOnce-Children cfg ks es' all) (omega arith) fits in
        known-Yields cfg E _ _ _ false _ refl (
          as-Yields cfg E _ _ _ _ _ (omega arith)
            (λ v.
              some_child-quantified ks v k m minus_infinity es'
              ∙ quantified-same ks _ _ v λ u. some_child-value u k m es' bounded (
                  weaken-Steps (Child (IsReadOnce cfg ks) (IsReadOnce-neg_cond cfg ks) fuel) m
                    minus_infinity es' steps))
            h)

  module _ (n : ℕ) (X : RelaxCache → Type 0) where
    abbrev Now : Rest → Type 0
    Now = During quant_slot n IsQuantified X

    step-Yields :
        (fuel : ℕ) (rec : List ℤ → Dd → M Dd) (rc : List ℤ)
        → IsRight Now fuel (rec rc)
        → IsRight Now (suc fuel) (exist_step cfg table ks clocks (length ks) 0 fuel rec rc)
    unfolding exist_step cdd_isterminal IsReadOnce IsWf eval forget_child
    step-Yields fuel rec rc ih (ptr m terminal) good small fits =
        return-Yields cfg Now _ _ (ptr m terminal) tt (λ v. sym (quantified-const ks _ v))
    step-Yields fuel rec rc ih (ptr m (xterm id)) good small fits = absurd good
    step-Yields fuel rec rc ih (ptr m (bdd_node k low high)) good small fits =
        let inner : (k == max_level) ≡ false = ground (arith, good.1) in
        rw (inner, good.0)
          (memo-Yields cfg quant_slot n _ X _ _ _ _ _ (λ d g. g) (λ d wf means. (wf, means))
            (bdd-Yields Now fuel rc rec ih m k low high good small fits))
    step-Yields fuel rec rc ih (ptr m (cdd_node k es)) good small fits =
        let inner : (k == max_level) ≡ false = ground (arith, good.1) in
        rw (inner, good.0)
          (memo-Yields cfg quant_slot n _ X _ _ _ _ _ (λ d g. g) (λ d wf means. (wf, means))
            (cdd-Yields Now fuel rc rec ih m k es good small fits))

    rec-IsRight :
        (fuel : ℕ) (rc : List ℤ)
        → IsRight Now fuel (cdd_exist_rec cfg table ks clocks (length ks) 0 fuel rc)
    unfolding cdd_exist_rec
    rec-IsRight zero rc node good small fits = absurd (omega arith)
    rec-IsRight (suc fuel) rc node good small fits =
        step-Yields fuel _ rc (rec-IsRight fuel rc) node good small fits

  -- On a diagram whose nodes stand on levels of their own type and whose only terminals are true
  -- and false, with bounds that increase up to INF, a first bound above 1 - INF and at least two
  -- children at each CDD node, in which no quantified variable occurs below a node that tests it,
  -- with no clocks to quantify, fuel above the height, room for the widths, a sound state and a
  -- cache that is not empty and holds no entry of a later operation: cdd_exist returns a well-
  -- formed diagram of the width that was reserved, which is true exactly at the valuations where
  -- some values of the listed variables make the old diagram true.
  pub exist_correct :
      (fuel : ℕ) (node : Dd) (s : State)
      → IsReadOnce cfg ks node
      → height node < fuel
      → room node ≤ cfg.maxcddsize
      → IsSound cfg s
      → 0 < length s.quantcache
      → All (λ e. e.c ≤ s.opid) s.quantcache
      → Returns (cdd_exist cfg table ks clocks (length ks) 0 fuel node s) (λ d s'.
        IsWf cfg.info (room node) d
        × ((v : Valuation) → eval v d ≡ quantified ks (λ u. eval u node) v))
  unfolding cdd_exist
  exist_correct fuel node s good small fits sound space old =
      let (d, s', run, (g, after)) =
        rec-IsRight (suc s.opid) (λ x. Unit) fuel _ node good small fits
          (record s { opid = suc s.opid })
          (record { calm = sound.calm; room = sound.room; entries = sound.entries })
          (record {
            current = refl;
            room = space;
            entries = earlier _ s.opid s.quantcache old;
            other = tt;
          }) in
      (d, s', run, (g.wf, g.meaning))
