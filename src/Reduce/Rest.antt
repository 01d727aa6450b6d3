-- ===== src/Reduce/Rest.antt =====
-- What the second loop of `cdd_bf_reduce_rec` pushes, from the first consistent child on.
use ucdd.Base.{
  ℕ, suc, ◌<◌, ◌≤◌, Bool, true, false, xor, if◌then◌else◌, ◌≡◌, refl, ◌∙◌, arith, Bool-cases, inl,
  inr, ℤ, ◌<ℤ◌, ◌≤ℤ◌, ◌==ℤ◌, ltb_ℤ, ==ℤ_iff, ltb_ℤ→lt, ltb_ℤ→ge,
}
use ucdd.Bounds.{infinity, bnd_l2u}
use ucdd.Dd.{Dd, Elems, nil, elem, size, same, cdd_neg_cond}
use ucdd.Dd.Meaning.{Valuation, eval, eval_elems, eval-neg_cond}
use ucdd.Dd.Equality.{same→eq}
use ucdd.Dd.WellFormed.{Bounded, IsWf, IsWfElems, IsWf-neg_cond}
use ucdd.Machine.{Run, ok, LevelInfo}
use ucdd.Apply.Step.{Bounded-le}
use ucdd.BellmanFord.{Graph, cdd_bf_push, cdd_bf_pop, cdd_bf_consistent}
use ucdd.Reduce.{reduce_child, finish, reduce_rest}
use ucdd.Reduce.Room.{Every}
use ucdd.Reduce.Graphs.{
  Keeps, Keeps-trans, push_dim, IsReady, IsReady-Keeps, IsReady-le, push-IsReady, pop-Keeps,
  consistent-Keeps,
}
use ucdd.Reduce.Clocks.{
  Clocks, AtClocks, IsClocked, Obeys, Reduced, IsRaw, Obeys-consistent, Obeys-Keeps, push-Obeys,
  upper-Holds, lower-Holds,
}
use ucdd.Reduce.Elements.{Starts, cons-Bounded, Starts-le, twice, same_value, new_value}

module _ (raw2bound : ℤ → ℤ) (raw_is_strict : ℤ → ℕ) (raw : IsRaw raw2bound raw_is_strict)
    (info : ℕ → LevelInfo) (w : ℕ) (P : Dd → Type 0)
    (neg_good : (d : Dd) (m : Bool) → P d → P (cdd_neg_cond d m)) (n : ℕ)
    (rec : Dd → Graph → Run (Dd × Graph)) (k : ℕ) (g : Graph) (ready : IsReady (suc (suc n)) g)
    (in1 : (info k).clock1 < g.dim) (in2 : (info k).clock2 < g.dim)
    (ih : (c : Dd) (h : Graph)
      → P c
      → h.dim ≡ g.dim
      → IsReady n h
      → Reduced raw2bound raw_is_strict info w h c (rec c h))
    (neg mask : Bool) where
  abbrev Always : (Valuation → Type 0) → Type 0
  Always Q = AtClocks raw2bound raw_is_strict info g Q

  -- What is known of the elements that the loop pushes.
  pub record IsRest (low : ℤ) (es : Elems) (prev : Dd) (out : Elems) : Type 0 where
    pub bounded : Bounded out
    pub starts : Starts low out
    pub small : size out ≤ suc (size es)
    pub wf : IsWfElems info w out
    pub means : Always (λ v.
        xor mask (eval_elems v (v.diffs k) out)
        ≡ (if ltb_ℤ (v.diffs k) low then eval v prev else xor neg (eval_elems v (v.diffs k) es)))

  abbrev pub Pushes : ℤ → Elems → Dd → Run (Elems × Graph) → Type 0
  Pushes low es prev r =
      (out : Elems) × (h : Graph) × (r ≡ ok (out, h)) × Keeps g h × IsRest low es prev out

  -- The loop ends where no clocks within the graph are above the lower bound.
  finish-Pushes :
      (low : ℤ) (es : Elems) (prev : Dd) (h : Graph)
      → low ≤ℤ infinity
      → IsWf info w prev
      → Keeps g (cdd_bf_pop h)
      → Always (λ v. ltb_ℤ (v.diffs k) low ≡ true)
      → Pushes low es prev (finish mask prev h)
  unfolding finish eval IsWf
  finish-Pushes low es prev h le wf kept all_below = (
    elem (cdd_neg_cond prev mask) infinity nil,
    cdd_bf_pop h,
    refl,
    kept,
    record {
      bounded = refl;
      starts = le;
      small = omega arith;
      wf = (IsWf-neg_cond info w prev mask wf, tt);
      means = λ v x clocked obeys.
          let in_range : ltb_ℤ (v.diffs k) infinity ≡ true = ground (arith, v.in_range k) in
          rw (all_below v x clocked obeys, in_range, eval-neg_cond v prev mask)
            (twice mask (eval v prev));
    },
  )

  -- The recursion for a child is right below its upper bound.
  child_lem :
      (b : ℤ) (c : Dd) (h : Graph)
      → P c
      → h.dim ≡ g.dim
      → IsReady (suc n) h
      → (d : Dd) × (h' : Graph) × (reduce_child raw2bound raw_is_strict infinity rec
            (info k).clock1
            (info k).clock2
            b
            c
            h
          ≡ ok (d, h'))
        × Keeps h h'
        × IsWf info w d
        × AtClocks raw2bound raw_is_strict info h (λ v. v.diffs k <ℤ b → eval v d ≡ eval v c)
  unfolding reduce_child
  child_lem b c h good dim fits = elim (Bool-cases (ltb_ℤ b infinity)) [
    | inl bounded ↦
        let pushed = push-IsReady n h _ _ b (rw dim in1) (rw dim in2) fits in
        let (d, h', run, kept, wf, means) =
          ih c (cdd_bf_push h (info k).clock1 (info k).clock2 b) good (push_dim h _ _ b ∙ dim)
            pushed in
        (
          d,
          cdd_bf_pop h',
          rw (bounded, run) refl,
          pop-Keeps n h h' _ _ b fits kept,
          wf,
          λ v x clocked obeys lt. means v x clocked (
              push-Obeys raw2bound raw_is_strict n x h _ _ b fits obeys
                (upper-Holds raw2bound raw_is_strict raw info v x clocked k b lt)),
        )
    | inr open_end ↦
        let (d, h', run, kept, wf, means) =
          ih c h good dim (IsReady-le n (suc n) h (omega arith) fits) in
        (d, h', rw (open_end, run) refl, kept, wf, λ v x clocked obeys lt. means v x clocked obeys)
  ]

  -- Clocks above the lower bound are within the graph with its edge.
  within :
      (low : ℤ) (h : Graph)
      → Keeps g h
      → (v : Valuation) (x : Clocks) → IsClocked info v x
      → Obeys raw2bound raw_is_strict x g
      → ltb_ℤ (v.diffs k) low ≡ false
      → Obeys raw2bound raw_is_strict x
          (cdd_bf_push h (info k).clock2 (info k).clock1 (bnd_l2u low))
  within low h kept v x clocked obeys e =
      push-Obeys raw2bound raw_is_strict (suc n) x h _ _ (bnd_l2u low)
        (IsReady-Keeps (suc (suc n)) g h kept ready)
        (Obeys-Keeps raw2bound raw_is_strict x g h kept obeys)
        (lower-Holds raw2bound raw_is_strict raw info v x clocked k low
          (ltb_ℤ→ge (v.diffs k) low e))

  -- A lower bound that the graph contradicts.
  lower-fails :
      (low : ℤ) (h : Graph)
      → Keeps g h
      → (cdd_bf_consistent raw2bound raw_is_strict
          (cdd_bf_push h (info k).clock2 (info k).clock1 (bnd_l2u low))).0
        ≡ false
      → Always (λ v. ltb_ℤ (v.diffs k) low ≡ true)
  lower-fails low h kept failed v x clocked obeys = elim (Bool-cases (ltb_ℤ (v.diffs k) low)) [
    | inl e ↦ e
    | inr e ↦
        let dim = kept.dim in
        let fits = IsReady-Keeps (suc (suc n)) g h kept ready in
        let more = within low h kept v x clocked obeys e in
        let answer =
          Obeys-consistent raw2bound raw_is_strict (suc n) x _
            (push-IsReady (suc n) h _ _ (bnd_l2u low) (rw dim in2) (rw dim in1) fits) more in
        absurd (ground (arith, failed, answer))
  ]

  -- The elements with the one for the children so far, which is left out when the next one is equal.
  unfoldable with_element : ℤ → Dd → Dd → Elems → Elems
  with_element low prev d out = if same prev d then out else elem (cdd_neg_cond prev mask) low out

  push_element :
      (low b : ℤ) (c : Dd) (es : Elems) (prev d : Dd) (out : Elems)
      → low <ℤ b
      → IsWf info w prev
      → IsRest b es d out
      → Always (λ v.
        ltb_ℤ (v.diffs k) low ≡ false → ltb_ℤ (v.diffs k) b ≡ true → eval v d ≡ xor neg (eval v c))
      → IsRest low (elem c b es) prev (with_element low prev d out)
  unfolding with_element eval IsWf
  push_element low b c es prev d out lt wf rest child = elim (Bool-cases (same prev d)) [
    | inl e ↦
        let eq = same→eq prev d e in
        rw e record {
          bounded = rest.bounded;
          starts = Starts-le low b out lt rest.starts;
          small = omega (arith, rest.small);
          wf = rest.wf;
          means = λ v x clocked obeys. rw eq (
              same_value mask neg (ltb_ℤ (v.diffs k) low) (ltb_ℤ (v.diffs k) b) (eval v d)
                (eval v c) (eval_elems v (v.diffs k) out) (eval_elems v (v.diffs k) es)
                (λ h. ground (arith, h, lt)) (child v x clocked obeys)
                (rest.means v x clocked obeys));
        }
    | inr e ↦ rw e record {
      bounded = cons-Bounded (cdd_neg_cond prev mask) low b out lt rest.starts rest.bounded;
      starts = omega arith;
      small = omega (arith, rest.small);
      wf = (IsWf-neg_cond info w prev mask wf, rest.wf);
      means = λ v x clocked obeys. rw (eval-neg_cond v prev mask) (
          new_value mask neg (ltb_ℤ (v.diffs k) low) (ltb_ℤ (v.diffs k) b) (eval v prev) (eval v d)
            (eval v c) (eval_elems v (v.diffs k) out) (eval_elems v (v.diffs k) es)
            (child v x clocked obeys) (rest.means v x clocked obeys));
    }
  ]

  pub rest-Pushes :
      (c₀ : Dd) (low : ℤ) (es : Elems) (prev : Dd) (h : Graph)
      → Bounded (elem c₀ low es)
      → Every P es
      → IsWf info w prev
      → Keeps g (cdd_bf_pop h)
      → Pushes low es prev (
          reduce_rest raw2bound raw_is_strict infinity rec
            (info k).clock1
            (info k).clock2
            neg
            mask
            low
            es
            prev
            h)
  unfolding reduce_rest with_element
  rest-Pushes c₀ low nil prev h top good wf kept =
      let end : (low ==ℤ infinity) ≡ true = (==ℤ_iff low infinity).1 top in
      rw end (
        finish-Pushes low nil prev h (ground (arith, top)) wf kept
          (λ v x clocked obeys. rw top (ground (arith, v.in_range k))))
  rest-Pushes c₀ low (elem c b es) prev h (lt, bounded) good wf kept =
      let le = Bounded-le c b es bounded in
      let more : (low ==ℤ infinity) ≡ false = ground (arith, lt, le) in
      let start = cdd_bf_pop h in
      let pushed = cdd_bf_push start (info k).clock2 (info k).clock1 (bnd_l2u low) in
      let answer = cdd_bf_consistent raw2bound raw_is_strict pushed in
      let fits = IsReady-Keeps (suc (suc n)) g start kept ready in
      let asked = consistent-Keeps raw2bound raw_is_strict pushed in
      elim (Bool-cases answer.0) [
        | inr failed ↦
            rw (more, failed)
              (finish-Pushes low (elem c b es) prev answer.1 (omega (arith, lt, le)) wf
                (Keeps-trans g start _ kept (pop-Keeps (suc n) start answer.1 _ _ _ fits asked))
                (lower-fails low start kept failed))
        | inl met ↦
            let ready' = IsReady-Keeps (suc n) pushed answer.1 asked (
              push-IsReady (suc n) start _ _ (bnd_l2u low) (rw kept.dim in2) (rw kept.dim in1)
                fits) in
            let (d, h', run, kept', wd, means) =
              child_lem b (cdd_neg_cond c neg) answer.1 (neg_good c neg good.0)
                (asked.dim ∙ push_dim start _ _ _ ∙ kept.dim) ready' in
            let back = Keeps-trans g start _ kept (
              pop-Keeps (suc n) start h' _ _ _ fits (Keeps-trans pushed answer.1 h' asked kept')) in
            let (out, h'', run', kept'', rest) = rest-Pushes c b es d h' bounded good.1 wd back in
            let child : Always (λ v.
              ltb_ℤ (v.diffs k) low ≡ false
              → ltb_ℤ (v.diffs k) b ≡ true
              → eval v d ≡ xor neg (eval v c)) =
              λ v x clocked obeys above below.
                means v x clocked
                  (Obeys-Keeps raw2bound raw_is_strict x pushed answer.1 asked
                    (within low start kept v x clocked obeys above))
                  (ltb_ℤ→lt (v.diffs k) b below)
                ∙ eval-neg_cond v c neg in
            let is_rest = push_element low b c es prev d out lt wf rest child in
            (with_element low prev d out, h'', rw (more, met, run, run') refl, kept'', is_rest)
      ]
