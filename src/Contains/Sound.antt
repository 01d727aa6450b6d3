-- ===== src/Contains/Sound.antt =====
-- When `cdd_contains` answers that a diagram contains a DBM, it does.
use ucdd.Base.{
  ℕ, ◌+◌, ◌*◌, ◌<◌, Bool, true, false, not, ◌||◌, leb, if◌then◌else◌, xor, ◌≡◌, ◌≢◌, refl, sym, ◌∙◌,
  arith, Bool-cases, inl, inr, List, ℤ, ◌<ℤ◌, ◌≤ℤ◌, ◌==ℤ◌, ltb_ℤ, ltb_ℤ→lt, ltb_ℤ→ge, ==ℤ_iff,
  get_or,
}
use ucdd.Bounds.{infinity, minus_infinity}
use ucdd.Dd.{
  Dd, Node, Elems, ptr, terminal, xterm, bdd_node, cdd_node, nil, elem, max_level, cdd_neg_cond,
  cdd_eval_true,
}
use ucdd.Dd.Meaning.{Valuation, eval, eval_node, eval_elems, eval-neg_cond}
use ucdd.Dd.WellFormed.{Bounded}
use ucdd.Machine.{Run, ok, LevelInfo, type_cdd}
use ucdd.Apply.Step.{Bounded-le}
use ucdd.Cache.Laws.{All}
use ucdd.BellmanFord.{Constraint}
use ucdd.BellmanFord.Walks.{IsInside}
use ucdd.BellmanFord.Potential.{Holds}
use ucdd.Reduce.Clocks.{Clocks, IsClocked, IsRaw, upper-Holds, lower-Holds}
use ucdd.Contains.{
  contains_cdd, cdd_constrain2, contains_child, cdd_contains_rec, contains_node, contains_elems,
  cdd_contains,
}

module _ (info : ℕ → LevelInfo) where
  unfoldable mutual
    -- A diagram without variables, whose bounds increase up to INF.
    pub IsPlain : Dd → Type 0
    IsPlain (ptr m n) = IsPlainNode n

    pub IsPlainNode : Node → Type 0
    IsPlainNode terminal = Unit
    IsPlainNode (xterm id) = Unit
    IsPlainNode (bdd_node k low high) = ⊥
    IsPlainNode (cdd_node k es) =
        ((info k).type ≡ type_cdd) × (k < max_level) × Bounded es × IsPlainElems es

    pub IsPlainElems : Elems → Type 0
    IsPlainElems nil = Unit
    IsPlainElems (elem c b es) = IsPlain c × IsPlainElems es

  -- `cdd_eval_true` is right.
  eval_true_lem : (v : Valuation) (d : Dd) → IsPlain d → cdd_eval_true d ≡ true → eval v d ≡ true
  unfolding IsPlain eval cdd_eval_true
  eval_true_lem v (ptr m terminal) h e = ground (arith, e)
  eval_true_lem v (ptr m (xterm id)) h e = ground (arith, e)
  eval_true_lem v (ptr m (bdd_node k low high)) h e = absurd h
  eval_true_lem v (ptr m (cdd_node k es)) h e = absurd (ground (arith, h.1, e))

  IsPlain-neg_cond : (d : Dd) (m : Bool) → IsPlain d → IsPlain (cdd_neg_cond d m)
  unfolding IsPlain
  IsPlain-neg_cond (ptr b n) m h = h

-- The loop is at the lower bound `low` of the elements.
abbrev After : ℤ → Elems → Type 0
After low nil = low ≡ infinity
After low (elem c b es) = (low <ℤ infinity) × Bounded (elem c b es)

Bounded-After : (c : Dd) (b : ℤ) (es : Elems) → Bounded (elem c b es) → After b es
Bounded-After c b nil h = h
Bounded-After c b (elem c' b' es) h = (omega (arith, h.0, Bounded-le c' b' es h.1), h.1)

twisted : (neg m x : Bool) → xor (xor m neg) x ≡ true → xor neg (xor m x) ≡ true
twisted neg m x h = ground (arith, h)

-- The value of the elements from the lower bound on.
step_value :
    (m up c e : Bool)
    → (up ≡ true → xor m c ≡ true)
    → (up ≡ false → xor m e ≡ true)
    → xor m (if up then c else e) ≡ true
step_value m true c e h l = h refl
step_value m false c e h l = l refl

module _ (raw2bound : ℤ → ℤ) (raw_is_strict : ℤ → ℕ) where
  -- The clocks are within the bound; INF bounds nothing.
  abbrev pub Meets : Clocks → Constraint → Type 0
  Meets x e = e.value ≢ infinity → Holds raw2bound raw_is_strict x.unit x.at e

  -- The clocks are within all bounds of the matrix.
  abbrev pub InZone : ℕ → List ℤ → Clocks → Type 0
  InZone dim dbm x =
      (i j : ℕ)
      → i < dim
      → j < dim
      → Meets x (record { i = i; j = j; value = get_or dbm (i * dim + j) infinity })

  -- Constraining a DBM keeps the clocks that meet the constraints; where there are any, the DBM is
  -- not empty.
  abbrev pub IsConstrain : (List ℤ → ℕ → List Constraint → Bool × List ℤ) → ℕ → Type 0
  IsConstrain constrain_n dim =
      (dbm : List ℤ) (cs : List Constraint) (x : Clocks)
      → All (IsInside dim) cs
      → InZone dim dbm x
      → All (Meets x) cs
      → ((constrain_n dbm dim cs).0 ≡ true) × InZone dim (constrain_n dbm dim cs).1 x

  -- The run answers, and where the answer is yes, `P` holds.
  abbrev Answers : Run Bool → Type 0 → Type 0
  Answers r P = (b : Bool) × (r ≡ ok b) × (b ≡ true → P)

  child-Answers :
      (rec : List ℤ → Run Bool) (child : Dd) (con : Bool × List ℤ) (rest : Run Bool)
      (P Q R : Type 0)
      → Answers (rec con.1) Q
      → Answers rest R
      → (cdd_eval_true child ≡ true → R → P)
      → (con.0 ≡ true → Q → R → P)
      → (con.0 ≡ false → R → P)
      → Answers (contains_child rec child con rest) P
  child-Answers rec child con rest P Q R (q, run, is_q) (r, run', is_r) when_true when_met
        when_not =
      elim (Bool-cases (cdd_eval_true child)) [
        | inl e ↦ (r, rw (e, run') refl, λ yes. when_true e (is_r yes))
        | inr e ↦ elim (Bool-cases con.0) [
          | inr f ↦ (r, rw (e, f, run') refl, λ h. when_not f (is_r h))
          | inl f ↦ elim (Bool-cases q) [
            | inl g ↦ (r, rw (e, f, run, g, run') refl, λ h. when_met f (is_q g) (is_r h))
            | inr g ↦ (false, rw (e, f, run, g) refl, λ h. absurd (ground (arith, h)))
          ]
        ]
      ]

  module _ (raw : IsRaw raw2bound raw_is_strict)
      (constrain_n : List ℤ → ℕ → List Constraint → Bool × List ℤ) (info : ℕ → LevelInfo) (dim : ℕ)
      (library : IsConstrain constrain_n dim) where
    abbrev Everywhere : List ℤ → (Valuation → Type 0) → Type 0
    Everywhere dbm P = (v : Valuation) (x : Clocks) → IsClocked info v x → InZone dim dbm x → P v

    -- The clocks of a child stay in the constrained DBM.
    constrain2_lem :
        (k : ℕ) (low b : ℤ) (dbm : List ℤ) (v : Valuation) (x : Clocks)
        → (info k).clock1 < dim
        → (info k).clock2 < dim
        → IsClocked info v x
        → InZone dim dbm x
        → low ≤ℤ v.diffs k
        → v.diffs k <ℤ b
        → let con = cdd_constrain2 constrain_n info dim dbm (info k).clock1 (info k).clock2 low b in
          (con.0 ≡ true) × InZone dim con.1 x
    unfolding cdd_constrain2
    constrain2_lem k low b dbm v x in1 in2 clocked zone above below =
        library dbm _ x ((in2, in1), ((in1, in2), tt)) zone
          (
            λ finite. lower-Holds raw2bound raw_is_strict raw info v x clocked k low above,
            (λ finite. upper-Holds raw2bound raw_is_strict raw info v x clocked k b below, tt),
          )

    mutual
      unfolding cdd_contains_rec contains_cdd IsPlain eval

      rec-Answers :
          (neg : Bool) (d : Dd) (dbm : List ℤ)
          → IsPlain info d
          → Answers
              (cdd_contains_rec constrain_n info dim neg d dbm)
              (Everywhere dbm (λ v. xor neg (eval v d) ≡ true))
      rec-Answers neg (ptr m n) dbm h =
          let (b, run, means) = node-Answers (xor m neg) n dbm h in
          (
            b,
            run,
            λ yes v x clocked zone. twisted neg m (eval_node v n) (means yes v x clocked zone),
          )

      node-Answers :
          (m : Bool) (n : Node) (dbm : List ℤ)
          → IsPlainNode info n
          → Answers
              (contains_node constrain_n info dim m n dbm)
              (Everywhere dbm (λ v. xor m (eval_node v n) ≡ true))
      node-Answers m terminal dbm h = (m, refl, λ yes v x clocked zone. ground (arith, yes))
      node-Answers m (xterm id) dbm h = (not m, refl, λ yes v x clocked zone. ground (arith, yes))
      node-Answers m (bdd_node k low high) dbm h = absurd h
      node-Answers m (cdd_node k nil) dbm (t, lt, bounded, h) = absurd bounded
      node-Answers m (cdd_node k (elem c b es)) dbm (t, lt, bounded, h) =
          elim (Bool-cases (leb dim (info k).clock1 || leb dim (info k).clock2)) [
            | inl e ↦ (false, rw (t, e) refl, λ yes. absurd (ground (arith, yes)))
            | inr e ↦
                let (a, run, means) =
                  elems-Answers m k minus_infinity (elem c b es) dbm lt (ground (arith, e))
                    (ground (arith, e)) (omega arith, bounded) h in
                (
                  a,
                  rw (t, e) run,
                  λ yes v x clocked zone. means yes v x clocked zone (omega (arith, v.above k)),
                )
          ]

      elems-Answers :
          (m : Bool) (k : ℕ) (low : ℤ) (es : Elems) (dbm : List ℤ)
          → k < max_level
          → (info k).clock1 < dim
          → (info k).clock2 < dim
          → After low es
          → IsPlainElems info es
          → Answers
              (contains_elems constrain_n info dim m k low es dbm)
              (Everywhere dbm (λ v. low ≤ℤ v.diffs k → xor m (eval_elems v (v.diffs k) es) ≡ true))
      elems-Answers m k low nil dbm lt in1 in2 bounded h =
          let end : (low ==ℤ infinity) ≡ true = (==ℤ_iff low infinity).1 bounded in
          (
            true,
            rw end refl,
            λ yes v x clocked zone le. absurd (ground (arith, v.in_range k, bounded, le)),
          )
      elems-Answers m k low (elem c b es) dbm lt in1 in2 (step, bounded) (hc, h) =
          let more : (low ==ℤ infinity) ≡ false = ground (arith, step) in
          let con = cdd_constrain2 constrain_n info dim dbm (info k).clock1 (info k).clock2 low b in
          let inner = rec-Answers m c con.1 hc in
          let others = elems-Answers m k b es dbm lt in1 in2 (Bounded-After c b es bounded) h in
          rw more (
            child-Answers (cdd_contains_rec constrain_n info dim m c) (cdd_neg_cond c m) con
              (contains_elems constrain_n info dim m k b es dbm) _ _ _ inner others
              (λ e rest v x clocked zone above.
                step_value m (ltb_ℤ (v.diffs k) b) (eval v c) (eval_elems v (v.diffs k) es)
                  (λ u.
                    sym (eval-neg_cond v c m)
                    ∙ eval_true_lem info v (cdd_neg_cond c m) (IsPlain-neg_cond info c m hc) e)
                  (λ u. rest v x clocked zone (ltb_ℤ→ge (v.diffs k) b u)))
              (λ e inside rest v x clocked zone above.
                step_value m (ltb_ℤ (v.diffs k) b) (eval v c) (eval_elems v (v.diffs k) es)
                  (λ u. inside v x clocked (
                    (constrain2_lem k low b dbm v x in1 in2 clocked zone above
                      (ltb_ℤ→lt (v.diffs k) b u)).1))
                  (λ u. rest v x clocked zone (ltb_ℤ→ge (v.diffs k) b u)))
              (λ e rest v x clocked zone above.
                step_value m (ltb_ℤ (v.diffs k) b) (eval v c) (eval_elems v (v.diffs k) es)
                  (λ u.
                    let met =
                      (constrain2_lem k low b dbm v x in1 in2 clocked zone above
                        (ltb_ℤ→lt (v.diffs k) b u)).0 in
                    absurd (ground (arith, e, met)))
                  (λ u. rest v x clocked zone (ltb_ℤ→ge (v.diffs k) b u))))

-- On a diagram without variables whose bounds increase up to INF, where a raw bound is twice its
-- limit and one more when it is weak, and dbm_constrainN keeps the clocks that meet the constraints
-- and says so when there are any: `cdd_contains` answers, and where the answer is yes, the diagram is
-- true at every valuation whose differences are those of clocks within the DBM.
pub contains_sound :
    (raw2bound : ℤ → ℤ) (raw_is_strict : ℤ → ℕ)
    (constrain_n : List ℤ → ℕ → List Constraint → Bool × List ℤ) (info : ℕ → LevelInfo) (dim : ℕ)
    (node : Dd) (dbm : List ℤ)
    → IsRaw raw2bound raw_is_strict
    → IsConstrain raw2bound raw_is_strict constrain_n dim
    → IsPlain info node
    → (b : Bool) × (cdd_contains constrain_n info dim node dbm ≡ ok b)
      × (b ≡ true
          → (v : Valuation) (x : Clocks) → IsClocked info v x
          → InZone raw2bound raw_is_strict dim dbm x
          → eval v node ≡ true)
unfolding cdd_contains
contains_sound raw2bound raw_is_strict constrain_n info dim node dbm raw library h =
    rec-Answers raw2bound raw_is_strict raw constrain_n info dim library false node dbm h
