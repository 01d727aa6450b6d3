-- ===== src/Extract/Child.antt =====
-- The child that the loop of `cdd_extract_bdd` goes on with, and the diagrams where it is right.
use ucdd.Base.{
  ℕ, suc, ◌<◌, ◌≤◌, ◌≡◌, refl, sym, ◌∙◌, inl, inr, arith, Bool, true, false, xor, Bool-cases, ℤ,
  pos, negsuc, ◌-ℤ◌, ◌<ℤ◌, ltb_ℤ, -ℤ_parts,
}
use ucdd.Bounds.{infinity, minus_infinity}
use ucdd.Dd.{
  Dd, Node, Elems, ptr, terminal, xterm, bdd_node, cdd_node, nil, elem, cdd_neg_cond,
  cdd_isterminal, cdd_eval_false, size, same,
}
use ucdd.Dd.Equality.{same_self}
use ucdd.Dd.Meaning.{Valuation, eval, eval_elems, eval-neg_cond}
use ucdd.Dd.WellFormed.{Bounded, height, height_elems, height-neg_cond}
use ucdd.Machine.{ok, LevelInfo}
use ucdd.Extract.{live_child}
use ucdd.Reduce.Room.{IsReducible, IsReducibleElems, IsReducible-neg_cond}

unfoldable mutual
  -- The levels of CDD nodes increase from `least` on. The first bound of such a node is above
  -- 1 - INF, and its first two children differ.
  pub IsLayered : ℕ → Dd → Type 0
  IsLayered least (ptr m n) = IsLayeredNode least n

  pub IsLayeredNode : ℕ → Node → Type 0
  IsLayeredNode least (cdd_node k es) = (least ≤ k) × BeginsApart es × IsLayeredElems (suc k) es
  IsLayeredNode least n = Unit

  pub IsLayeredElems : ℕ → Elems → Type 0
  IsLayeredElems least nil = Unit
  IsLayeredElems least (elem c b es) = IsLayered least c × IsLayeredElems least es

  pub BeginsApart : Elems → Type 0
  BeginsApart (elem c b (elem c' b' es)) = (negsuc 0x7FFFFFFC <ℤ b) × (same c c' ≡ false)
  BeginsApart es = Unit

-- Positions of the differences, within the range.
abbrev pub AreInside : (ℕ → ℤ) → Type 0
AreInside q = (l : ℕ) → (minus_infinity <ℤ q l) × (q l <ℤ infinity)

IsLayered-neg_cond :
    (least : ℕ) (d : Dd) (m : Bool) → IsLayered least d → IsLayered least (cdd_neg_cond d m)
unfolding IsLayered
IsLayered-neg_cond least (ptr b n) m h = h

first_bounds :
    (c c' : Dd) (b b' : ℤ) (es : Elems)
    → Bounded (elem c b (elem c' b' es))
    → (b <ℤ b') × (b <ℤ infinity)
first_bounds c c' b b' nil (lt, end) = (lt, ground (arith, lt, end))
first_bounds c c' b b' (elem d e es) (lt, more) =
    let next = first_bounds c' d b' e es more in (lt, ground (arith, lt, next.1))

first_value :
    (v : Valuation) (q : ℤ) (m : Bool) (c c' : Dd) (b b' : ℤ) (es : Elems)
    → ltb_ℤ q b ≡ true
    → xor m (eval_elems v q (elem c b (elem c' b' es))) ≡ eval v (cdd_neg_cond c m)
unfolding eval
first_value v q m c c' b b' es lt = rw (lt, eval-neg_cond v c m) refl

second_value :
    (v : Valuation) (q : ℤ) (m : Bool) (c c' : Dd) (b b' : ℤ) (es : Elems)
    → ltb_ℤ q b ≡ false
    → ltb_ℤ q b' ≡ true
    → xor m (eval_elems v q (elem c b (elem c' b' es))) ≡ eval v (cdd_neg_cond c' m)
unfolding eval
second_value v q m c c' b b' es ge lt = rw (ge, lt, eval-neg_cond v c' m) refl

below_first :
    (b : ℤ)
    → negsuc 0x7FFFFFFC <ℤ b
    → b <ℤ infinity
    → (minus_infinity <ℤ (b -ℤ pos 1)) × ((b -ℤ pos 1) <ℤ infinity) × (ltb_ℤ (b -ℤ pos 1) b ≡ true)
below_first b above below =
    let parts = -ℤ_parts b (pos 1) in
    (omega (arith, parts), omega (arith, parts), ground (arith, parts))

at_first :
    (b b' : ℤ)
    → negsuc 0x7FFFFFFC <ℤ b
    → b <ℤ b'
    → (minus_infinity <ℤ b) × (ltb_ℤ b b ≡ false) × (ltb_ℤ b b' ≡ true)
at_first b b' above below = (omega arith, ground arith, ground arith)

module _ (info : ℕ → LevelInfo) (w dim : ℕ) where
  false_child :
      (d : Dd) (m : Bool)
      → IsReducible info w dim d
      → cdd_eval_false (cdd_neg_cond d m) ≡ true
      → d ≡ ptr m terminal
  unfolding IsReducible cdd_eval_false cdd_isterminal
  false_child (ptr false terminal) false good h = refl
  false_child (ptr true terminal) true good h = refl
  false_child (ptr false terminal) true good h = absurd (ground (arith, h))
  false_child (ptr true terminal) false good h = absurd (ground (arith, h))
  false_child (ptr b (xterm id)) m good h = absurd good
  false_child (ptr b (bdd_node k l r)) m good h = absurd (ground (arith, good.1, h))
  false_child (ptr b (cdd_node k es)) m good h = absurd (ground (arith, good.1, h))

  other_child :
      (c c' : Dd) (m : Bool)
      → IsReducible info w dim c
      → IsReducible info w dim c'
      → same c c' ≡ false
      → cdd_eval_false (cdd_neg_cond c m) ≡ true
      → cdd_eval_false (cdd_neg_cond c' m) ≡ false
  other_child c c' m good good' apart h = elim (Bool-cases (cdd_eval_false (cdd_neg_cond c' m))) [
    | inl e ↦
        let both : c ≡ c' = false_child c m good h ∙ sym (false_child c' m good' e) in
        let no : same c' c' ≡ false = rw both at apart in absurd (ground (arith, no, same_self c'))
    | inr e ↦ e
  ]

  -- The child that is taken is not false, and the node has its value at a position of the difference.
  pub record IsTaken (fuel k : ℕ) (m : Bool) (es : Elems) (d : Dd) : Type 0 where
    pub taken : live_child m es ≡ ok d
    pub good : IsReducible info w dim d
    pub layered : IsLayered (suc k) d
    pub live : cdd_eval_false d ≡ false
    pub lower : height d < fuel
    pub position : ℤ
    pub inside : (minus_infinity <ℤ position) × (position <ℤ infinity)
    pub meaning :
        (v : Valuation) → v.diffs k ≡ position → xor m (eval_elems v (v.diffs k) es) ≡ eval v d

  pub live_child-IsTaken :
      (fuel k : ℕ) (m : Bool) (es : Elems)
      → 1 < size es
      → Bounded es
      → BeginsApart es
      → IsReducibleElems info w dim es
      → IsLayeredElems (suc k) es
      → height_elems es < fuel
      → (d : Dd) × IsTaken fuel k m es d
  unfolding live_child IsReducible IsLayered height eval
  live_child-IsTaken fuel k m nil two up apart good layered small = absurd (omega arith)
  live_child-IsTaken fuel k m (elem c b nil) two up apart good layered small = absurd (omega arith)
  live_child-IsTaken fuel k m (elem c b (elem c' b' es)) two up apart good layered small =
      let (lt, fin) = first_bounds c c' b b' es up in
      let low = below_first b apart.0 fin in
      let at = at_first b b' apart.0 lt in
      elim (Bool-cases (cdd_eval_false (cdd_neg_cond c m))) [
        | inl e ↦ (
          cdd_neg_cond c' m,
          record {
            taken = rw e refl;
            good = IsReducible-neg_cond info w dim c' m good.1.0;
            layered = IsLayered-neg_cond (suc k) c' m layered.1.0;
            live = other_child c c' m good.0 good.1.0 apart.1 e;
            lower = omega (arith, height-neg_cond c' m);
            position = b;
            inside = (at.0, fin);
            meaning = λ v is. rw is (second_value v b m c c' b b' es at.1 at.2);
          },
        )
        | inr e ↦ (
          cdd_neg_cond c m,
          record {
            taken = rw e refl;
            good = IsReducible-neg_cond info w dim c m good.0;
            layered = IsLayered-neg_cond (suc k) c m layered.0;
            live = e;
            lower = omega (arith, height-neg_cond c m);
            position = b -ℤ pos 1;
            inside = (low.0, low.1);
            meaning = λ v is. rw is (first_value v (b -ℤ pos 1) m c c' b b' es low.2);
          },
        )
      ]
