-- ===== src/Apply/Step.antt =====
-- What one step of the merge of two arrays of elements does: `advance` on bounded arrays.
use ucdd.Base.{
  ℕ, ◌≤◌, ◌<◌, ◌≡◌, refl, arith, Bool-cases, inl, inr, ℤ, ◌==ℤ◌, ◌<ℤ◌, ◌≤ℤ◌, ==ℤ-yes, ==ℤ-no,
  parts_of_eq,
}
use ucdd.Bounds.{infinity}
use ucdd.Dd.{Dd, Elems, nil, elem, size}
use ucdd.Dd.Meaning.{Valuation, eval, eval_elems}
use ucdd.Dd.WellFormed.{Bounded, IsWf, IsWfElems, height, height_elems}
use ucdd.Machine.{LevelInfo}
use ucdd.Apply.{advance}

pub Bounded-le : (c : Dd) (b : ℤ) (es : Elems) → Bounded (elem c b es) → b ≤ℤ infinity
Bounded-le c b nil h = omega (arith, parts_of_eq b infinity h)
Bounded-le c b (elem c' b' es) h = omega (arith, Bounded-le c' b' es h.1)

-- Below the bound of its head an array leads to the head.
pub eval-head :
    (v : Valuation) (q : ℤ) (c : Dd) (b : ℤ) (es : Elems)
    → q <ℤ b
    → eval_elems v q (elem c b es) ≡ eval v c
unfolding eval
eval-head v q c b es h = ground arith

-- From its bound on the head is passed over.
pub eval-tail :
    (v : Valuation) (q : ℤ) (c : Dd) (b : ℤ) (es : Elems)
    → b ≤ℤ q
    → eval_elems v q (elem c b es) ≡ eval_elems v q es
unfolding eval
eval-tail v q c b es h = ground arith

-- From the bound on, passing an element with this bound changes nothing.
pub eval-advance :
    (v : Valuation) (q bnd : ℤ) (es : Elems)
    → bnd ≤ℤ q
    → eval_elems v q (advance bnd es) ≡ eval_elems v q es
unfolding eval advance
eval-advance v q bnd nil h = refl
eval-advance v q bnd (elem c b es) h = ground arith

module _ (info : ℕ → LevelInfo) (w : ℕ) where
  -- The array behind `advance`, and its head.
  pub record Advanced (bnd b : ℤ) (es es' : Elems) : Type 0 where
    pub child : Dd
    pub bound : ℤ
    pub rest : Elems
    pub eq : es' ≡ elem child bound rest
    pub above : bnd <ℤ bound
    pub bounded : Bounded (elem child bound rest)
    pub wf : IsWfElems info w (elem child bound rest)
    pub child_wf : IsWf info w child
    pub child_low : height child ≤ height_elems es
    pub low : height_elems (elem child bound rest) ≤ height_elems es
    pub small : size (elem child bound rest) ≤ size es
    pub passes : b ≡ bnd → size (elem child bound rest) < size es

  pub advance-Advanced :
      (bnd : ℤ) (c : Dd) (b : ℤ) (es : Elems)
      → bnd <ℤ infinity
      → bnd ≤ℤ b
      → Bounded (elem c b es)
      → IsWfElems info w (elem c b es)
      → Advanced bnd b (elem c b es) (advance bnd (elem c b es))
  unfolding advance IsWf height
  advance-Advanced bnd c b nil fin le h wf = elim (Bool-cases (b ==ℤ bnd)) [
    | inl e ↦ absurd (omega (arith, ==ℤ-yes b bnd e, parts_of_eq b infinity h))
    | inr e ↦ rw e (record {
      child = c;
      bound = b;
      rest = nil;
      eq = refl;
      above = omega (arith, ==ℤ-no b bnd e);
      bounded = h;
      wf = wf;
      child_wf = wf.0;
      child_low = omega arith;
      low = omega arith;
      small = omega arith;
      passes = λ same. absurd (==ℤ-no b bnd e (parts_of_eq b bnd same));
    })
  ]
  advance-Advanced bnd c b (elem c' b' es) fin le h wf = elim (Bool-cases (b ==ℤ bnd)) [
    | inl e ↦ rw e (record {
      child = c';
      bound = b';
      rest = es;
      eq = refl;
      above = omega (arith, ==ℤ-yes b bnd e);
      bounded = h.1;
      wf = wf.1;
      child_wf = wf.1.0;
      child_low = omega arith;
      low = omega arith;
      small = omega arith;
      passes = omega arith;
    })
    | inr e ↦ rw e (record {
      child = c;
      bound = b;
      rest = elem c' b' es;
      eq = refl;
      above = omega (arith, ==ℤ-no b bnd e);
      bounded = h;
      wf = wf;
      child_wf = wf.0;
      child_low = omega arith;
      low = omega arith;
      small = omega arith;
      passes = λ same. absurd (==ℤ-no b bnd e (parts_of_eq b bnd same));
    })
  ]
