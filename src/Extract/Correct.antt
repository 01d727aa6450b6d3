-- ===== src/Extract/Correct.antt =====
-- What `cdd_extract_bdd` of src/cddop.c returns: the part of the diagram below some values of the
-- differences.
use ucdd.Base.{
  ℕ, zero, suc, ◌<◌, ◌≤◌, ◌==◌, ◌≡◌, refl, ◌∙◌, ◌⊎◌, inl, inr, arith, true, false, if◌then◌else◌,
  Bool-cases, ℤ, pos, ◌<ℤ◌,
}
use ucdd.Bounds.{infinity, minus_infinity}
use ucdd.Dd.{
  Dd, ptr, terminal, xterm, bdd_node, cdd_node, cddtrue, cdd_isterminal, cdd_eval_false, level_of,
  node_of,
}
use ucdd.Dd.Meaning.{Valuation, eval}
use ucdd.Dd.WellFormed.{height}
use ucdd.Machine.{Run, ok, LevelInfo, type_bdd}
use ucdd.Extract.{extract_level, cdd_extract_bdd}
use ucdd.Reduce.Room.{IsReducible}
use ucdd.Extract.Child.{IsLayered, AreInside, live_child-IsTaken}

module _ (info : ℕ → LevelInfo) (w dim : ℕ) where
  -- The constant true, or a node of a variable.
  abbrev pub IsVariables : Dd → Type 0
  IsVariables d = (d ≡ cddtrue) ⊎ ((info (level_of (node_of d))).type ≡ type_bdd)

  -- A result of the loop, its value being that of the diagram wherever the differences on the levels
  -- from `least` on have some positions.
  abbrev Extracts : ℕ → Dd → Run Dd → Type 0
  Extracts least node r =
      (d : Dd) × (r ≡ ok d)
      × IsReducible info w dim d
      × IsVariables d
      × (q : ℕ → ℤ) × AreInside q
      × ((v : Valuation) → ((l : ℕ) → least ≤ l → v.diffs l ≡ q l) → eval v node ≡ eval v d)

  -- The positions, with another one on one level.
  abbrev placed : ℕ → ℤ → (ℕ → ℤ) → ℕ → ℤ
  placed k p q l = if k == l then p else q l

  placed-AreInside :
      (k : ℕ) (p : ℤ) (q : ℕ → ℤ)
      → (minus_infinity <ℤ p) × (p <ℤ infinity)
      → AreInside q
      → AreInside (placed k p q)
  placed-AreInside k p q h inside l = elim (Bool-cases (k == l)) [
    | inl e ↦ rw e h
    | inr e ↦ rw e (inside l)
  ]

  placed-ge : (k l : ℕ) (p : ℤ) (q : ℕ → ℤ) → suc k ≤ l → placed k p q l ≡ q l
  placed-ge k l p q h = let no : (k == l) ≡ false = ground arith in rw no refl

  placed_self : (k : ℕ) (p : ℤ) (q : ℕ → ℤ) → placed k p q k ≡ p
  placed_self k p q = let here : (k == k) ≡ true = ground arith in rw here refl

  extract_from :
      (fuel least : ℕ) (node : Dd)
      → IsReducible info w dim node
      → IsLayered least node
      → cdd_eval_false node ≡ false
      → height node < fuel
      → Extracts least node (cdd_extract_bdd info fuel node)
  unfolding cdd_extract_bdd extract_level cdd_isterminal cdd_eval_false IsReducible IsLayered height
      eval
  extract_from zero least node good layered live small = absurd (omega arith)
  extract_from (suc fuel) least (ptr false terminal) good layered live small =
      absurd (ground (arith, live))
  extract_from (suc fuel) least (ptr true terminal) good layered live small =
      (cddtrue, refl, tt, inl refl, λ l. pos 0, λ l. (omega arith, omega arith), λ v h. refl)
  extract_from (suc fuel) least (ptr m (xterm id)) good layered live small = absurd good
  extract_from (suc fuel) least (ptr m (bdd_node k low high)) good layered live small =
      elim (Bool-cases (cdd_isterminal (ptr m (bdd_node k low high)))) [
        | inl e ↦ absurd (ground (arith, e, good))
        | inr e ↦ (
          ptr m (bdd_node k low high),
          rw (e, good.0) refl,
          good,
          inr good.0,
          λ l. pos 0,
          λ l. (omega arith, omega arith),
          λ v h. refl,
        )
      ]
  extract_from (suc fuel) least (ptr m (cdd_node k es)) good layered live small =
      elim (Bool-cases (cdd_isterminal (ptr m (cdd_node k es)))) [
        | inl e ↦ absurd (ground (arith, e, good))
        | inr e ↦
            let (t, lt, in1, in2, wide, two, bounded, h) = good in
            let (least_le, apart, below) = layered in
            let (c, is) =
              live_child-IsTaken info w dim fuel k m es two bounded apart h below (omega arith) in
            let (d, run, hd, vars, q, inside, same_value) =
              extract_from fuel (suc k) c is.good is.layered is.live is.lower in
            (
              d,
              rw (e, t, is.taken) run,
              hd,
              vars,
              placed k is.position q,
              placed-AreInside k is.position q is.inside inside,
              λ v at.
                  is.meaning v (at k least_le ∙ placed_self k is.position q)
                  ∙ same_value v
                      (λ l le. at l (omega (arith, le, least_le)) ∙ placed-ge k l is.position q le),
            )
      ]

  -- On a well-formed diagram that is not false, whose CDD nodes have at least two children and test
  -- clocks below the dimension, on levels that increase along every path, the first two children
  -- different and the first bound above 1 - INF, with fuel above the height: cdd_extract_bdd
  -- returns the constant true or a well-formed diagram with a variable at its root, and there are
  -- positions of the differences within the range at which the old diagram has the value of the
  -- result, whatever the values of the variables.
  pub extract_bdd_correct :
      (fuel : ℕ) (node : Dd)
      → IsReducible info w dim node
      → IsLayered 0 node
      → cdd_eval_false node ≡ false
      → height node < fuel
      → (d : Dd) × (cdd_extract_bdd info fuel node ≡ ok d)
        × IsReducible info w dim d
        × IsVariables d
        × (q : ℕ → ℤ) × AreInside q
        × ((v : Valuation) → ((l : ℕ) → v.diffs l ≡ q l) → eval v node ≡ eval v d)
  extract_bdd_correct fuel node good layered live small =
      let (d, run, hd, vars, q, inside, value) = extract_from fuel 0 node good layered live small in
      (d, run, hd, vars, q, inside, λ v at. value v (λ l le. at l))
