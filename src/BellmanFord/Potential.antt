-- ===== src/BellmanFord/Potential.antt =====
-- A consistent answer comes with a solution of the bounds.
use ucdd.Base.{
  ℕ, zero, suc, ◌+◌, ◌*◌, ◌<◌, ◌≤◌, Bool, true, false, not, ◌&&◌, ◌==◌, ◌≡◌, refl, ◌∙◌, subst,
  if◌then◌else◌, arith, Bool-cases, inl, inr, List, [], ◌∷◌, ℤ, pos, ◌+ℤ◌, ◌-ℤ◌, ◌≤ℤ◌, pos_part,
  neg_part, sub_ℕ, int_laws, +ℤ_parts, ◌⊎◌, get_or, set,
}
use Prim.Native.Nat.{max}
use native.Mathlib.Nat.{mul-le-mul_left}
use ucdd.Cache.Laws.{All}
use ucdd.BellmanFord.{
  Graph, Constraint, Distance, no_distance, less, add, through, improves, scan, rounds, stable,
  cdd_bf_consistent,
}
use ucdd.BellmanFord.Stack.{live}

-- `n` times `z`.
unfoldable pub scale : ℕ → ℤ → ℤ
scale n z = sub_ℕ (n * pos_part z) (n * neg_part z)

pub scale_parts :
    (n : ℕ) (z : ℤ) → pos_part (scale n z) + n * neg_part z ≡ neg_part (scale n z) + n * pos_part z
unfolding scale
scale_parts n z = ground arith

less-no :
    (i j : Distance)
    → less i j ≡ false
    → (pos_part j.value + neg_part i.value < pos_part i.value + neg_part j.value)
      ⊎ ((pos_part j.value + neg_part i.value ≡ pos_part i.value + neg_part j.value)
          × (i.strictness ≤ j.strictness))
unfolding less
less-no i j h = ground arith

module _ (raw2bound : ℤ → ℤ) (raw_is_strict : ℤ → ℕ) where
  -- The difference x j - x i of the numbers x / n is at most the bound of the edge from i to j, and
  -- below it where the bound is strict.
  abbrev pub Holds : ℕ → (ℕ → ℤ) → Constraint → Type 0
  Holds n x e = x e.j +ℤ pos (raw_is_strict e.value) ≤ℤ x e.i +ℤ scale n (raw2bound e.value)

  -- No edge improves a distance.
  abbrev pub Settled : List Constraint → List Distance → Type 0
  Settled es dist = All (λ e. improves raw2bound raw_is_strict dist e ≡ false) es

  scan-Settled_from :
      (es : List Constraint) (dist : List Distance) (found : Bool)
      → (scan raw2bound raw_is_strict es dist found).1 ≡ false
      → (found ≡ false) × ((scan raw2bound raw_is_strict es dist found).0 ≡ dist) × Settled es dist
  unfolding scan
  scan-Settled_from [] dist found h = (h, refl, tt)
  scan-Settled_from (e ∷ es) dist found h =
      let better = improves raw2bound raw_is_strict dist e in
      let (now, same, settled) = scan-Settled_from es _ _ h in
      let (worse, before) = neither better found now in
      let kept = pick better worse (set dist e.j (through raw2bound raw_is_strict dist e)) dist in
      (before, same ∙ kept, (worse, subst (Settled es) kept settled))
    where
      neither : (b c : Bool) → (if b then true else c) ≡ false → (b ≡ false) × (c ≡ false)
      neither b c h = ground arith

      pick : {A : Type 0} (b : Bool) → b ≡ false → (x y : A) → (if b then x else y) ≡ y
      pick b h x y = rw h refl

  scan-Settled :
      (es : List Constraint) (dist : List Distance)
      → (scan raw2bound raw_is_strict es dist false).1 ≡ false
      → ((scan raw2bound raw_is_strict es dist false).0 ≡ dist) × Settled es dist
  scan-Settled es dist h =
      let (before, same, settled) = scan-Settled_from es dist false h in (same, settled)

  rounds-Settled :
      (v : ℕ) (es : List Constraint) (dist : List Distance)
      → (rounds raw2bound raw_is_strict v es dist).1 ≡ false
      → Settled es (rounds raw2bound raw_is_strict v es dist).0
  unfolding rounds
  rounds-Settled zero es dist h = cc
  rounds-Settled (suc v) es dist h =
      let next = scan raw2bound raw_is_strict es dist false in
      elim (Bool-cases (not (v == 0) && next.1)) [
        | inl more ↦ rw more (rounds-Settled v es next.0 (rw more at h))
        | inr over ↦
            let h' : next.1 ≡ false = rw over at h in
            let (same, settled) = scan-Settled es dist h' in rw (over, same) settled
      ]

  stable-Settled :
      (es : List Constraint) (dist : List Distance)
      → stable raw2bound raw_is_strict es dist ≡ true
      → Settled es dist
  unfolding stable
  stable-Settled [] dist h = tt
  stable-Settled (e ∷ es) dist h = elim (Bool-cases (improves raw2bound raw_is_strict dist e)) [
    | inl i ↦ let h' : false ≡ true = rw i at h in cc
    | inr i ↦ (i, stable-Settled es dist (rw i at h))
  ]

  -- When the answer is that the bounds are consistent, the new distances settle all edges.
  consistent-Settled :
      (graph : Graph)
      → (cdd_bf_consistent raw2bound raw_is_strict graph).0 ≡ true
      → Settled (live graph) (cdd_bf_consistent raw2bound raw_is_strict graph).1.dist
  unfolding cdd_bf_consistent
  consistent-Settled graph h =
      let last = rounds raw2bound raw_is_strict graph.dim (live graph) graph.dist in
      elim (Bool-cases last.1) [
        | inl found ↦ stable-Settled (live graph) last.0 (rw found at h)
        | inr none ↦ rounds-Settled graph.dim (live graph) graph.dist none
      ]

  -- More than the strict bounds counted by any edge.
  pub scale_of : List Distance → List Constraint → ℕ
  scale_of dist [] = 1
  scale_of dist (e ∷ es) =
      max (suc (through raw2bound raw_is_strict dist e).strictness) (scale_of dist es)

  -- A distance as a number in units of 1 / n: a strict bound takes one unit off.
  pub position : ℕ → List Distance → ℕ → ℤ
  position n dist v =
      scale n (get_or dist v no_distance).value -ℤ pos (get_or dist v no_distance).strictness

  settled-Holds :
      (n : ℕ) (dist : List Distance) (e : Constraint)
      → (through raw2bound raw_is_strict dist e).strictness < n
      → improves raw2bound raw_is_strict dist e ≡ false
      → Holds n (position n dist) e
  unfolding position add
  settled-Holds n dist e small settled =
      let from = get_or dist e.i no_distance in
      let to = get_or dist e.j no_distance in
      let b = raw2bound e.value in
      let sum = +ℤ_parts from.value b in
      elim (less-no (through raw2bound raw_is_strict dist e) to settled) [
        | inl lt ↦
            let gap : pos_part to.value + neg_part from.value + neg_part b + 1
                ≤ pos_part from.value + pos_part b + neg_part to.value =
              omega (arith, sum, lt) in
            let scaled = mul-le-mul_left n gap in
            omega (
              int_laws,
              scaled,
              scale_parts n to.value,
              scale_parts n from.value,
              scale_parts n b,
              small,
            )
        | inr (eq, le) ↦
            let gap : pos_part to.value + neg_part from.value + neg_part b
                ≤ pos_part from.value + pos_part b + neg_part to.value =
              omega (arith, sum, eq) in
            let scaled = mul-le-mul_left n gap in
            omega (
              int_laws,
              scaled,
              scale_parts n to.value,
              scale_parts n from.value,
              scale_parts n b,
              le,
            )
      ]

  Settled-All :
      (n : ℕ) (dist : List Distance) (es : List Constraint)
      → scale_of dist es ≤ n
      → Settled es dist
      → All (Holds n (position n dist)) es
  unfolding scale_of
  Settled-All n dist [] le h = tt
  Settled-All n dist (e ∷ es) le h =
      (settled-Holds n dist e (omega arith) h.0, Settled-All n dist es (omega arith) h.1)

  scale_of_pos : (dist : List Distance) (es : List Constraint) → 0 < scale_of dist es
  unfolding scale_of
  scale_of_pos dist [] = omega arith
  scale_of_pos dist (e ∷ es) = omega (arith, scale_of_pos dist es)

-- The new distances give a solution of the bounds.
pub settled_solution :
    (raw2bound : ℤ → ℤ) (raw_is_strict : ℤ → ℕ) (graph : Graph)
    → (cdd_bf_consistent raw2bound raw_is_strict graph).0 ≡ true
    → (n : ℕ) × (x : ℕ → ℤ) × (0 < n) × All (Holds raw2bound raw_is_strict n x) (live graph)
settled_solution raw2bound raw_is_strict graph h =
    let dist = (cdd_bf_consistent raw2bound raw_is_strict graph).1.dist in
    let n = scale_of raw2bound raw_is_strict dist (live graph) in
    (
      n,
      position raw2bound raw_is_strict n dist,
      scale_of_pos raw2bound raw_is_strict dist (live graph),
      Settled-All raw2bound raw_is_strict n dist (live graph) (omega arith)
          (consistent-Settled raw2bound raw_is_strict graph h),
    )
