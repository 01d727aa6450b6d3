-- ===== src/Tarjan/Short.antt =====
-- What the inner loop of `populateQueue` looks for, in terms of the arrays of the graph.
use ucdd.Base.{
  ℕ, zero, suc, ◌+◌, ◌-◌, ◌*◌, ◌<◌, ◌≡◌, ◌↔◌, ◌⊎◌, refl, sym, ◌∙◌, ap, subst, arith, Bool, true,
  ◌||◌, inl, inr, List, [], ◌∷◌, some, get_elem?, get_or, ℤ, ◌<ℤ◌,
}
use ucdd.BellmanFord.{Distance, no_distance, take, add, less}
use ucdd.Tarjan.{Edge, TarjanGraph, count_of, drop, edges_of, is_short, has_short}

-- A smaller value, or more strict bounds at the same value.
abbrev pub Better : Distance → Distance → Type 0
Better d c = (d.value <ℤ c.value) ⊎ ((d.value ≡ c.value) × (c.strictness < d.strictness))

-- An element of the array at a position below `bound` beyond `from`.
abbrev Entry : {A : Type 0} → List A → ℕ → ℕ → A → Type 0
Entry xs from bound e = (n : ℕ) × (n < bound) × (get_elem? xs (from + n) ≡ some e)

get_elem?-drop :
    {A : Type 0} (k n : ℕ) (xs : List A) → get_elem? (drop k xs) n ≡ get_elem? xs (k + n)
unfolding drop
get_elem?-drop zero n xs = ap (get_elem? xs) (omega arith)
get_elem?-drop (suc k) n [] = refl
get_elem?-drop (suc k) n (x ∷ xs) =
    let next : suc (k + n) ≡ suc k + n = omega arith in
    get_elem?-drop k n xs ∙ ap (get_elem? (x ∷ xs)) next

get_elem?-take :
    {A : Type 0} (k n : ℕ) (xs : List A) (e : A)
    → (get_elem? (take k xs) n ≡ some e) ↔ ((n < k) × (get_elem? xs n ≡ some e))
unfolding take
get_elem?-take zero n xs e = ground arith
get_elem?-take (suc k) n [] e = ground arith
get_elem?-take (suc k) zero (x ∷ xs) e = ground arith
get_elem?-take (suc k) (suc n) (x ∷ xs) e = ground (arith, get_elem?-take k n xs e)

less-Better : (d c : Distance) → (less d c ≡ true) ↔ Better d c
unfolding less
less-Better d c = ground arith

module _ (raw2bound : ℤ → ℤ) (raw_is_strict : ℤ → ℕ) where
  -- The distance of the target through the edge is better than its own.
  abbrev pub Improves : List Distance → ℕ → Edge → Type 0
  Improves dist u e =
      Better (add raw2bound raw_is_strict (get_or dist u no_distance) e.value)
        (get_or dist e.v no_distance)

  -- The array of edges has such an edge among the `count` edges from the place of the vertex on.
  abbrev pub HasImprovement : TarjanGraph → ℕ → Type 0
  HasImprovement graph u =
      (e : Edge) × Entry graph.edges (u * graph.dim - u) (count_of graph u) e
      × Improves graph.dist u e

  Found : List Distance → ℕ → List Edge → Type 0
  Found dist u es = (e : Edge) × (n : ℕ) × (get_elem? es n ≡ some e) × Improves dist u e

  short-Improves :
      (dist : List Distance) (u : ℕ) (e : Edge)
      → (is_short raw2bound raw_is_strict dist u e ≡ true) ↔ Improves dist u e
  short-Improves dist u e =
      less-Better (add raw2bound raw_is_strict (get_or dist u no_distance) e.value)
        (get_or dist e.v no_distance)

  or-split : (a b : Bool) → (a || b) ≡ true → (a ≡ true) ⊎ (b ≡ true)
  or-split a b h = ground arith

  has_short-Found :
      (dist : List Distance) (u : ℕ) (es : List Edge)
      → has_short raw2bound raw_is_strict dist u es ≡ true
      → Found dist u es
  unfolding has_short Found
  has_short-Found dist u [] h = cc
  has_short-Found dist u (e ∷ es) h =
      elim (or-split (is_short raw2bound raw_is_strict dist u e)
        (has_short raw2bound raw_is_strict dist u es) h) [
          | inl here ↦ (e, 0, refl, (short-Improves dist u e).0 here)
          | inr later ↦
              let (f, n, at, better) = has_short-Found dist u es later in (f, suc n, at, better)
        ]

  Found-has_short :
      (dist : List Distance) (u : ℕ) (es : List Edge)
      → Found dist u es
      → has_short raw2bound raw_is_strict dist u es ≡ true
  unfolding has_short Found
  Found-has_short dist u [] (f, n, at, better) = cc
  Found-has_short dist u (e ∷ es) (f, zero, at, better) =
      let same : e ≡ f = cc in
      let now : is_short raw2bound raw_is_strict dist u e ≡ true =
        (short-Improves dist u e).1 (subst (Improves dist u) (sym same) better) in
      rw now refl
  Found-has_short dist u (e ∷ es) (f, suc n, at, better) =
      let later = Found-has_short dist u es (f, n, at, better) in ground (arith, later)

  pub has_short-HasImprovement :
      (graph : TarjanGraph) (u : ℕ)
      → (has_short raw2bound raw_is_strict graph.dist u (edges_of graph u) ≡ true)
        ↔ HasImprovement graph u
  unfolding edges_of Found
  has_short-HasImprovement graph u =
      let from = u * graph.dim - u in
      let rest = drop from graph.edges in
      (
        λ h.
            let (e, n, at, better) = has_short-Found graph.dist u (edges_of graph u) h in
            let (lt, at') = (get_elem?-take (count_of graph u) n rest e).0 at in
            (e, (n, lt, sym (get_elem?-drop from n graph.edges) ∙ at'), better),
        λ h.
            let (e, (n, lt, at), better) = h in
            let at' = get_elem?-drop from n graph.edges ∙ at in
            Found-has_short graph.dist u (edges_of graph u)
              (e, n, (get_elem?-take (count_of graph u) n rest e).1 (lt, at'), better),
      )
