-- ===== src/BellmanFord/Complete.antt =====
-- Bounds with a solution are found consistent, whatever the distances at the start.
use ucdd.Base.{
  ℕ, zero, suc, ◌<◌, ◌≤◌, ◌==◌, not, ◌&&◌, true, false, ◌≡◌, refl, subst, sym, arith, Bool-cases,
  inl, inr, List, [], ◌∷◌, ◌++◌, length, ℤ,
}
use ucdd.Cache.Laws.{All}
use ucdd.BellmanFord.{
  Graph, Constraint, Distance, add, improves, scan, rounds, stable, cdd_bf_consistent,
}
use ucdd.BellmanFord.Scan.{
  at, Lower, scanned, relaxed, relaxed-lem, length-relaxed, scanned-cons, scanned-IsScan,
}
use ucdd.BellmanFord.Order.{Le, Le_refl, Le_trans}
use ucdd.BellmanFord.Walks.{
  In, IsWalk, IsInside, IsWalk-snoc, along, along-snoc, along-Le, simple-IsWalk,
}
use ucdd.BellmanFord.Potential.{Holds}
use ucdd.BellmanFord.Stack.{live}

module _ (raw2bound : ℤ → ℤ) (raw_is_strict : ℤ → ℕ) where
  -- The distances after `k` rounds.
  unfoldable iter : ℕ → List Constraint → List Distance → List Distance
  iter zero es dist = dist
  iter (suc k) es dist = iter k es (scanned raw2bound raw_is_strict es dist)

  rounds-iter :
      (k : ℕ) (es : List Constraint) (dist : List Distance)
      → (rounds raw2bound raw_is_strict k es dist).1 ≡ true
      → (rounds raw2bound raw_is_strict k es dist).0 ≡ iter k es dist
  unfolding rounds iter
  rounds-iter zero es dist h = refl
  rounds-iter (suc k) es dist h =
      let next = scan raw2bound raw_is_strict es dist false in
      elim (Bool-cases (not (k == 0) && next.1)) [
        | inl more ↦ rw more (rounds-iter k es next.0 (rw more at h))
        | inr over ↦
            let found : next.1 ≡ true = rw over at h in
            let last : k ≡ 0 = ground (arith, over, found) in rw (over, last) refl
      ]

  iter-Lower :
      (k : ℕ) (es : List Constraint) (dist : List Distance)
      → All (IsInside (length dist)) es
      → Lower (iter k es dist) dist
  unfolding iter
  iter-Lower zero es dist inside v = Le_refl (at dist v)
  iter-Lower (suc k) es dist inside v =
      let r = scanned-IsScan raw2bound raw_is_strict es dist inside in
      Le_trans _ _ _
        (iter-Lower k es (scanned raw2bound raw_is_strict es dist) (rw r.same_length inside) v)
        (r.lower v)

  -- After as many rounds as a walk has edges, the distance of its end is not above that of the walk.
  iter-ahead :
      (k : ℕ) (es : List Constraint) (dist : List Distance) (a : ℕ) (p : List Constraint) (v : ℕ)
      → All (IsInside (length dist)) es
      → IsWalk es a p v
      → length p ≤ k
      → Le (at (iter k es dist) v) (along raw2bound raw_is_strict (at dist a) p)
  unfolding iter along
  iter-ahead k es dist a [] v inside h le = rw (← h) (iter-Lower k es dist inside a)
  iter-ahead zero es dist a (e ∷ p) v inside h le = absurd (omega arith)
  iter-ahead (suc k) es dist a (e ∷ p) v inside (i, s, h) le =
      let r = scanned-IsScan raw2bound raw_is_strict es dist inside in
      let ih =
        iter-ahead k es (scanned raw2bound raw_is_strict es dist) e.j p v (rw r.same_length inside)
          h (omega arith) in
      Le_trans _ _ _ ih (along-Le raw2bound raw_is_strict _ _ p (rw s at (r.taken e i)))

  -- Every distance is that along some walk from where the distances started.
  abbrev Reached : List Constraint → List Distance → List Distance → Type 0
  Reached es base dist =
      (v : ℕ)
      → (a : ℕ) × (p : List Constraint) × IsWalk es a p v
        × (at dist v ≡ along raw2bound raw_is_strict (at base a) p)

  Reached-refl : (es : List Constraint) (dist : List Distance) → Reached es dist dist
  unfolding along
  Reached-refl es dist v = (v, [], refl, refl)

  relaxed-Reached :
      (es : List Constraint) (base dist : List Distance) (e : Constraint)
      → In e es
      → e.j < length dist
      → Reached es base dist
      → Reached es base (relaxed raw2bound raw_is_strict dist e)
  relaxed-Reached es base dist e i lt h v =
      elim (Bool-cases (improves raw2bound raw_is_strict dist e && (e.j == v))) [
        | inr no_change ↦ rw (relaxed-lem raw2bound raw_is_strict dist e v lt, no_change) (h v)
        | inl both ↦
            let same : e.j ≡ v = ground (arith, both) in
            let (a, p, walk, eq) = h e.i in
            rw (relaxed-lem raw2bound raw_is_strict dist e v lt, both)
              (
                a,
                p ++ (e ∷ []),
                subst (IsWalk es a (p ++ (e ∷ []))) same (IsWalk-snoc es a p e walk i),
                rw eq (sym (along-snoc raw2bound raw_is_strict (at base a) p e)),
              )
      ]

  scanned-Reached :
      (es fs : List Constraint) (base dist : List Distance)
      → ((e : Constraint) → In e fs → In e es)
      → All (IsInside (length dist)) fs
      → Reached es base dist
      → Reached es base (scanned raw2bound raw_is_strict fs dist)
  unfolding scan
  scanned-Reached es [] base dist sub inside h = h
  scanned-Reached es (e ∷ fs) base dist sub (here, inside) h =
      let next = relaxed-Reached es base dist e (sub e (inl refl)) here.1 h in
      let len = length-relaxed raw2bound raw_is_strict dist e in
      rw (scanned-cons raw2bound raw_is_strict e fs dist) (
        scanned-Reached es fs base (relaxed raw2bound raw_is_strict dist e) (λ f i. sub f (inr i))
          (rw len inside) next)

  iter-Reached :
      (k : ℕ) (es : List Constraint) (base dist : List Distance)
      → All (IsInside (length dist)) es
      → Reached es base dist
      → Reached es base (iter k es dist)
  unfolding iter
  iter-Reached zero es base dist inside h = h
  iter-Reached (suc k) es base dist inside h =
      let r = scanned-IsScan raw2bound raw_is_strict es dist inside in
      iter-Reached k es base (scanned raw2bound raw_is_strict es dist) (rw r.same_length inside)
        (scanned-Reached es es base dist (λ e i. i) inside h)

  -- After as many rounds as there are vertices, no edge improves a distance.
  iter-settled :
      (n : ℕ) (x : ℕ → ℤ) (es : List Constraint) (dist : List Distance) (e : Constraint)
      → 0 < n
      → All (Holds raw2bound raw_is_strict n x) es
      → All (IsInside (length dist)) es
      → In e es
      → improves raw2bound raw_is_strict (iter (length dist) es dist) e ≡ false
  iter-settled n x es dist e positive holds inside i =
      let last = iter (length dist) es dist in
      let (a, p, walk, eq) =
        iter-Reached (length dist) es dist dist inside (Reached-refl es dist) e.i in
      let longer = IsWalk-snoc es a p e walk i in
      let (q, leads, short, below) =
        simple-IsWalk raw2bound raw_is_strict n x positive es holds (length dist) a (p ++ (e ∷ []))
          e.j inside longer in
      let ahead = iter-ahead (length dist) es dist a q e.j inside leads short in
      let far : Le (at last e.j) (along raw2bound raw_is_strict (at dist a) (p ++ (e ∷ []))) =
        Le_trans _ _ _ ahead (below (at dist a)) in
      let far' : Le (at last e.j)
          (add raw2bound raw_is_strict (along raw2bound raw_is_strict (at dist a) p) e.value) =
        rw (← along-snoc raw2bound raw_is_strict (at dist a) p e) far in
      rw eq far'

  settled-stable :
      (es : List Constraint) (dist : List Distance)
      → ((e : Constraint) → In e es → improves raw2bound raw_is_strict dist e ≡ false)
      → stable raw2bound raw_is_strict es dist ≡ true
  unfolding stable
  settled-stable [] dist h = refl
  settled-stable (e ∷ es) dist h = rw (h e (inl refl)) (settled-stable es dist (λ f i. h f (inr i)))

-- On a graph with a distance for each vertex, whose edges lead between its vertices: when the
-- bounds have a solution in numbers x / n with a positive n, `cdd_bf_consistent` answers that the
-- graph is consistent, whatever its distances are at the start.
pub solution-consistent :
    (raw2bound : ℤ → ℤ) (raw_is_strict : ℤ → ℕ) (graph : Graph) (n : ℕ) (x : ℕ → ℤ)
    → length graph.dist ≡ graph.dim
    → All (IsInside graph.dim) (live graph)
    → 0 < n
    → All (Holds raw2bound raw_is_strict n x) (live graph)
    → (cdd_bf_consistent raw2bound raw_is_strict graph).0 ≡ true
unfolding cdd_bf_consistent
solution-consistent raw2bound raw_is_strict graph n x len inside positive holds =
    let last = rounds raw2bound raw_is_strict graph.dim (live graph) graph.dist in
    elim (Bool-cases last.1) [
      | inr none ↦ rw none refl
      | inl found ↦
          let settled = λ (e : Constraint) (i : In e (live graph)).
            iter-settled raw2bound raw_is_strict n x (live graph) graph.dist e positive holds
              (rw len inside) i in
          rw
            (
              found,
              rounds-iter raw2bound raw_is_strict graph.dim (live graph) graph.dist found,
              ← len,
            )
            (settled-stable raw2bound raw_is_strict (live graph) _ settled)
    ]
