-- ===== src/BellmanFord/Range.antt =====
-- When the sums of `cdd_bf_consistent` are numbers of `int32_t`, so that a consistent answer can be
-- believed: distances and sums of the model are unbounded, those of the source are not.
use ucdd.Base.{
  ℕ, zero, suc, ◌+◌, ◌*◌, ◌<◌, ◌≤◌, true, false, not, ◌&&◌, ◌==◌, ◌≡◌, refl, ◌⊎◌, inl, inr, arith,
  Bool-cases, List, [], ◌∷◌, length, ℤ, pos, negsuc, ◌+ℤ◌, pos_part, neg_part, +ℤ_parts, get_or,
  set,
}
use ucdd.Cache.Laws.{All}
use ucdd.BellmanFord.{
  Graph, Constraint, Distance, no_distance, add, through, improves, scan, rounds, cdd_bf_consistent,
}
use ucdd.BellmanFord.Stack.{live}
use ucdd.BellmanFord.Potential.{Holds, settled_solution}
use ucdd.BellmanFord.Scan.{at, relaxed, scanned, scanned-cons}

-- Value and number of strict bounds are at most `limit`, apart from the sign.
abbrev pub Within : ℕ → Distance → Type 0
Within limit d = (pos_part d.value ≤ limit) × (neg_part d.value ≤ limit) × (d.strictness ≤ limit)

-- A distance that two numbers of `int32_t` can hold.
abbrev pub IsInt32 : Distance → Type 0
IsInt32 d = Within 0x7FFFFFFF d

abbrev pub AreWithin : ℕ → List Distance → Type 0
AreWithin limit dist = (v : ℕ) → Within limit (at dist v)

Within-le : (a b : ℕ) (d : Distance) → a ≤ b → Within a d → Within b d
Within-le a b d le h = (omega (arith, h.0, le), omega (arith, h.1, le), omega (arith, h.2, le))

get_or-set_cases :
    {A : Type 0} (xs : List A) (i v : ℕ) (x d : A)
    → (get_or (set xs i x) v d ≡ x) ⊎ (get_or (set xs i x) v d ≡ get_or xs v d)
get_or-set_cases [] i v x d = inr refl
get_or-set_cases (y ∷ ys) zero zero x d = inl refl
get_or-set_cases (y ∷ ys) zero (suc v) x d = inr refl
get_or-set_cases (y ∷ ys) (suc i) zero x d = inr refl
get_or-set_cases (y ∷ ys) (suc i) (suc v) x d = get_or-set_cases ys i v x d

one_side : (z : ℤ) → (pos_part z ≡ 0) ⊎ (neg_part z ≡ 0)
one_side (pos n) = inr refl
one_side (negsuc n) = inl refl

within_sum :
    (a b : ℤ) (D B : ℕ)
    → pos_part a ≤ D
    → neg_part a ≤ D
    → pos_part b ≤ B
    → neg_part b ≤ B
    → (pos_part (a +ℤ b) ≤ D + B) × (neg_part (a +ℤ b) ≤ D + B)
within_sum a b D B h1 h2 h3 h4 = elim (one_side (a +ℤ b)) [
  | inl none ↦ (omega (arith, none), omega (arith, none, +ℤ_parts a b))
  | inr none ↦ (omega (arith, none, +ℤ_parts a b), omega (arith, none))
]

one_more : (D m B : ℕ) → D + suc m * B ≡ D + B + m * B
one_more D m B = grind arith

module _ (raw2bound : ℤ → ℤ) (raw_is_strict : ℤ → ℕ) where
  -- Every sum in a round over the edges is an `int32_t`.
  abbrev pub ScanFits : List Constraint → List Distance → Type 0
  ScanFits [] dist = Unit
  ScanFits (e ∷ es) dist =
      IsInt32 (through raw2bound raw_is_strict dist e)
      × ScanFits es (relaxed raw2bound raw_is_strict dist e)

  -- Every sum in the rounds, those included that are not needed.
  abbrev pub RoundsFit : ℕ → List Constraint → List Distance → Type 0
  RoundsFit zero es dist = Unit
  RoundsFit (suc v) es dist =
      ScanFits es dist × RoundsFit v es (scanned raw2bound raw_is_strict es dist)

  -- Every sum in the call.
  abbrev pub RunFits : Graph → Type 0
  RunFits graph =
      RoundsFit graph.dim (live graph) graph.dist
      × All
          (λ e. IsInt32 (
            through raw2bound raw_is_strict (cdd_bf_consistent raw2bound raw_is_strict graph).1.dist
              e))
          (live graph)

module _ (raw2bound : ℤ → ℤ) (raw_is_strict : ℤ → ℕ) (B : ℕ) where
  -- The edge adds at most `B` to a distance.
  abbrev pub IsShort : Constraint → Type 0
  IsShort e =
      (pos_part (raw2bound e.value) ≤ B)
      × (neg_part (raw2bound e.value) ≤ B)
      × (raw_is_strict e.value ≤ B)

  through-Within :
      (D : ℕ) (dist : List Distance) (e : Constraint)
      → IsShort e
      → AreWithin D dist
      → Within (D + B) (through raw2bound raw_is_strict dist e)
  unfolding add
  through-Within D dist e short h =
      let from = h e.i in
      let parts = +ℤ_parts (at dist e.i).value (raw2bound e.value) in
      let sum =
        within_sum (at dist e.i).value (raw2bound e.value) D B from.0 from.1 short.0 short.1 in
      (sum.0, sum.1, omega (arith, from.2, short.2))

  relaxed-AreWithin :
      (D : ℕ) (dist : List Distance) (e : Constraint)
      → IsShort e
      → AreWithin D dist
      → AreWithin (D + B) (relaxed raw2bound raw_is_strict dist e)
  relaxed-AreWithin D dist e short h v =
      let kept = Within-le D (D + B) (at dist v) (omega arith) (h v) in
      elim (Bool-cases (improves raw2bound raw_is_strict dist e)) [
        | inr worse ↦ rw worse kept
        | inl better ↦
            let new = through raw2bound raw_is_strict dist e in
            elim (get_or-set_cases dist e.j v new no_distance) [
              | inl written ↦ rw (better, written) (through-Within D dist e short h)
              | inr same ↦ rw (better, same) kept
            ]
      ]

  scan-fits :
      (es : List Constraint) (D : ℕ) (dist : List Distance)
      → All IsShort es
      → AreWithin D dist
      → D + length es * B ≤ 0x7FFFFFFF
      → ScanFits raw2bound raw_is_strict es dist
        × AreWithin (D + length es * B) (scanned raw2bound raw_is_strict es dist)
  unfolding scan
  scan-fits [] D dist short h le =
      (tt, λ v. Within-le D (D + 0 * B) (at dist v) (omega arith) (h v))
  scan-fits (e ∷ es) D dist (now, short) h le =
      let one = one_more D (length es) B in
      let (fits, last) =
        scan-fits es (D + B) (relaxed raw2bound raw_is_strict dist e) short
          (relaxed-AreWithin D dist e now h) (omega (arith, one, le)) in
      (
        (
          Within-le (D + B) 0x7FFFFFFF (through raw2bound raw_is_strict dist e)
              (omega (arith, one, le)) (through-Within D dist e now h),
          fits,
        ),
        λ v. rw (scanned-cons raw2bound raw_is_strict e es dist) (
            Within-le (D + B + length es * B) (D + suc (length es) * B) _ (omega (arith, one))
              (last v)),
      )

  rounds-fit :
      (v : ℕ) (es : List Constraint) (D : ℕ) (dist : List Distance)
      → All IsShort es
      → AreWithin D dist
      → D + v * (length es * B) ≤ 0x7FFFFFFF
      → RoundsFit raw2bound raw_is_strict v es dist
        × AreWithin (D + v * (length es * B)) (rounds raw2bound raw_is_strict v es dist).0
  unfolding rounds
  rounds-fit zero es D dist short h le =
      (tt, λ v. Within-le D (D + 0 * (length es * B)) (at dist v) (omega arith) (h v))
  rounds-fit (suc v) es D dist short h le =
      let m = length es * B in
      let one = one_more D v m in
      let next = scan raw2bound raw_is_strict es dist false in
      let (fits, reach) = scan-fits es D dist short h (omega (arith, one, le)) in
      let (rest, last) = rounds-fit v es (D + m) next.0 short reach (omega (arith, one, le)) in
      (
        (fits, rest),
        elim (Bool-cases (not (v == 0) && next.1)) [
          | inl more ↦
              rw more
                (λ u. Within-le (D + m + v * m) (D + suc v * m) _ (omega (arith, one)) (last u))
          | inr over ↦
              rw over (λ u. Within-le (D + m) (D + suc v * m) _ (omega (arith, one)) (reach u))
        ],
      )

  all_through :
      (D : ℕ) (dist : List Distance) (es : List Constraint)
      → All IsShort es
      → AreWithin D dist
      → D + B ≤ 0x7FFFFFFF
      → All (λ e. IsInt32 (through raw2bound raw_is_strict dist e)) es
  all_through D dist [] short h le = tt
  all_through D dist (e ∷ es) short h le = (
    Within-le (D + B) 0x7FFFFFFF (through raw2bound raw_is_strict dist e) le
        (through-Within D dist e short.0 h),
    all_through D dist es short.1 h le,
  )

-- Where the distances before the call are at most `D`, every edge adds at most `B`, apart from the
-- sign and for the counts of strict bounds as well, and D plus B times one more than the number of
-- vertices times the number of edges is an `int32_t`: no sum of the call leaves `int32_t`, and when
-- `cdd_bf_consistent` answers that the graph is consistent, its bounds have a solution: there are
-- numbers x / n for its vertices such that for each edge from i to j the difference of x j / n and
-- x i / n is at most the bound of the edge, and below it where the edge is strict.
pub consistent_solution :
    (raw2bound : ℤ → ℤ) (raw_is_strict : ℤ → ℕ) (B D : ℕ) (graph : Graph)
    → All (IsShort raw2bound raw_is_strict B) (live graph)
    → AreWithin D graph.dist
    → D + graph.dim * (length (live graph) * B) + B ≤ 0x7FFFFFFF
    → (cdd_bf_consistent raw2bound raw_is_strict graph).0 ≡ true
    → RunFits raw2bound raw_is_strict graph
      × (n : ℕ) × (x : ℕ → ℤ) × (0 < n)
      × All (Holds raw2bound raw_is_strict n x) (live graph)
unfolding cdd_bf_consistent
consistent_solution raw2bound raw_is_strict B D graph short start le h =
    let (fits, last) =
      rounds-fit raw2bound raw_is_strict B graph.dim (live graph) D graph.dist short start
        (omega arith) in
    let (n, x, positive, holds) = settled_solution raw2bound raw_is_strict graph h in
    (
      (
        fits,
        all_through raw2bound raw_is_strict B (D + graph.dim * (length (live graph) * B)) _
            (live graph) short last le,
      ),
      n,
      x,
      positive,
      holds,
    )
