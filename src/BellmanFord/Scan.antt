-- ===== src/BellmanFord/Scan.antt =====
-- One round of the loop of `cdd_bf_consistent` over the edges.
use ucdd.Base.{
  ℕ, ◌<◌, ◌==◌, if◌then◌else◌, ◌&&◌, Bool, true, false, ◌≡◌, refl, sym, ◌∙◌, arith, Bool-cases, inl,
  inr, ==_iff, List, [], ◌∷◌, length, ℤ, get_or, set, length-set, get_or-set_self, get_or-set_ne,
}
use ucdd.Cache.Laws.{All}
use ucdd.BellmanFord.{Constraint, Distance, no_distance, through, improves, scan}
use ucdd.BellmanFord.Order.{Le, Le_refl, Le_trans, add-Le, less-Le}
use ucdd.BellmanFord.Walks.{In, IsInside}

abbrev pub at : List Distance → ℕ → Distance
at dist v = get_or dist v no_distance

-- No distance of the first array is above that of the second.
abbrev pub Lower : List Distance → List Distance → Type 0
Lower c d = (v : ℕ) → Le (at c v) (at d v)

at-set :
    (dist : List Distance) (i v : ℕ) (x : Distance)
    → i < length dist
    → at (set dist i x) v ≡ (if i == v then x else at dist v)
at-set dist i v x h = elim (Bool-cases (i == v)) [
  | inl same ↦ rw (← (==_iff i v).0 same) (ground (arith, get_or-set_self dist i x no_distance h))
  | inr other ↦ rw other (get_or-set_ne dist i v x no_distance (ground (arith, other)))
]

module _ (raw2bound : ℤ → ℤ) (raw_is_strict : ℤ → ℕ) where
  -- The step of `scan` at an edge.
  abbrev pub relaxed : List Distance → Constraint → List Distance
  relaxed dist e =
      if improves raw2bound raw_is_strict dist e
      then set dist e.j (through raw2bound raw_is_strict dist e)
      else dist

  pub relaxed-lem :
      (dist : List Distance) (e : Constraint) (v : ℕ)
      → e.j < length dist
      → at (relaxed dist e) v ≡ (
          if improves raw2bound raw_is_strict dist e && (e.j == v)
          then through raw2bound raw_is_strict dist e
          else at dist v)
  relaxed-lem dist e v h = elim (Bool-cases (improves raw2bound raw_is_strict dist e)) [
    | inl better ↦ rw better (at-set dist e.j v _ h)
    | inr worse ↦ rw worse refl
  ]

  pub length-relaxed :
      (dist : List Distance) (e : Constraint) → length (relaxed dist e) ≡ length dist
  length-relaxed dist e = elim (Bool-cases (improves raw2bound raw_is_strict dist e)) [
    | inl better ↦ rw better (length-set dist e.j _)
    | inr worse ↦ rw worse refl
  ]

  relaxed-Lower :
      (dist : List Distance) (e : Constraint) → e.j < length dist → Lower (relaxed dist e) dist
  relaxed-Lower dist e h v =
      elim (Bool-cases (improves raw2bound raw_is_strict dist e && (e.j == v))) [
        | inl both ↦
            let better : improves raw2bound raw_is_strict dist e ≡ true = ground (arith, both) in
            let same : e.j ≡ v = ground (arith, both) in
            rw (relaxed-lem dist e v h, both) (rw (← same) (less-Le _ _ better))
        | inr no_change ↦ rw (relaxed-lem dist e v h, no_change) (Le_refl (at dist v))
      ]

  relaxed-through :
      (dist : List Distance) (e : Constraint)
      → e.j < length dist
      → Le (at (relaxed dist e) e.j) (through raw2bound raw_is_strict dist e)
  relaxed-through dist e h = elim (Bool-cases (improves raw2bound raw_is_strict dist e)) [
    | inl better ↦
        let same : (e.j == e.j) ≡ true = ground arith in
        rw (relaxed-lem dist e e.j h, better, same)
          (Le_refl (through raw2bound raw_is_strict dist e))
    | inr worse ↦ rw worse worse
  ]

  abbrev pub scanned : List Constraint → List Distance → List Distance
  scanned es dist = (scan raw2bound raw_is_strict es dist false).0

  scan-found :
      (es : List Constraint) (dist : List Distance) (found : Bool)
      → (scan raw2bound raw_is_strict es dist found).0 ≡ scanned es dist
  unfolding scan
  scan-found [] dist found = refl
  scan-found (e ∷ es) dist found =
      scan-found es (relaxed dist e) _ ∙ sym (scan-found es (relaxed dist e) _)

  pub scanned-cons :
      (e : Constraint) (es : List Constraint) (dist : List Distance)
      → scanned (e ∷ es) dist ≡ scanned es (relaxed dist e)
  unfolding scan
  scanned-cons e es dist = scan-found es (relaxed dist e) _

  -- What a round of the loop ensures: the distances are lower, and every edge was taken.
  pub record IsScan (es : List Constraint) (dist next : List Distance) : Type 0 where
    pub same_length : length next ≡ length dist
    pub lower : Lower next dist
    pub taken :
        (e : Constraint) → In e es → Le (at next e.j) (through raw2bound raw_is_strict dist e)

  pub scanned-IsScan :
      (es : List Constraint) (dist : List Distance)
      → All (IsInside (length dist)) es
      → IsScan es dist (scanned es dist)
  unfolding scan
  scanned-IsScan [] dist inside = record {
    same_length = refl;
    lower = λ v. Le_refl (at dist v);
    taken = λ e i. absurd i;
  }
  scanned-IsScan (e ∷ es) dist (here, inside) =
      let next = relaxed dist e in
      let len = length-relaxed dist e in
      let r = scanned-IsScan es next (rw len inside) in
      let down = relaxed-Lower dist e here.1 in
      rw (scanned-cons e es dist) record {
        same_length = r.same_length ∙ len;
        lower = λ v. Le_trans _ _ _ (r.lower v) (down v);
        taken = λ f i. elim i [
          | inl same ↦ rw same (Le_trans _ _ _ (r.lower e.j) (relaxed-through dist e here.1))
          | inr k ↦
              Le_trans _ _ _ (r.taken f k) (add-Le raw2bound raw_is_strict _ _ f.value (down f.i))
        ];
      }
