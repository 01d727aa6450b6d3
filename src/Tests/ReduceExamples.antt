-- ===== src/Tests/ReduceExamples.antt =====
-- The theorems on reduction and on containment at diagrams of differences of clocks.
use ucdd.Base.{
  ◌≢◌, ltb_ℤ, ◌==ℤ◌, ◌≤ℤ◌, ◌<◌, ◌≤◌, ◌+◌, ◌*◌, not, ◌&&◌, false, get_or, Bool-cases, inl, inr,
  +ℤ_parts, pos_part, neg_part, ltb_ℤ→lt, ==ℤ_iff, Bool, true, List, [], ◌∷◌, ◌<ℤ◌, if◌then◌else◌,
  ◌==◌, int_laws, negsuc, ℕ, zero, suc, ◌-◌, ◌≡◌, refl, arith, false, ℤ, pos, ◌+ℤ◌,
}
use ucdd.Bounds.{infinity, minus_infinity, bnd_get_limit, low_bit}
use ucdd.BellmanFord.Potential.{scale, scale_parts}
use native.Mathlib.Nat.{mul-le-mul_left}
use ucdd.Dd.{Dd, ptr, bdd_node, cdd_node, nil, elem, cddtrue, cddfalse}
use ucdd.Dd.Meaning.{Valuation, eval}
use ucdd.Dd.WellFormed.{IsWf}
use ucdd.Machine.{ok, LevelInfo, type_cdd, type_bdd}
use ucdd.BellmanFord.{Constraint}
use ucdd.BellmanFord.Walks.{IsInside}
use ucdd.Contains.{cdd_contains}
use ucdd.Contains.Sound.{Meets, InZone, IsConstrain, contains_sound}
use ucdd.Extract.{cdd_extract_bdd}
use ucdd.Extract.Child.{IsLayered, AreInside}
use ucdd.Extract.Correct.{IsVariables, extract_bdd_correct}
use ucdd.Reduce.Room.{IsReducible}
use ucdd.Reduce.{cdd_bf_reduce}
use ucdd.Reduce.Clocks.{Clocks, IsRaw, IsClocked}
use ucdd.Reduce.Correct.{bf_reduce_correct}

abbrev strict : ℤ → ℕ
strict b = 1 - low_bit b

raw_bounds : IsRaw bnd_get_limit strict
unfolding bnd_get_limit low_bit ◌+ℤ◌
raw_bounds b = (ground arith, ground arith)

-- Level 0 is x1 - x0, and the levels above it are x2 - x1.
abbrev three_clocks : ℕ → LevelInfo
three_clocks k = elim k [
  | zero ↦ record { type = type_cdd; clock1 = 1; clock2 = 0; diff = 0 }
  | suc n ↦ record { type = type_cdd; clock1 = 2; clock2 = 1; diff = 0 }
]

-- Clocks at 0, 4/3 and 4/3: the differences are between 1 and 2, and 0.
abbrev thirds : Clocks
thirds = record { unit = 3; positive = omega arith; at = λ c. if c == 0 then pos 0 else negsuc 3 }

abbrev third_positions : ℕ → ℤ
third_positions zero = pos 3
third_positions (suc k) = pos 0

thirds_above : (k : ℕ) → minus_infinity <ℤ third_positions k
thirds_above zero = omega arith
thirds_above (suc k) = omega arith

thirds_below : (k : ℕ) → third_positions k <ℤ infinity
thirds_below zero = omega arith
thirds_below (suc k) = omega arith

abbrev at_thirds : Valuation
at_thirds = record {
  bools = λ k. false;
  diffs = third_positions;
  above = thirds_above;
  in_range = thirds_below;
}

at_thirds-IsClocked : IsClocked three_clocks at_thirds thirds
at_thirds-IsClocked zero m = omega (int_laws, scale_parts 3 m)
at_thirds-IsClocked (suc k) m = omega (int_laws, scale_parts 3 m)

-- x1 - x0 < 3, or x2 - x1 <= 2 where it is not.
abbrev one_bound : Dd
one_bound = ptr false (cdd_node 1 (elem cddtrue (pos 5) (elem cddfalse infinity nil)))

abbrev two_bounds : Dd
two_bounds = ptr false (cdd_node 0 (elem cddtrue (pos 6) (elem one_bound infinity nil)))

bf_reduce_correct_example :
    (d : Dd) × (cdd_bf_reduce bnd_get_limit strict infinity three_clocks 4 3 3 two_bounds ≡ ok d)
    × IsWf three_clocks 2 d
    × ((v : Valuation) (x : Clocks) → IsClocked three_clocks v x → eval v d ≡ eval v two_bounds)
unfolding ucdd.Reduce.Room.IsReducible ucdd.Reduce.Room.depth ucdd.Dd.WellFormed.height
bf_reduce_correct_example =
    bf_reduce_correct bnd_get_limit strict infinity three_clocks 2 4 3 3 two_bounds raw_bounds refl
      (omega arith) (ground arith) (omega arith) (omega arith)

-- The bound and the bound of the opposite difference in the matrix sum up to less than 0.
unfoldable clash : List ℤ → ℕ → Constraint → Bool
clash dbm dim c =
    let opposite = get_or dbm (c.j * dim + c.i) infinity in
    not (c.value ==ℤ infinity)
    && (not (opposite ==ℤ infinity)
        && ltb_ℤ (bnd_get_limit c.value +ℤ bnd_get_limit opposite) (pos 0))

-- A DBM is empty when a constraint clashes, and stays the larger one.
unfoldable opposite_test : List ℤ → ℕ → List Constraint → Bool × List ℤ
opposite_test dbm dim [] = (true, dbm)
opposite_test dbm dim (c ∷ cs) =
    let others = opposite_test dbm dim cs in (if clash dbm dim c then false else others.0, dbm)

no_clash :
    (n : ℕ) (b e y z : ℤ) (s t : ℕ)
    → 0 < n
    → y +ℤ pos s ≤ℤ z +ℤ scale n b
    → z +ℤ pos t ≤ℤ y +ℤ scale n e
    → ltb_ℤ (b +ℤ e) (pos 0) ≡ false
no_clash n b e y z s t positive h l = elim (Bool-cases (ltb_ℤ (b +ℤ e) (pos 0))) [
  | inr kept ↦ kept
  | inl negative ↦
      let parts = +ℤ_parts b e in
      let gap : pos_part b + pos_part e + 1 ≤ neg_part b + neg_part e =
        omega (arith, parts, ltb_ℤ→lt (b +ℤ e) (pos 0) negative) in
      let scaled = mul-le-mul_left n gap in
      absurd (omega (int_laws, h, l, scaled, scale_parts n b, scale_parts n e, positive))
]

finite : (b : ℤ) → (b ==ℤ infinity) ≡ false → b ≢ infinity
finite b h e = absurd (ground (arith, h, (==ℤ_iff b infinity).1 e))

met-clash :
    (dim : ℕ) (dbm : List ℤ) (c : Constraint) (x : Clocks)
    → IsInside dim c
    → InZone bnd_get_limit strict dim dbm x
    → Meets bnd_get_limit strict x c
    → clash dbm dim c ≡ false
unfolding clash
met-clash dim dbm c x inside zone meets =
    let opposite = get_or dbm (c.j * dim + c.i) infinity in
    elim (Bool-cases (c.value ==ℤ infinity)) [
      | inl e ↦ rw e refl
      | inr e ↦ elim (Bool-cases (opposite ==ℤ infinity)) [
        | inl f ↦ rw (e, f) refl
        | inr f ↦
            let none =
              no_clash x.unit (bnd_get_limit c.value) (bnd_get_limit opposite) (x.at c.j) (x.at c.i)
                (strict c.value) (strict opposite) x.positive (meets (finite c.value e))
                (zone c.j c.i inside.1 inside.0 (finite opposite f)) in
            rw (e, f, none) refl
      ]
    ]

opposite_test-IsConstrain : (dim : ℕ) → IsConstrain bnd_get_limit strict opposite_test dim
unfolding opposite_test clash
opposite_test-IsConstrain dim dbm [] x inside zone met = (refl, zone)
opposite_test-IsConstrain dim dbm (c ∷ cs) x (here, inside) zone (meets, met) =
    let (others, same) = opposite_test-IsConstrain dim dbm cs x inside zone met in
    (rw (met-clash dim dbm c x here zone meets) others, zone)

-- x1 - x0 <= 2, x0 - x1 <= 0
abbrev small_zone : List ℤ
small_zone = pos 1 ∷ pos 1 ∷ pos 5 ∷ pos 1 ∷ []

contains_sound_example :
    (b : Bool) × (cdd_contains opposite_test three_clocks 2 two_bounds small_zone ≡ ok b)
    × (b ≡ true
        → (v : Valuation) (x : Clocks) → IsClocked three_clocks v x
        → InZone bnd_get_limit strict 2 small_zone x
        → eval v two_bounds ≡ true)
unfolding ucdd.Contains.Sound.IsPlain
contains_sound_example =
    contains_sound bnd_get_limit strict opposite_test three_clocks 2 two_bounds small_zone
      raw_bounds (opposite_test-IsConstrain 2) (ground arith)

two_bounds_answer : cdd_contains opposite_test three_clocks 2 two_bounds small_zone ≡ ok true
unfolding cdd_contains opposite_test clash ucdd.Bounds.bnd_l2u ucdd.Bounds.mirror ◌+ℤ◌ bnd_get_limit
two_bounds_answer = refl

-- A difference on level 0, and variables.
abbrev one_clock : ℕ → LevelInfo
one_clock k = elim k [
  | zero ↦ record { type = type_cdd; clock1 = 1; clock2 = 0; diff = 0 }
  | suc n ↦ record { type = type_bdd; clock1 = 0; clock2 = 0; diff = 0 }
]

-- The variable of level 1 where x1 - x0 is at least 3.
abbrev late_variable : Dd
late_variable = ptr false (
    cdd_node 0
      (elem cddfalse (pos 6) (elem (ptr false (bdd_node 1 cddfalse cddtrue)) infinity nil)))

extract_bdd_correct_example :
    (d : Dd) × (cdd_extract_bdd one_clock 3 late_variable ≡ ok d)
    × IsReducible one_clock 2 3 d
    × IsVariables one_clock 2 3 d
    × (q : ℕ → ℤ) × AreInside q
    × ((v : Valuation) → ((l : ℕ) → v.diffs l ≡ q l) → eval v late_variable ≡ eval v d)
unfolding IsReducible IsLayered ucdd.Dd.WellFormed.height ucdd.Dd.same ucdd.Dd.cdd_eval_false
extract_bdd_correct_example =
    extract_bdd_correct one_clock 2 3 3 late_variable (ground arith) (ground arith) (ground arith)
      (omega arith)
