-- ===== src/Levels/Interval.antt =====
-- What `cdd_interval` and `cdd_upper` build, whichever of the two clocks is the larger.
use ucdd.Base.{
  ℕ, zero, suc, ◌+◌, ◌<◌, ◌≤◌, ◌≡◌, ◌≢◌, refl, ◌∙◌, arith, ◌⊎◌, inl, inr, some, Bool, not, ap, ◌&&◌,
  if◌then◌else◌, List, [], ◌∷◌, get_elem?, get_or, ℤ, ltb_ℤ, ltb, ◌<ℤ◌, ◌≤ℤ◌, neg_ℤ, negsuc, pos,
  neg_ℤ_parts, -ℤ_parts, pos_part, neg_part, eq_of_parts, Bool-cases, ◌==ℤ◌, ==ℤ_iff,
}
use mathlib.Core.Option.{some-injective}
use ucdd.Bounds.{infinity, minus_infinity, bnd_u2l, bnd_l2u}
use ucdd.Bounds.Laws.{mirror_lem}
use ucdd.Dd.{Dd, max_level}
use ucdd.Dd.Meaning.{Valuation, eval}
use ucdd.Dd.WellFormed.{IsWf}
use ucdd.Machine.{LevelInfo, type_cdd, ok}
use ucdd.Nodes.{cdd_interval_from_level}
use ucdd.Nodes.Laws.{interval_meaning}
use ucdd.Levels.{Levels, cdd_difference, cdd_interval, level_at, and_then}
use ucdd.Levels.Table.{IsTable}

pub get_or-some :
    {A : Type 0} (xs : List A) (i : ℕ) (d x : A) → get_elem? xs i ≡ some x → get_or xs i d ≡ x
get_or-some [] i d x h = cc
get_or-some (y ∷ ys) zero d x h = some-injective _ _ h
get_or-some (y ∷ ys) (suc i) d x h = get_or-some ys i d x h

-- The level of the difference of `a` and a smaller `b`.
unfoldable pub level_of_pair : Levels → ℕ → ℕ → ℕ
level_of_pair s a b = get_or s.diff2level (cdd_difference a b) 0

-- The position of the difference of the clocks `i` and `j` under a valuation.
unfoldable pub difference_of : Levels → Valuation → ℕ → ℕ → ℤ
difference_of s v i j =
    if ltb j i then v.diffs (level_of_pair s i j) else neg_ℤ (v.diffs (level_of_pair s j i))

-- The position is at least `low` and below `high`, where -INF is no lower bound.
unfoldable pub inside : ℤ → ℤ → ℤ → Bool
inside low high q = not (ltb_ℤ minus_infinity low && ltb_ℤ q low) && ltb_ℤ q high

pub ne_parts : (a b : ℤ) → a ≢ b → pos_part a + neg_part b ≢ pos_part b + neg_part a
ne_parts a b h e = h (eq_of_parts a b e)

-- The mirror image of a bound, in parts.
abbrev Mirrored : ℤ → ℤ → Type 0
Mirrored b c = pos_part c + pos_part b ≡ neg_part c + neg_part b + 1

pub u2l_cases :
    (b : ℤ)
    → ((b ≡ infinity) × (bnd_u2l b ≡ minus_infinity)) ⊎ ((b ≢ infinity) × Mirrored b (bnd_u2l b))
unfolding bnd_u2l
u2l_cases b = elim (Bool-cases (b ==ℤ infinity)) [
  | inl e ↦ inl ((==ℤ_iff b infinity).0 e, rw e refl)
  | inr e ↦ inr (λ f. ground arith, rw (e, mirror_lem) (omega (arith, -ℤ_parts (pos 1) b)))
]

l2u_cases :
    (b : ℤ)
    → ((b ≡ minus_infinity) × (bnd_l2u b ≡ infinity))
      ⊎ ((b ≢ minus_infinity) × Mirrored b (bnd_l2u b))
unfolding bnd_l2u
l2u_cases b = elim (Bool-cases (b ==ℤ minus_infinity)) [
  | inl e ↦ inl ((==ℤ_iff b minus_infinity).0 e, rw e refl)
  | inr e ↦ inr (λ f. ground arith, rw (e, mirror_lem) (omega (arith, -ℤ_parts (pos 1) b)))
]

flip-inside :
    (low high q : ℤ)
    → minus_infinity <ℤ q
    → q <ℤ infinity
    → minus_infinity ≤ℤ low
    → high ≤ℤ infinity
    → inside (bnd_u2l high) (bnd_l2u low) q ≡ inside low high (neg_ℤ q)
unfolding inside
flip-inside low high q lo hi a b = elim (u2l_cases high) [
  | inl (e, f) ↦ elim (l2u_cases low) [
    | inl (g, h) ↦ rw (f, h, e, g) (ground (arith, neg_ℤ_parts q))
    | inr (g, h) ↦ rw (f, e) (ground (arith, neg_ℤ_parts q, ne_parts low minus_infinity g))
  ]
  | inr (e, f) ↦ elim (l2u_cases low) [
    | inl (g, h) ↦ rw (h, g) (ground (arith, neg_ℤ_parts q, ne_parts high infinity e))
    | inr (g, h) ↦
        ground (arith, neg_ℤ_parts q, ne_parts high infinity e, ne_parts low minus_infinity g)
  ]
]

flip-ordered :
    (low high : ℤ)
    → minus_infinity ≤ℤ low
    → low <ℤ high
    → high ≤ℤ infinity
    → negsuc 0x7FFFFFFC <ℤ high
    → (negsuc 0x7FFFFFFC <ℤ low) ⊎ (high <ℤ infinity)
    → (bnd_u2l high <ℤ bnd_l2u low)
      × (bnd_l2u low ≤ℤ infinity)
      × ((minus_infinity <ℤ bnd_u2l high) ⊎ (bnd_l2u low <ℤ infinity))
flip-ordered low high a b c far d = elim (u2l_cases high) [
  | inl (e, f) ↦ elim (l2u_cases low) [
    | inl (g, h) ↦ absurd (ground (arith, e, g))
    | inr (g, h) ↦ rw f (ground (arith, e, ne_parts low minus_infinity g))
  ]
  | inr (e, f) ↦ elim (l2u_cases low) [
    | inl (g, h) ↦ rw h (ground (arith, g, ne_parts high infinity e))
    | inr (g, h) ↦ ground (arith, ne_parts high infinity e, ne_parts low minus_infinity g)
  ]
]

-- A table, with the levels as the operations read them, on a valuation within the range.
module _ (s : Levels) (default : LevelInfo) (table : IsTable s) (few : s.levelcnt ≤ max_level)
    (maxcddsize : ℕ) (room : 3 ≤ maxcddsize) where
  abbrev pub info_at : ℕ → LevelInfo
  info_at k = get_or s.levelinfo k default

  from_pair :
      (a b : ℕ) (low high : ℤ)
      → b < a
      → a < s.clocknum
      → low <ℤ high
      → high ≤ℤ infinity
      → (minus_infinity <ℤ low) ⊎ (high <ℤ infinity)
      → (d : Dd) × (and_then
            (level_at (get_elem? s.diff2level (cdd_difference a b)))
            (λ k. cdd_interval_from_level maxcddsize k low high)
          ≡ ok d)
        × IsWf info_at 3 d
        × ((v : Valuation) → eval v d ≡ inside low high (v.diffs (level_of_pair s a b)))
  unfolding level_at and_then level_of_pair inside
  from_pair a b low high ba lt ordered top finite =
      let (k, small, level, info) = table.pairs a b ba lt in
      let type : (info_at k).type ≡ type_cdd =
        ap (λ (i : LevelInfo). i.type) (get_or-some s.levelinfo k default _ info) in
      let (d, run, wf, means) =
        interval_meaning info_at maxcddsize k low high room type (omega arith) ordered top finite in
      let same : level_of_pair s a b ≡ k = get_or-some s.diff2level _ 0 k level in
      (d, rw level run, wf, λ v. rw same (means v))

-- In a table that is in order, with at most `max_level` levels and room for three elements,
-- `cdd_interval` returns for two clocks, in either order, a well-formed diagram that holds
-- exactly if the difference of the clocks is from `low` up to below
-- `high`, where -INF is no lower bound. The bounds are from -INF up to INF and in order, `high` is above
-- 1 - INF, and `low` is above it or `high` finite, so that there is something to bound.
pub interval_correct :
    (s : Levels) (default : LevelInfo) (maxcddsize i j : ℕ) (low high : ℤ)
    → IsTable s
    → s.levelcnt ≤ max_level
    → 3 ≤ maxcddsize
    → i < s.clocknum
    → j < s.clocknum
    → i ≢ j
    → minus_infinity ≤ℤ low
    → low <ℤ high
    → high ≤ℤ infinity
    → negsuc 0x7FFFFFFC <ℤ high
    → (negsuc 0x7FFFFFFC <ℤ low) ⊎ (high <ℤ infinity)
    → (d : Dd) × (cdd_interval maxcddsize s i j low high ≡ ok d)
      × IsWf (λ k. get_or s.levelinfo k default) 3 d
      × ((v : Valuation) → eval v d ≡ inside low high (difference_of s v i j))
unfolding cdd_interval difference_of
interval_correct s default m i j low high table few room li lj ne bottom ordered top far finite =
    elim (Bool-cases (ltb j i)) [
      | inl e ↦
          let (d, run, wf, means) =
            from_pair s default table few m room i j low high (ground arith) li ordered top
              (ground arith) in
          (d, rw e run, wf, λ v. rw e (means v))
      | inr e ↦
          let (ordered', top', finite') = flip-ordered low high bottom ordered top far finite in
          let (d, run, wf, means) =
            from_pair s default table few m room j i (bnd_u2l high) (bnd_l2u low)
              (ground (arith, ne)) lj ordered' top' finite' in
          (
            d,
            rw e run,
            wf,
            λ v. rw e (means v ∙ flip-inside low high _ (v.above _) (v.in_range _) bottom top),
          )
    ]
