-- ===== src/Levels/Upper.antt =====
-- What `cdd_upper` builds, whichever of the two clocks is the larger.
use ucdd.Base.{
  ℕ, ◌<◌, ◌≤◌, ◌≡◌, ◌≢◌, refl, arith, inl, inr, true, ap, get_or, ℤ, ltb_ℤ, ltb, ◌<ℤ◌, ◌≤ℤ◌, neg_ℤ,
  neg_ℤ_parts, xor, Bool-cases, ◌==ℤ◌, ==ℤ_iff,
}
use ucdd.Bounds.{infinity, minus_infinity, bnd_u2l}
use ucdd.Dd.{Dd, ptr, cdd_node, elem, nil, max_level, cdd_neg, cddtrue, cddfalse}
use ucdd.Dd.Meaning.{Valuation, eval, eval-neg}
use ucdd.Dd.WellFormed.{IsWf, IsWf-neg_cond}
use ucdd.Machine.{LevelInfo, type_cdd, ok}
use ucdd.Nodes.{cdd_upper_from_level, map_ok}
use ucdd.Levels.{Levels, cdd_upper, level_at, and_then}
use ucdd.Levels.Table.{IsTable}
use ucdd.Levels.Interval.{get_or-some, level_of_pair, difference_of, u2l_cases, ne_parts}

upper_meaning :
    (info : ℕ → LevelInfo) (maxcddsize level : ℕ) (b : ℤ)
    → 2 ≤ maxcddsize
    → (info level).type ≡ type_cdd
    → level < max_level
    → b ≤ℤ infinity
    → (d : Dd) × (cdd_upper_from_level maxcddsize level b ≡ ok d)
      × IsWf info 2 d
      × ((v : Valuation) → minus_infinity <ℤ v.diffs level → eval v d ≡ ltb_ℤ (v.diffs level) b)
unfolding cdd_upper_from_level eval IsWf
upper_meaning info m level b room t small top = elim (Bool-cases (b ==ℤ infinity)) [
  | inl e ↦ (
    cddtrue,
    rw e refl,
    tt,
    λ v range. ground (arith, v.in_range level, (==ℤ_iff b infinity).0 e),
  )
  | inr e ↦ elim (Bool-cases (b ==ℤ minus_infinity)) [
    | inl f ↦ (
      cddfalse,
      rw (e, f) refl,
      tt,
      λ v range. ground (arith, range, (==ℤ_iff b minus_infinity).0 f),
    )
    | inr f ↦ (
      ptr true (cdd_node level (elem cddfalse b (elem cddtrue infinity nil))),
      rw (e, f) (ground arith),
      (t, small, omega arith, (ground arith, refl), (tt, (tt, tt))),
      λ v range. ground (arith, v.in_range level),
    )
  ]
]

flip_upper :
    (b q : ℤ)
    → minus_infinity <ℤ b
    → b ≤ℤ infinity
    → minus_infinity <ℤ q
    → q <ℤ infinity
    → xor true (ltb_ℤ q (bnd_u2l b)) ≡ ltb_ℤ (neg_ℤ q) b
flip_upper b q low top lo hi = elim (u2l_cases b) [
  | inl (e, f) ↦ rw (f, e) (ground (arith, neg_ℤ_parts q))
  | inr (e, f) ↦ ground (arith, neg_ℤ_parts q, ne_parts b infinity e)
]

flip-le : (b : ℤ) → minus_infinity <ℤ b → b ≤ℤ infinity → bnd_u2l b ≤ℤ infinity
flip-le b low top = elim (u2l_cases b) [
  | inl (e, f) ↦ rw f (ground arith)
  | inr (e, f) ↦ omega arith
]

-- In a table that is in order, with at most `max_level` levels and room for two elements,
-- `cdd_upper` returns for two clocks, in either order, a well-formed diagram that holds
-- exactly if the difference of the clocks is below the bound, which is
-- above -INF and at most INF.
pub upper_correct :
    (s : Levels) (default : LevelInfo) (maxcddsize i j : ℕ) (b : ℤ)
    → IsTable s
    → s.levelcnt ≤ max_level
    → 2 ≤ maxcddsize
    → i < s.clocknum
    → j < s.clocknum
    → i ≢ j
    → minus_infinity <ℤ b
    → b ≤ℤ infinity
    → (d : Dd) × (cdd_upper maxcddsize s i j b ≡ ok d)
      × IsWf (λ k. get_or s.levelinfo k default) 2 d
      × ((v : Valuation) → eval v d ≡ ltb_ℤ (difference_of s v i j) b)
unfolding cdd_upper difference_of level_at and_then map_ok level_of_pair
upper_correct s default m i j b table few room li lj ne low top = elim (Bool-cases (ltb j i)) [
  | inl e ↦
      let (k, small, level, info) = table.pairs i j (ground arith) li in
      let (d, run, wf, means) =
        upper_meaning (λ k. get_or s.levelinfo k default) m k b room
          (ap (λ (i : LevelInfo). i.type) (get_or-some s.levelinfo k default _ info)) (omega arith)
          top in
      let same = get_or-some s.diff2level _ 0 k level in
      (d, rw (e, level) run, wf, λ v. rw (e, same) (means v (v.above k)))
  | inr e ↦
      let (k, small, level, info) = table.pairs j i (ground (arith, ne)) lj in
      let (d, run, wf, means) =
        upper_meaning (λ k. get_or s.levelinfo k default) m k (bnd_u2l b) room
          (ap (λ (i : LevelInfo). i.type) (get_or-some s.levelinfo k default _ info)) (omega arith)
          (flip-le b low top) in
      let same = get_or-some s.diff2level _ 0 k level in
      (
        cdd_neg d,
        rw (e, level, run) refl,
        IsWf-neg_cond _ 2 d true wf,
        λ v.
            rw (e, same, eval-neg v d, means v (v.above k))
              (flip_upper b _ low top (v.above k) (v.in_range k)),
      )
]
