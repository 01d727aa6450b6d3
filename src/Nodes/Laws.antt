-- ===== src/Nodes/Laws.antt =====
-- What the node constructors build.
use ucdd.Base.{
  ℕ, ◌<◌, ◌≤◌, true, false, not, if◌then◌else◌, ◌&&◌, ◌≡◌, refl, arith, Bool-cases, inl, inr, ap, ℤ,
  ltb_ℤ, ◌<ℤ◌, ◌≤ℤ◌, ltb_ℤ→lt, ltb_ℤ→ge, eq_of_parts, ◌⊎◌,
}
use ucdd.Bounds.{infinity, minus_infinity}
use ucdd.Dd.{Dd, Elems, ptr, cdd_node, nil, elem, size, same, cddtrue, cddfalse, max_level}
use ucdd.Dd.Meaning.{Valuation, eval, eval_elems, eval-true, eval-false}
use ucdd.Dd.Equality.{same→eq}
use ucdd.Dd.WellFormed.{IsWf, IsWfElems, Bounded}
use ucdd.Machine.{ok, fault, too_wide, LevelInfo, type_cdd, type_bdd}
use ucdd.Nodes.{cdd_make_bdd_node, cdd_make_cdd_node, cdd_bddvar, cdd_interval_from_level}

-- `cdd_make_bdd_node` builds the choice between its children, whether it eliminates the node,
-- pulls the negation bit of the low child out, or does neither.
pub eval-make_bdd :
    (v : Valuation) (level : ℕ) (low high : Dd)
    → eval v (cdd_make_bdd_node level low high)
      ≡ (if v.bools level then eval v high else eval v low)
unfolding cdd_make_bdd_node eval
eval-make_bdd v level (ptr m n) (ptr m' n') = elim (Bool-cases (same (ptr m n) (ptr m' n'))) [
  | inl e ↦ rw e (ground (arith, ap (eval v) (same→eq _ _ e)))
  | inr e ↦ rw e (ground arith)
]

-- `cdd_bddvar` is the variable of its level.
pub eval-bddvar : (v : Valuation) (level : ℕ) → eval v (cdd_bddvar level) ≡ v.bools level
unfolding cdd_bddvar
eval-bddvar v level =
    rw (eval-make_bdd v level cddfalse cddtrue, eval-false, eval-true) (ground arith)

-- On a CDD level and with room for its three elements, an interval holds exactly of the differences
-- from `low` up to below `high`, where the lower bound -INF is no bound, and is a well-formed
-- diagram. One of the two bounds must be finite, `low` below `high` and `high` at most INF.
pub interval_meaning :
    (info : ℕ → LevelInfo) (maxcddsize level : ℕ) (low high : ℤ)
    → 3 ≤ maxcddsize
    → (info level).type ≡ type_cdd
    → level < max_level
    → low <ℤ high
    → high ≤ℤ infinity
    → (minus_infinity <ℤ low) ⊎ (high <ℤ infinity)
    → (d : Dd) × (cdd_interval_from_level maxcddsize level low high ≡ ok d)
      × IsWf info 3 d
      × ((v : Valuation)
          → eval v d ≡ (
              not (ltb_ℤ minus_infinity low && ltb_ℤ (v.diffs level) low)
              && ltb_ℤ (v.diffs level) high))
unfolding cdd_interval_from_level eval IsWf
interval_meaning info m level low high room t small l h bounded =
    elim (Bool-cases (ltb_ℤ minus_infinity low)) [
      | inl e ↦ elim (Bool-cases (ltb_ℤ high infinity)) [
        | inl f ↦ (
          ptr false
              (cdd_node level (elem cddfalse low (elem cddtrue high (elem cddfalse infinity nil)))),
          rw (e, f) (ground arith),
          (t, small, omega arith, (l, (ltb_ℤ→lt high infinity f, refl)), (tt, (tt, (tt, tt)))),
          λ v. ground (arith, v.in_range level),
        )
        | inr f ↦ (
          ptr false (cdd_node level (elem cddfalse low (elem cddtrue high nil))),
          rw (e, f) (ground arith),
          (
            t,
            small,
            omega arith,
            (l, eq_of_parts high infinity (omega (arith, ltb_ℤ→ge high infinity f))),
            (tt, (tt, tt)),
          ),
          λ v. ground (arith, v.in_range level),
        )
      ]
      | inr e ↦ (
        ptr true (cdd_node level (elem cddfalse high (elem cddtrue infinity nil))),
        rw e (ground arith),
        (
          t,
          small,
          omega arith,
          (omega (arith, ltb_ℤ→ge minus_infinity low e), refl),
          (tt, (tt, tt)),
        ),
        λ v. ground (arith, v.in_range level),
      )
    ]

-- `cdd_make_cdd_node` builds the diagram that its elements stand for, be it the new node or, of a
-- single element, the child. Its elements are bounded and not more than the largest arity.
pub make_cdd_meaning :
    (info : ℕ → LevelInfo) (maxcddsize width level : ℕ) (es : Elems)
    → (info level).type ≡ type_cdd
    → level < max_level
    → size es ≤ width
    → width ≤ maxcddsize
    → Bounded es
    → IsWfElems info width es
    → (d : Dd) × (cdd_make_cdd_node maxcddsize level es ≡ ok d)
      × IsWf info width d
      × ((v : Valuation) → eval v d ≡ eval_elems v (v.diffs level) es)
unfolding cdd_make_cdd_node eval IsWf
make_cdd_meaning info m w level nil t k fits room b wf = absurd b
make_cdd_meaning info m w level (elem c b nil) t k fits room e wf =
    (c, ground arith, wf.0, λ v. rw e (ground (arith, v.in_range level)))
make_cdd_meaning info m w level (elem c b (elem c' b' es)) t k fits room l wf = (
  ptr false (cdd_node level (elem c b (elem c' b' es))),
  ground arith,
  (t, k, fits, l, wf),
  λ v. refl,
)

-- What `cdd_make_cdd_node` does when a node would be too wide.
pub make_cdd_wide :
    (maxcddsize level : ℕ) (es : Elems)
    → maxcddsize < size es
    → cdd_make_cdd_node maxcddsize level es ≡ fault too_wide
unfolding cdd_make_cdd_node
make_cdd_wide m level es h = ground arith

pub make_bdd-IsWf :
    (info : ℕ → LevelInfo) (w level : ℕ) (low high : Dd)
    → (info level).type ≡ type_bdd
    → level < max_level
    → IsWf info w low
    → IsWf info w high
    → IsWf info w (cdd_make_bdd_node level low high)
unfolding cdd_make_bdd_node IsWf
make_bdd-IsWf info w level (ptr m n) (ptr m' n') t k l h =
    elim (Bool-cases (same (ptr m n) (ptr m' n'))) [ inl e ↦ rw e l | inr e ↦ rw e (t, k, l, h) ]

pub bddvar-IsWf :
    (info : ℕ → LevelInfo) (w level : ℕ)
    → (info level).type ≡ type_bdd
    → level < max_level
    → IsWf info w (cdd_bddvar level)
unfolding cdd_bddvar IsWf
bddvar-IsWf info w level t k = make_bdd-IsWf info w level cddfalse cddtrue t k tt tt
