-- ===== src/FromDbm/Meaning.antt =====
-- The diagram of a DBM is the conjunction of the bounds that were kept.
use ucdd.Base.{
  ℕ, zero, suc, ◌+◌, ◌*◌, ◌≤◌, ◌<◌, ◌≡◌, refl, ◌∙◌, arith, inl, inr, Bool, true, false, not, xor,
  ◌&&◌, ◌||◌, ◌==◌, ltb, ltb_ℤ, if◌then◌else◌, Bool-cases, List, [], ◌∷◌, ℤ, length, get_or,
}
use native.Mathlib.Nat.{mul-le-mul_right, suc-mul}
use ucdd.Bounds.{infinity, bnd_u2l}
use ucdd.Dd.{Dd, Elems, ptr, cdd_node, nil, elem, cddtrue, cddfalse, cdd_neg_cond, size}
use ucdd.Dd.Meaning.{Valuation, eval, eval_node, eval-true}
use ucdd.Machine.{Run, ok, LevelInfo, LevelType, type_cdd, type_bdd}
use ucdd.Nodes.{cdd_make_cdd_node, map_ok}
use ucdd.Levels.{Levels, and_then}
use ucdd.Relax.{read}
use ucdd.FromDbm.{push_lower, push_upper, push_bounds, push_level, push_levels, cdd_from_dbm}

pub read-get_or :
    {A : Type 0} (xs : List A) (i : ℕ) (d : A) → i < length xs → read xs i ≡ ok (get_or xs i d)
unfolding read
read-get_or [] i d lt = absurd (omega arith)
read-get_or (x ∷ xs) zero d lt = refl
read-get_or (x ∷ xs) (suc i) d lt = read-get_or xs i d (omega arith)

-- The bounds on a difference that has the position `q`: from the lower bound `l` on, if there is one,
-- and below the upper bound `u`, if there is one.
abbrev pub is_kept : Bool → Bool → ℤ → ℤ → ℤ → Bool
is_kept lo hi l u q = (not lo || not (ltb_ℤ q l)) && (not hi || ltb_ℤ q u)

below : (v : Valuation) (k : ℕ) → ltb_ℤ (v.diffs k) infinity ≡ true
below v k = ground (arith, v.in_range k)

-- What the three arrays of elements stand for.
both_value :
    (q l u : ℤ) (x : Bool)
    → (if ltb_ℤ q l
        then false
        else if ltb_ℤ q u
        then x
        else if ltb_ℤ q infinity
        then false
        else false)
      ≡ (is_kept true true l u q && x)
both_value q l u x = elim (Bool-cases (ltb_ℤ q l)) [
  | inl e ↦ rw e refl
  | inr e ↦ elim (Bool-cases (ltb_ℤ q u)) [
    | inl f ↦ rw (e, f) refl
    | inr f ↦ elim (Bool-cases (ltb_ℤ q infinity)) [
      | inl g ↦ rw (e, f, g) refl
      | inr g ↦ rw (e, f, g) refl
    ]
  ]
]

lower_value :
    (q l u : ℤ) (x : Bool)
    → ltb_ℤ q infinity ≡ true
    → (if ltb_ℤ q l then false else if ltb_ℤ q infinity then x else false)
      ≡ (is_kept true false l u q && x)
lower_value q l u x below = elim (Bool-cases (ltb_ℤ q l)) [
  | inl e ↦ rw e refl
  | inr e ↦ rw (e, below) refl
]

upper_value :
    (q l u : ℤ) (m x : Bool)
    → ltb_ℤ q infinity ≡ true
    → xor m (if ltb_ℤ q u then x else if ltb_ℤ q infinity then xor m false else false)
      ≡ (is_kept false true l u q && xor m x)
upper_value q l u m x below = elim (Bool-cases (ltb_ℤ q u)) [
  | inl e ↦ rw e refl
  | inr e ↦ rw (e, below) (twice m)
]
  where
    twice : (m : Bool) → xor m (xor m false) ≡ false
    twice true = refl
    twice false = refl

module _ (table : Levels) (bits : ℕ → Bool) (dbm : List ℤ) (dim : ℕ) (default : LevelInfo) where
  -- The entry of the matrix.
  abbrev pub bound : ℕ → ℕ → ℤ
  bound i j = get_or dbm (i * dim + j) infinity

  -- What the DBM says of a level.
  unfoldable pub meets_info : Valuation → ℕ → LevelInfo → LevelType → Bool
  meets_info v k info type_bdd = true
  meets_info v k info type_cdd =
      let i = info.clock1 in
      let j = info.clock2 in
      not (ltb i dim)
      || not (ltb j dim)
      || is_kept (bits (j * dim + i)) (bits (i * dim + j)) (bnd_u2l (bound j i)) (bound i j)
          (v.diffs k)

  -- All levels below `n` are met.
  unfoldable pub meets : ℕ → Valuation → Bool
  meets zero v = true
  meets (suc k) v =
      let info = get_or table.levelinfo k default in meets_info v k info info.type && meets k v

  module _ (maxcddsize : ℕ) (space : 3 ≤ maxcddsize) (square : length dbm ≡ dim * dim) where
    entry : (i j : ℕ) → i < dim → j < dim → read dbm (i * dim + j) ≡ ok (bound i j)
    entry i j li lj =
        read-get_or dbm (i * dim + j) infinity
          (omega (arith, square, mul-le-mul_right dim li, suc-mul i dim))

    -- The diagram that a step returns stands for its argument and the bounds.
    abbrev Pushed : Run Dd → Dd → (Valuation → Bool) → Type 0
    Pushed r c f = (d : Dd) × (r ≡ ok d) × ((v : Valuation) → eval v d ≡ (f v && eval v c))

    made :
        (k : ℕ) (es : Elems)
        → size es ≤ 3
        → 1 < size es
        → cdd_make_cdd_node maxcddsize k es ≡ ok (ptr false (cdd_node k es))
    unfolding cdd_make_cdd_node
    made k es few some_two =
        let wide : ltb maxcddsize (size es) ≡ false = ground arith in
        let many : (size es == 1) ≡ false = ground arith in rw (wide, many) refl

    bounds-Pushed :
        (k i j : ℕ) (lo hi : Bool) (c : Dd)
        → i < dim
        → j < dim
        → Pushed
            (push_bounds maxcddsize table bits dbm dim k i j lo hi c)
            c
            (λ v. is_kept lo hi (bnd_u2l (bound j i)) (bound i j) (v.diffs k))
    unfolding push_bounds push_lower push_upper and_then eval map_ok
    bounds-Pushed k i j true true c li lj =
        let es =
          elem cddfalse (bnd_u2l (bound j i)) (elem c (bound i j) (elem cddfalse infinity nil)) in
        (
          ptr false (cdd_node k es),
          rw (entry j i lj li, entry i j li lj) (made k es (omega arith) (omega arith)),
          λ v. both_value (v.diffs k) (bnd_u2l (bound j i)) (bound i j) (eval v c),
        )
    bounds-Pushed k i j true false c li lj =
        let es = elem cddfalse (bnd_u2l (bound j i)) (elem c infinity nil) in
        (
          ptr false (cdd_node k es),
          rw (entry j i lj li) (made k es (omega arith) (omega arith)),
          λ v. lower_value (v.diffs k) (bnd_u2l (bound j i)) (bound i j) (eval v c) (below v k),
        )
    bounds-Pushed k i j false true (ptr m n) li lj =
        let es = elem (ptr false n) (bound i j) (elem (cdd_neg_cond cddfalse m) infinity nil) in
        (
          ptr m (cdd_node k es),
          rw (entry i j li lj, made k es (omega arith) (omega arith)) refl,
          λ v.
              upper_value (v.diffs k) (bnd_u2l (bound j i)) (bound i j) m (eval_node v n)
                (below v k),
        )
    bounds-Pushed k i j false false c li lj = (c, refl, λ v. refl)

    level-Pushed :
        (k : ℕ) (info : LevelInfo) (t : LevelType) (c : Dd)
        → Pushed
            (push_level maxcddsize table bits dbm dim k info t c)
            c
            (λ v. meets_info v k info t)
    unfolding push_level meets_info
    level-Pushed k info type_bdd c = (c, refl, λ v. refl)
    level-Pushed k info type_cdd c =
        elim (Bool-cases (not (ltb info.clock1 dim) || not (ltb info.clock2 dim))) [
          | inl e ↦ rw e (c, refl, λ v. ground (arith, e))
          | inr e ↦
              let (d, run, means) =
                bounds-Pushed k info.clock1 info.clock2 (bits (info.clock2 * dim + info.clock1))
                  (bits (info.clock1 * dim + info.clock2)) c (ground (arith, e))
                  (ground (arith, e)) in
              (d, rw e run, λ v. rw (means v) (ground (arith, e)))
        ]

    levels-Pushed :
        (n : ℕ) (c : Dd)
        → n ≤ length table.levelinfo
        → Pushed (push_levels maxcddsize table bits dbm dim n c) c (meets n)
    unfolding push_levels meets and_then
    levels-Pushed zero c le = (c, refl, λ v. refl)
    levels-Pushed (suc k) c le =
        let info = get_or table.levelinfo k default in
        let (d, run, means) = level-Pushed k info info.type c in
        let (d', run', means') = levels-Pushed k d (omega arith) in
        (
          d',
          rw (read-get_or table.levelinfo k default (omega arith), run) run',
          λ v. means' v ∙ rw (means v) (ground arith),
        )

    -- On a table with an entry for each level and a square matrix of the dimension, with room for
    -- three elements: `cdd_from_dbm` returns a diagram that holds at a valuation exactly if on each
    -- level of a difference of two clocks of the matrix, the bounds of the matrix hold that
    -- were kept.
    pub from_dbm_correct :
        table.levelcnt ≤ length table.levelinfo
        → (d : Dd) × (cdd_from_dbm maxcddsize table bits dbm dim ≡ ok d)
          × ((v : Valuation) → eval v d ≡ meets table.levelcnt v)
    unfolding cdd_from_dbm
    from_dbm_correct filled =
        let (d, run, means) = levels-Pushed table.levelcnt cddtrue filled in
        (d, run, λ v. means v ∙ rw (eval-true v) (ground arith))
