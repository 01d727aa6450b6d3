-- ===== src/Contains.antt =====
-- `cdd_contains` of src/cddop.c. A DBM is a square matrix of raw bounds in row order;
-- `dbm_constrainN` belongs to the DBM library and is a parameter: whether the constrained DBM is not
-- empty, and the DBM. The copy that the code constrains does not show, and neither does the
-- assertion that the DBM is valid (`dbm_isValid`), which a build with NDEBUG leaves out: any matrix is
-- taken.
pub mod Sound
use ucdd.Base.{ℕ, Bool, true, false, not, ◌||◌, leb, if◌then◌else◌, xor, List, [], ◌∷◌, ℤ, ◌==ℤ◌}
use ucdd.Bounds.{infinity, minus_infinity, bnd_l2u}
use ucdd.Dd.{
  Dd, Node, Elems, ptr, terminal, xterm, bdd_node, cdd_node, nil, elem, cdd_neg_cond, cdd_eval_true,
}
use ucdd.Machine.{Run, ok, fault, bad_read, LevelInfo, LevelType, type_cdd, type_bdd}
use ucdd.BellmanFord.{Constraint}

abbrev pub and_test : {A : Type 0} → Run A → (A → Run Bool) → Run Bool
and_test r f = elim r [ ok a ↦ f a | fault e ↦ fault e ]

-- The test for a child that is not true; the rest of the loop comes last.
abbrev pub contains_child : (List ℤ → Run Bool) → Dd → Bool × List ℤ → Run Bool → Run Bool
contains_child rec child constrained rest =
    if cdd_eval_true child
    then rest
    else if constrained.0
    then and_test (rec constrained.1) (λ yes. if yes then rest else ok false)
    else rest

-- The two cases of the `switch`. The children of a BDD node are taken without the negation of the
-- pointer, and both are searched.
unfoldable pub contains_bdd : LevelType → Run Bool → Run Bool → Run Bool
contains_bdd type_bdd low high = and_test low λ l. and_test high λ h. ok (l || h)
contains_bdd type_cdd low high = fault bad_read

unfoldable pub contains_cdd : LevelType → Bool → Run Bool → Run Bool
contains_cdd type_cdd outside children = if outside then ok false else children
contains_cdd type_bdd outside children = fault bad_read

module _ (constrain_n : List ℤ → ℕ → List Constraint → Bool × List ℤ) (info : ℕ → LevelInfo)
    (dim : ℕ) where
  unfoldable pub cdd_constrain2 : List ℤ → ℕ → ℕ → ℤ → ℤ → Bool × List ℤ
  cdd_constrain2 dbm i j lower upper =
      constrain_n dbm dim (
        record { i = j; j = i; value = bnd_l2u lower }
        ∷ record { i = i; j = j; value = upper }
        ∷ [])

  unfoldable mutual
    unfolding cdd_constrain2 cdd_eval_true contains_bdd contains_cdd

    -- For the pointer, negated or not.
    pub cdd_contains_rec : Bool → Dd → List ℤ → Run Bool
    cdd_contains_rec neg (ptr m n) dbm = contains_node (xor m neg) n dbm

    pub contains_node : Bool → Node → List ℤ → Run Bool
    contains_node m terminal dbm = ok m
    contains_node m (xterm id) dbm = ok (not m)
    contains_node m (bdd_node k low high) dbm =
        contains_bdd (info k).type (cdd_contains_rec false low dbm)
          (cdd_contains_rec false high dbm)
    contains_node m (cdd_node k es) dbm =
        contains_cdd (info k).type (leb dim (info k).clock1 || leb dim (info k).clock2)
          (contains_elems m k minus_infinity es dbm)

    -- The loop over the children.
    pub contains_elems : Bool → ℕ → ℤ → Elems → List ℤ → Run Bool
    contains_elems m k low nil dbm = if low ==ℤ infinity then ok true else fault bad_read
    contains_elems m k low (elem c b es) dbm =
        if low ==ℤ infinity
        then ok true
        else contains_child (cdd_contains_rec m c) (cdd_neg_cond c m)
            (cdd_constrain2 dbm (info k).clock1 (info k).clock2 low b) (contains_elems m k b es dbm)

  unfoldable pub cdd_contains : Dd → List ℤ → Run Bool
  unfolding cdd_contains_rec
  cdd_contains node dbm = cdd_contains_rec false node dbm
