-- ===== src/Mark/Reach.antt =====
-- The inner nodes of a diagram.
use ucdd.Base.{◌≤◌, ◌≡◌, refl, arith, ◌⊎◌, inl, inr, Bool, true, false, ◌||◌, subst, ap}
use ucdd.Dd.{
  Dd, Node, Elems, ptr, terminal, xterm, bdd_node, cdd_node, nil, elem, same, same_node, node_of,
}
use ucdd.Dd.Equality.{same→eq, same_self}
use ucdd.Dd.WellFormed.{height, height_node, height_elems}

unfoldable mutual
  -- The node, which is no terminal, is in the diagram.
  pub reaches : Node → Dd → Bool
  reaches m (ptr b n) = reaches_node m n

  pub reaches_node : Node → Node → Bool
  reaches_node m terminal = false
  reaches_node m (xterm id) = false
  reaches_node m (bdd_node k low high) =
      same_node m (bdd_node k low high) || (reaches m low || reaches m high)
  reaches_node m (cdd_node k es) = same_node m (cdd_node k es) || reaches_elems m es

  pub reaches_elems : Node → Elems → Bool
  reaches_elems m nil = false
  reaches_elems m (elem c b es) = reaches m c || reaches_elems m es

pub same_node→eq : (m n : Node) → same_node m n ≡ true → m ≡ n
unfolding same
same_node→eq m n h = ap node_of (same→eq (ptr false m) (ptr false n) h)

pub same_node_self : (n : Node) → same_node n n ≡ true
unfolding same
same_node_self n = same_self (ptr false n)

pub or_cases : (a b : Bool) → (a || b) ≡ true → (a ≡ true) ⊎ (b ≡ true)
or_cases true b h = inl refl
or_cases false b h = inr h

module _ (n : Node) where
  mutual
    unfolding reaches height

    pub below_dd : (d : Dd) → reaches n d ≡ true → height_node n ≤ height d
    below_dd (ptr b m) h = below_node m h

    below_node : (m : Node) → reaches_node n m ≡ true → height_node n ≤ height_node m
    below_node terminal h = absurd (ground arith)
    below_node (xterm id) h = absurd (ground arith)
    below_node (bdd_node k low high) h = elim (or_cases _ _ h) [
      | inl e ↦ rw (same_node→eq n (bdd_node k low high) e) (omega arith)
      | inr e ↦ elim (or_cases _ _ e) [
        | inl l ↦ let le = below_dd low l in omega (arith, le)
        | inr r ↦ let le = below_dd high r in omega (arith, le)
      ]
    ]
    below_node (cdd_node k es) h = elim (or_cases _ _ h) [
      | inl e ↦ rw (same_node→eq n (cdd_node k es) e) (omega arith)
      | inr e ↦ let le = below_elems es e in omega (arith, le)
    ]

    pub below_elems : (es : Elems) → reaches_elems n es ≡ true → height_node n ≤ height_elems es
    below_elems nil h = absurd (ground arith)
    below_elems (elem c b es) h = elim (or_cases _ _ h) [
      | inl l ↦ let le = below_dd c l in omega (arith, le)
      | inr r ↦ let le = below_elems es r in omega (arith, le)
    ]

-- A node in a node of the diagram is in the diagram.
module _ (m n : Node) (inner : reaches_node m n ≡ true) where
  mutual
    unfolding reaches

    pub trans_dd : (d : Dd) → reaches n d ≡ true → reaches m d ≡ true
    trans_dd (ptr b k) h = trans_node k h

    trans_node : (k : Node) → reaches_node n k ≡ true → reaches_node m k ≡ true
    trans_node terminal h = absurd (ground arith)
    trans_node (xterm id) h = absurd (ground arith)
    trans_node (bdd_node k low high) h = elim (or_cases _ _ h) [
      | inl e ↦ subst (λ x. reaches_node m x ≡ true) (same_node→eq n (bdd_node k low high) e) inner
      | inr e ↦ elim (or_cases _ _ e) [
        | inl l ↦ let r = trans_dd low l in ground (arith, r)
        | inr l ↦ let r = trans_dd high l in ground (arith, r)
      ]
    ]
    trans_node (cdd_node k es) h = elim (or_cases _ _ h) [
      | inl e ↦ subst (λ x. reaches_node m x ≡ true) (same_node→eq n (cdd_node k es) e) inner
      | inr e ↦ let r = trans_elems es e in ground (arith, r)
    ]

    pub trans_elems : (es : Elems) → reaches_elems n es ≡ true → reaches_elems m es ≡ true
    trans_elems nil h = absurd (ground arith)
    trans_elems (elem c b es) h = elim (or_cases _ _ h) [
      | inl l ↦ let r = trans_dd c l in ground (arith, r)
      | inr l ↦ let r = trans_elems es l in ground (arith, r)
    ]
