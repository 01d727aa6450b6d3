-- ===== src/Dd/WellFormed.antt =====
-- Well-formed diagrams over a level table: every node stands on a level of its own type, the bounds
-- of a CDD node increase and end with `INF`, no node has more than `width` children, and the only
-- terminals are true and false.
use ucdd.Base.{ℕ, suc, ◌≤◌, ◌<◌, ◌≡◌, refl, Bool, ◌<ℤ◌, arith}
use Prim.Native.Nat.{max}
use ucdd.Bounds.{infinity}
use ucdd.Dd.{
  Dd, Node, Elems, ptr, terminal, xterm, bdd_node, cdd_node, nil, elem, max_level, size,
  cdd_neg_cond,
}
use ucdd.Machine.{LevelInfo, type_cdd, type_bdd}

-- The bounds of an array of elements increase up to `INF`.
abbrev pub Bounded : Elems → Type 0
Bounded nil = ⊥
Bounded (elem c b nil) = b ≡ infinity
Bounded (elem c b (elem c' b' es)) = (b <ℤ b') × Bounded (elem c' b' es)

module _ (info : ℕ → LevelInfo) (width : ℕ) where
  unfoldable mutual
    pub IsWf : Dd → Type 0
    IsWf (ptr m n) = IsWfNode n

    pub IsWfNode : Node → Type 0
    IsWfNode terminal = Unit
    IsWfNode (xterm id) = ⊥
    IsWfNode (bdd_node k low high) =
        ((info k).type ≡ type_bdd) × (k < max_level) × IsWf low × IsWf high
    IsWfNode (cdd_node k es) =
        ((info k).type ≡ type_cdd) × (k < max_level) × (size es ≤ width) × Bounded es × IsWfElems es

    pub IsWfElems : Elems → Type 0
    IsWfElems nil = Unit
    IsWfElems (elem c b es) = IsWf c × IsWfElems es

  pub IsWf-neg_cond : (d : Dd) (m : Bool) → IsWf d → IsWf (cdd_neg_cond d m)
  unfolding IsWf
  IsWf-neg_cond (ptr b n) m h = h

-- The longest path to a terminal.
unfoldable mutual
  pub height : Dd → ℕ
  height (ptr m n) = height_node n

  pub height_node : Node → ℕ
  height_node terminal = 0
  height_node (xterm id) = 0
  height_node (bdd_node k low high) = suc (max (height low) (height high))
  height_node (cdd_node k es) = suc (height_elems es)

  pub height_elems : Elems → ℕ
  height_elems nil = 0
  height_elems (elem c b es) = max (height c) (height_elems es)

pub height-neg_cond : (d : Dd) (m : Bool) → height (cdd_neg_cond d m) ≡ height d
unfolding height
height-neg_cond (ptr b n) m = refl

module _ (info : ℕ → LevelInfo) (w w' : ℕ) (le : w ≤ w') where
  mutual
    unfolding IsWf

    widen_dd : (d : Dd) → IsWf info w d → IsWf info w' d
    widen_dd (ptr m n) h = widen_node n h

    widen_node : (n : Node) → IsWfNode info w n → IsWfNode info w' n
    widen_node terminal h = h
    widen_node (xterm id) h = h
    widen_node (bdd_node k l u) h = (h.0, h.1, widen_dd l h.2, widen_dd u h.3)
    widen_node (cdd_node k es) h = (h.0, h.1, omega arith, h.3, widen_elems es h.4)

    widen_elems : (es : Elems) → IsWfElems info w es → IsWfElems info w' es
    widen_elems nil h = tt
    widen_elems (elem c b es) h = (widen_dd c h.0, widen_elems es h.1)

  -- A node that has room in `w` has room in a larger `w'`.
  pub IsWf-widen : (d : Dd) → IsWf info w d → IsWf info w' d
  IsWf-widen d h = widen_dd d h

-- The largest number of children of a CDD node.
unfoldable mutual
  pub width : Dd → ℕ
  width (ptr m n) = width_node n

  pub width_node : Node → ℕ
  width_node terminal = 0
  width_node (xterm id) = 0
  width_node (bdd_node k low high) = max (width low) (width high)
  width_node (cdd_node k es) = max (size es) (width_elems es)

  pub width_elems : Elems → ℕ
  width_elems nil = 0
  width_elems (elem c b es) = max (width c) (width_elems es)

module _ (info : ℕ → LevelInfo) (w : ℕ) where
  mutual
    unfolding width IsWf

    width_le : (d : Dd) → IsWf info w d → width d ≤ w
    width_le (ptr m n) h = width_node_le n h

    width_node_le : (n : Node) → IsWfNode info w n → width_node n ≤ w
    width_node_le terminal h = omega arith
    width_node_le (xterm id) h = omega arith
    width_node_le (bdd_node k l u) h = omega (arith, width_le l h.2, width_le u h.3)
    width_node_le (cdd_node k es) h = omega (arith, width_elems_le es h.4)

    width_elems_le : (es : Elems) → IsWfElems info w es → width_elems es ≤ w
    width_elems_le nil h = omega arith
    width_elems_le (elem c b es) h = omega (arith, width_le c h.0, width_elems_le es h.1)

  pub width-le : (d : Dd) → IsWf info w d → width d ≤ w
  width-le d h = width_le d h

  module _ (w' : ℕ) where
    mutual
      unfolding width IsWf

      fit_dd : (d : Dd) → IsWf info w d → width d ≤ w' → IsWf info w' d
      fit_dd (ptr m n) h le = fit_node n h le

      fit_node : (n : Node) → IsWfNode info w n → width_node n ≤ w' → IsWfNode info w' n
      fit_node terminal h le = h
      fit_node (xterm id) h le = h
      fit_node (bdd_node k l u) h le =
          (h.0, h.1, fit_dd l h.2 (omega arith), fit_dd u h.3 (omega arith))
      fit_node (cdd_node k es) h le = (h.0, h.1, omega arith, h.3, fit_elems es h.4 (omega arith))

      fit_elems : (es : Elems) → IsWfElems info w es → width_elems es ≤ w' → IsWfElems info w' es
      fit_elems nil h le = tt
      fit_elems (elem c b es) h le = (fit_dd c h.0 (omega arith), fit_elems es h.1 (omega arith))

    -- A well-formed diagram fits in every width that its own does not exceed.
    pub IsWf-fit : (d : Dd) → IsWf info w d → width d ≤ w' → IsWf info w' d
    IsWf-fit d h le = fit_dd d h le
