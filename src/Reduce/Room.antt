-- ===== src/Reduce/Room.antt =====
-- Which diagrams `cdd_bf_reduce` can be applied to, and how many edges it pushes.
use ucdd.Base.{arith, ℕ, suc, ◌*◌, ◌<◌, ◌≤◌, ◌≡◌, refl, Bool}
use Prim.Native.Nat.{max}
use ucdd.Dd.{
  Dd, Node, Elems, ptr, terminal, xterm, bdd_node, cdd_node, nil, elem, max_level, size,
  cdd_neg_cond,
}
use ucdd.Dd.WellFormed.{Bounded, height, height_elems, height-neg_cond}
use ucdd.Machine.{LevelInfo, type_cdd, type_bdd}

-- The most CDD nodes on a path; each pushes at most two edges.
unfoldable mutual
  pub depth : Dd → ℕ
  depth (ptr m n) = depth_node n

  pub depth_node : Node → ℕ
  depth_node terminal = 0
  depth_node (xterm id) = 0
  depth_node (bdd_node k low high) = max (depth low) (depth high)
  depth_node (cdd_node k es) = suc (depth_elems es)

  pub depth_elems : Elems → ℕ
  depth_elems nil = 0
  depth_elems (elem c b es) = max (depth c) (depth_elems es)

pub depth-neg_cond : (d : Dd) (m : Bool) → depth (cdd_neg_cond d m) ≡ depth d
unfolding depth
depth-neg_cond (ptr b n) m = refl

abbrev pub Every : (Dd → Type 0) → Elems → Type 0
Every P nil = Unit
Every P (elem c b es) = P c × Every P es

module _ (info : ℕ → LevelInfo) (width dim : ℕ) where
  unfoldable mutual
    -- A well-formed diagram each of whose CDD nodes has at least two children, on clocks of the graph.
    pub IsReducible : Dd → Type 0
    IsReducible (ptr m n) = IsReducibleNode n

    pub IsReducibleNode : Node → Type 0
    IsReducibleNode terminal = Unit
    IsReducibleNode (xterm id) = ⊥
    IsReducibleNode (bdd_node k low high) =
        ((info k).type ≡ type_bdd) × (k < max_level) × IsReducible low × IsReducible high
    IsReducibleNode (cdd_node k es) =
        ((info k).type ≡ type_cdd)
        × (k < max_level)
        × ((info k).clock1 < dim)
        × ((info k).clock2 < dim)
        × (size es ≤ width)
        × (1 < size es)
        × Bounded es
        × IsReducibleElems es

    pub IsReducibleElems : Elems → Type 0
    IsReducibleElems nil = Unit
    IsReducibleElems (elem c b es) = IsReducible c × IsReducibleElems es

  pub IsReducible-neg_cond : (d : Dd) (m : Bool) → IsReducible d → IsReducible (cdd_neg_cond d m)
  unfolding IsReducible
  IsReducible-neg_cond (ptr b n) m h = h

  -- A child of a node of at most this height, for which there is room in the graph.
  abbrev pub Fits : ℕ → ℕ → Dd → Type 0
  Fits fuel n d = IsReducible d × (height d < fuel) × (2 * depth d ≤ n)

  pub elems-Fits :
      (fuel n : ℕ) (es : Elems)
      → IsReducibleElems es
      → height_elems es < fuel
      → 2 * depth_elems es ≤ n
      → Every (Fits fuel n) es
  unfolding IsReducible height depth
  elems-Fits fuel n nil h small room = tt
  elems-Fits fuel n (elem c b es) h small room =
      ((h.0, omega arith, omega arith), elems-Fits fuel n es h.1 (omega arith) (omega arith))

  pub Fits-neg_cond :
      (fuel n : ℕ) (d : Dd) (m : Bool) → Fits fuel n d → Fits fuel n (cdd_neg_cond d m)
  Fits-neg_cond fuel n d m (good, small, room) = (
    IsReducible-neg_cond d m good,
    omega (arith, height-neg_cond d m, small),
    omega (arith, depth-neg_cond d m, room),
  )
