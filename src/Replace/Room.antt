-- ===== src/Replace/Room.antt =====
-- Which diagrams `cdd_replace` can be applied to.
use ucdd.Base.{ℕ, ◌<◌, ◌≡◌, ◌≢◌, Bool, List, some, get_elem?}
use ucdd.Dd.{
  Dd, Node, Elems, ptr, terminal, xterm, bdd_node, cdd_node, nil, elem, max_level, cdd_neg_cond,
}
use ucdd.Dd.WellFormed.{Bounded}
use ucdd.Machine.{Config, type_cdd, type_bdd}
use ucdd.Levels.{Levels}
use ucdd.Walk.Room.{HasRange, Children}

module _ (cfg : Config) (table : Levels) (levels clocks : List ℕ) where
  -- The variable has a new level, which is one of a variable.
  abbrev pub HasVariable : ℕ → Type 0
  HasVariable k =
      (l : ℕ) × (get_elem? levels k ≡ some l) × ((cfg.info l).type ≡ type_bdd) × (l < max_level)

  -- The two clocks of the level have new clocks, which are two clocks of the table.
  abbrev pub HasClocks : ℕ → Type 0
  HasClocks k =
      (i : ℕ) × (j : ℕ) × (get_elem? clocks (cfg.info k).clock1 ≡ some i)
      × (get_elem? clocks (cfg.info k).clock2 ≡ some j)
      × (i < table.clocknum)
      × (j < table.clocknum)
      × (i ≢ j)

  unfoldable mutual
    -- A diagram of the right types with bounds within the range, all of whose variables and clocks
    -- have new ones.
    pub IsReplaceable : Dd → Type 0
    IsReplaceable (ptr m n) = IsReplaceableNode n

    pub IsReplaceableNode : Node → Type 0
    IsReplaceableNode terminal = Unit
    IsReplaceableNode (xterm id) = ⊥
    IsReplaceableNode (bdd_node k low high) =
        ((cfg.info k).type ≡ type_bdd)
        × (k < max_level)
        × HasVariable k
        × IsReplaceable low
        × IsReplaceable high
    IsReplaceableNode (cdd_node k es) =
        ((cfg.info k).type ≡ type_cdd)
        × (k < max_level)
        × HasClocks k
        × Bounded es
        × HasRange es
        × IsReplaceableElems es

    pub IsReplaceableElems : Elems → Type 0
    IsReplaceableElems nil = Unit
    IsReplaceableElems (elem c b es) = IsReplaceable c × IsReplaceableElems es

  pub IsReplaceable-neg_cond :
      (d : Dd) (m : Bool) → IsReplaceable d → IsReplaceable (cdd_neg_cond d m)
  unfolding IsReplaceable
  IsReplaceable-neg_cond (ptr b n) m h = h

  pub IsReplaceable-Children : (es : Elems) → IsReplaceableElems es → Children IsReplaceable es
  unfolding IsReplaceable
  IsReplaceable-Children nil h = tt
  IsReplaceable-Children (elem c b es) h = (h.0, IsReplaceable-Children es h.1)
