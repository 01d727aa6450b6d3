-- ===== src/Exist/Occurs.antt =====
-- Which diagrams the quantification of Boolean variables in `cdd_exist` can be applied to: on no
-- path does a quantified variable occur twice, as in the ordered diagrams of the library.
use ucdd.Base.{ℕ, ◌<◌, ◌≡◌, ◌≢◌, refl, Bool, true, xor, ap, List, ℤ}
use ucdd.Dd.{
  Dd, Node, Elems, ptr, terminal, xterm, bdd_node, cdd_node, nil, elem, max_level, cdd_neg_cond,
}
use ucdd.Dd.Meaning.{Valuation, eval, eval_node, eval_elems}
use ucdd.Dd.WellFormed.{Bounded}
use ucdd.Machine.{Config, type_cdd, type_bdd}
use ucdd.Walk.Room.{HasRange, Children}
use ucdd.Exist.Quantified.{is_listed, Ignores, Agree}

unfoldable mutual
  -- No node tests the variable of the level.
  pub Avoids : ℕ → Dd → Type 0
  Avoids k (ptr m n) = AvoidsNode k n

  pub AvoidsNode : ℕ → Node → Type 0
  AvoidsNode k terminal = Unit
  AvoidsNode k (xterm id) = Unit
  AvoidsNode k (bdd_node j low high) = (j ≢ k) × Avoids k low × Avoids k high
  AvoidsNode k (cdd_node j es) = AvoidsElems k es

  pub AvoidsElems : ℕ → Elems → Type 0
  AvoidsElems k nil = Unit
  AvoidsElems k (elem c b es) = Avoids k c × AvoidsElems k es

module _ (k : ℕ) (u v : Valuation) (agree : Agree k u v) where
  mutual
    unfolding Avoids eval

    same_dd : (d : Dd) → Avoids k d → eval u d ≡ eval v d
    same_dd (ptr m n) h = ap (xor m) (same_node n h)

    same_node : (n : Node) → AvoidsNode k n → eval_node u n ≡ eval_node v n
    same_node terminal h = refl
    same_node (xterm id) h = refl
    same_node (bdd_node j low high) (ne, l, r) =
        rw (same_dd low l, same_dd high r, agree.0 j ne) refl
    same_node (cdd_node j es) h = rw (agree.1 j) (same_elems (v.diffs j) es h)

    same_elems : (q : ℤ) (es : Elems) → AvoidsElems k es → eval_elems u q es ≡ eval_elems v q es
    same_elems q nil h = refl
    same_elems q (elem c b es) h = rw (same_dd c h.0, same_elems q es h.1) refl

pub eval-Ignores : (k : ℕ) (d : Dd) → Avoids k d → Ignores k (λ v. eval v d)
eval-Ignores k d h u v agree = same_dd k u v agree d h

pub Avoids-neg_cond : (k : ℕ) (d : Dd) (m : Bool) → Avoids k d → Avoids k (cdd_neg_cond d m)
unfolding Avoids
Avoids-neg_cond k (ptr b n) m h = h

module _ (cfg : Config) (ks : List ℕ) where
  unfoldable mutual
    -- A diagram of the right types with bounds within the range, where a quantified variable does
    -- not occur below a node that tests it.
    pub IsReadOnce : Dd → Type 0
    IsReadOnce (ptr m n) = IsReadOnceNode n

    pub IsReadOnceNode : Node → Type 0
    IsReadOnceNode terminal = Unit
    IsReadOnceNode (xterm id) = ⊥
    IsReadOnceNode (bdd_node k low high) =
        ((cfg.info k).type ≡ type_bdd)
        × (k < max_level)
        × (is_listed k ks ≡ true → Avoids k low × Avoids k high)
        × IsReadOnce low
        × IsReadOnce high
    IsReadOnceNode (cdd_node k es) =
        ((cfg.info k).type ≡ type_cdd)
        × (k < max_level)
        × Bounded es
        × HasRange es
        × IsReadOnceElems es

    pub IsReadOnceElems : Elems → Type 0
    IsReadOnceElems nil = Unit
    IsReadOnceElems (elem c b es) = IsReadOnce c × IsReadOnceElems es

  pub IsReadOnce-neg_cond : (d : Dd) (m : Bool) → IsReadOnce d → IsReadOnce (cdd_neg_cond d m)
  unfolding IsReadOnce
  IsReadOnce-neg_cond (ptr b n) m h = h

  pub IsReadOnce-Children : (es : Elems) → IsReadOnceElems es → Children IsReadOnce es
  unfolding IsReadOnce
  IsReadOnce-Children nil h = tt
  IsReadOnce-Children (elem c b es) h = (h.0, IsReadOnce-Children es h.1)
