-- ===== src/Apply/Sight.antt =====
-- What `cdd_apply_rec` finds below two nodes at the level of the upper one.
use ucdd.Base.{ℕ, ◌+◌, ◌≤◌, ◌<◌, Bool, true, false, ◌≡◌, refl, sym, arith, ap, if◌then◌else◌, ℤ}
use Prim.Native.Nat.{max}
use ucdd.Bounds.{infinity}
use ucdd.Dd.{
  Dd, Node, Elems, ptr, terminal, xterm, bdd_node, cdd_node, nil, elem, size, level_of, max_level,
}
use ucdd.Dd.Meaning.{Valuation, eval, eval_node, eval_elems}
use ucdd.Dd.WellFormed.{Bounded, IsWf, IsWfNode, IsWfElems, height, height_node, height_elems}
use ucdd.Machine.{ok, type_cdd, type_bdd, LevelInfo}
use ucdd.Apply.{elems_at, low_at, high_at}

-- The elements that the code finds for a node at or below the level `k`.
pub record Seen (info : ℕ → LevelInfo) (w k : ℕ) (b : Bool) (n : Node) (h : ℕ) : Type 0 where
  pub child : Dd
  pub bound : ℤ
  pub rest : Elems
  pub found : elems_at b n ≡ ok (elem child bound rest)
  pub bounded : Bounded (elem child bound rest)
  pub wf : IsWfElems info w (elem child bound rest)
  pub low : height_elems (elem child bound rest) ≤ h
  pub small : size (elem child bound rest) ≤ w
  pub meaning : (v : Valuation) → eval_elems v (v.diffs k) (elem child bound rest) ≡ eval_node v n

-- One step down, at a node that stands at the level.
abbrev pub down : Bool → ℕ
down true = 1
down false = 0

module _ (info : ℕ → LevelInfo) (w k : ℕ) (one : 1 ≤ w) (lt : k < max_level)
    (t : (info k).type ≡ type_cdd) where
  -- A node further down is a single element, a CDD node at the level has its own elements.
  pub seen :
      (b : Bool) (n : Node)
      → IsWfNode info w n
      → (b ≡ true → level_of n ≡ k)
      → (h : ℕ) × (h + down b ≤ height_node n) × Seen info w k b n h
  unfolding IsWf eval height elems_at
  seen false n wf e = (
    height_node n,
    omega arith,
    record {
      child = ptr false n;
      bound = infinity;
      rest = nil;
      found = refl;
      bounded = refl;
      wf = (wf, tt);
      low = omega arith;
      small = one;
      meaning = λ v. ground (arith, v.in_range k);
    },
  )
  seen true terminal wf e = absurd (omega (arith, e refl))
  seen true (xterm id) wf e = absurd wf
  seen true (bdd_node j low high) wf e = absurd (cc (ap info (e refl)))
  seen true (cdd_node j nil) wf e = absurd wf.3
  seen true (cdd_node j (elem c b es)) wf e = (
    height_elems (elem c b es),
    omega arith,
    record {
      child = c;
      bound = b;
      rest = es;
      found = refl;
      bounded = wf.3;
      wf = wf.4;
      low = omega arith;
      small = wf.2;
      meaning = λ v. ap (λ (i : ℕ). eval_elems v (v.diffs i) (elem c b es)) (sym (e refl));
    },
  )

-- The children of a BDD node at the level `k`, or the node itself from further down.
pub record Split (info : ℕ → LevelInfo) (w k : ℕ) (b : Bool) (n : Node) (h : ℕ) : Type 0 where
  pub low : Dd
  pub high : Dd
  pub found_low : low_at b n ≡ ok low
  pub found_high : high_at b n ≡ ok high
  pub low_wf : IsWf info w low
  pub high_wf : IsWf info w high
  pub low_height : height low ≤ h
  pub high_height : height high ≤ h
  pub meaning : (v : Valuation) → eval_node v n ≡ (if v.bools k then eval v high else eval v low)

pub split :
    (info : ℕ → LevelInfo) (w k : ℕ)
    → k < max_level
    → (info k).type ≡ type_bdd
    → (b : Bool) (n : Node) → IsWfNode info w n
    → (b ≡ true → level_of n ≡ k)
    → (h : ℕ) × (h + down b ≤ height_node n) × Split info w k b n h
unfolding IsWf eval height low_at high_at
split info w k lt t false n wf e = (
  height_node n,
  omega arith,
  record {
    low = ptr false n;
    high = ptr false n;
    found_low = refl;
    found_high = refl;
    low_wf = wf;
    high_wf = wf;
    low_height = omega arith;
    high_height = omega arith;
    meaning = λ v. ground arith;
  },
)
split info w k lt t true terminal wf e = absurd (omega (arith, e refl))
split info w k lt t true (xterm id) wf e = absurd wf
split info w k lt t true (cdd_node j es) wf e = absurd (cc (ap info (e refl)))
split info w k lt t true (bdd_node j lo hi) wf e = (
  max (height lo) (height hi),
  omega arith,
  record {
    low = lo;
    high = hi;
    found_low = refl;
    found_high = refl;
    low_wf = wf.2;
    high_wf = wf.3;
    low_height = omega arith;
    high_height = omega arith;
    meaning = λ v. ap (λ (i : ℕ). if v.bools i then eval v hi else eval v lo) (e refl);
  },
)
