-- ===== src/Walk/Room.antt =====
-- How wide the results of the operations that rebuild a diagram are, and the intervals of the
-- children of a CDD node.
use ucdd.Base.{ℕ, ◌+◌, ◌<◌, ◌≡◌, refl, ◌∙◌, ap, arith, ◌⊎◌, inl, Bool, ℤ, ◌<ℤ◌, ◌≤ℤ◌, negsuc}
use Prim.Native.Nat.{max}
use ucdd.Bounds.{infinity, minus_infinity}
use ucdd.Dd.{Dd, Node, Elems, ptr, terminal, xterm, bdd_node, cdd_node, nil, elem, cdd_neg_cond}
use ucdd.Dd.WellFormed.{Bounded, height, height_elems, height-neg_cond}
use ucdd.Apply.Step.{Bounded-le}
use ucdd.Walk.Loop.{width_after, Steps}

-- Twice the larger one: the width of a conjunction or disjunction.
abbrev pub both : ℕ → ℕ → ℕ
both a b = max a b + max a b

-- The width after a child of width `p` is intersected with an interval and joined.
abbrev pub joined : ℕ → ℕ → ℕ
joined w p = both w (both 3 p)

-- The width after a choice between diagrams of these widths.
abbrev pub chosen : ℕ → ℕ → ℕ
chosen p q = let m = max 1 (max p q) in (m + m) + (m + m)

unfoldable mutual
  pub room : Dd → ℕ
  room (ptr m n) = room_node n

  pub room_node : Node → ℕ
  room_node terminal = 1
  room_node (xterm id) = 1
  room_node (bdd_node k low high) = chosen (room low) (room high)
  room_node (cdd_node k es) = room_elems es 1

  pub room_elems : Elems → ℕ → ℕ
  room_elems nil w = w
  room_elems (elem c b es) w = room_elems es (joined w (room c))

pub room-neg_cond : (d : Dd) (m : Bool) → room (cdd_neg_cond d m) ≡ room d
unfolding room
room-neg_cond (ptr b n) m = refl

-- The room that the loop over the children needs.
abbrev pub grow : ℕ → Dd → ℕ
grow w c = joined w (room c)

pub room_after : (neg : Bool) (es : Elems) (w : ℕ) → width_after grow neg es w ≡ room_elems es w
unfolding room
room_after neg nil w = refl
room_after neg (elem c b es) w =
    room_after neg es (joined w (room (cdd_neg_cond c neg)))
    ∙ ap (λ p. room_elems es (joined w p)) (room-neg_cond c neg)

-- At least two children, and a first bound above 1 - INF.
abbrev pub HasRange : Elems → Type 0
HasRange nil = ⊥
HasRange (elem c b nil) = ⊥
HasRange (elem c b (elem c' b' es)) = negsuc 0x7FFFFFFC <ℤ b

-- The children of a diagram with a first bound above 1 - INF have intervals within the range.
abbrev pub InRange : ℤ → ℤ → Type 0
InRange low b =
    (minus_infinity ≤ℤ low)
    × (low <ℤ b)
    × (b ≤ℤ infinity)
    × (negsuc 0x7FFFFFFC <ℤ b)
    × ((negsuc 0x7FFFFFFC <ℤ low) ⊎ (b <ℤ infinity))

-- What holds of every child.
abbrev pub Children : (Dd → Type 0) → Elems → Type 0
Children Good nil = Unit
Children Good (elem c b es) = Good c × Children Good es

module _ (Good : Dd → Type 0) (neg_good : (d : Dd) (m : Bool) → Good d → Good (cdd_neg_cond d m))
    (fuel : ℕ) where
  -- A child of the loop: its interval, and the recursive call on it.
  abbrev pub Child : ℤ → ℤ → Dd → Type 0
  Child low b c = InRange low b × Good c × (height c < fuel)

  pub all-Steps :
      (neg : Bool) (low b : ℤ) (c : Dd) (es : Elems)
      → Bounded (elem c b es)
      → minus_infinity ≤ℤ low
      → low <ℤ b
      → negsuc 0x7FFFFFFC <ℤ b
      → (negsuc 0x7FFFFFFC <ℤ low) ⊎ (b <ℤ infinity)
      → Children Good (elem c b es)
      → height_elems (elem c b es) < fuel
      → Steps (λ l u d. Child l u d × (l <ℤ u)) neg low (elem c b es)
  unfolding height
  all-Steps neg low b c nil e bottom lt far finite good small =
      let top : b ≤ℤ infinity = ground (arith, e) in
      (
        (
          (
            (bottom, lt, top, far, finite),
            neg_good c neg good.0,
            omega (arith, height-neg_cond c neg),
          ),
          lt,
        ),
        tt,
      )
  all-Steps neg low b c (elem c' b' es) bounded bottom lt far finite good small =
      let top = Bounded-le c' b' es bounded.1 in
      (
        (
          (
            (bottom, lt, omega (arith, bounded.0, top), far, finite),
            neg_good c neg good.0,
            omega (arith, height-neg_cond c neg),
          ),
          lt,
        ),
        all-Steps neg b b' c' es bounded.1 (omega arith) bounded.0 (omega (arith, bounded.0))
            (inl far) good.1 (omega arith),
      )

pub weaken-Steps :
    (P : ℤ → ℤ → Dd → Type 0) (neg : Bool) (low : ℤ) (es : Elems)
    → Steps (λ l u d. P l u d × (l <ℤ u)) neg low es
    → Steps (λ l u d. l <ℤ u) neg low es
weaken-Steps P neg low nil h = tt
weaken-Steps P neg low (elem c b es) h = (h.0.1, weaken-Steps P neg b es h.1)
