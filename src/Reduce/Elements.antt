-- ===== src/Reduce/Elements.antt =====
-- Arrays of elements that the second loop of `cdd_bf_reduce_rec` builds from its end, and their value.
use ucdd.Base.{Bool, true, false, xor, if◌then◌else◌, ◌≡◌, refl, ◌∙◌, arith, ℤ, ◌<ℤ◌, ◌≤ℤ◌}
use ucdd.Dd.{Dd, Elems, nil, elem}
use ucdd.Dd.WellFormed.{Bounded}

-- The first bound is not below the number.
abbrev pub Starts : ℤ → Elems → Type 0
Starts low nil = ⊥
Starts low (elem c b es) = low ≤ℤ b

pub cons-Bounded :
    (c : Dd) (low b : ℤ) (es : Elems)
    → low <ℤ b
    → Starts b es
    → Bounded es
    → Bounded (elem c low es)
cons-Bounded c low b nil lt s h = absurd s
cons-Bounded c low b (elem c' b' es) lt s h = (omega (arith, lt, s), h)

pub Starts-le : (low b : ℤ) (es : Elems) → low <ℤ b → Starts b es → Starts low es
Starts-le low b nil lt s = s
Starts-le low b (elem c b' es) lt s = omega (arith, lt, s)

pub twice : (m b : Bool) → xor m (xor m b) ≡ b
twice m b = ground arith

-- The value of the elements from the lower bound `lo` on, where the child has the upper bound `up`.
pub same_value :
    (mask neg lo up p c t e : Bool)
    → (lo ≡ true → up ≡ true)
    → (lo ≡ false → up ≡ true → p ≡ xor neg c)
    → xor mask t ≡ (if up then p else xor neg e)
    → xor mask t ≡ (if lo then p else xor neg (if up then c else e))
same_value mask neg true up p c t e order child rest = rw (order refl) at rest
same_value mask neg false true p c t e order child rest = rest ∙ child refl refl
same_value mask neg false false p c t e order child rest = rest

pub new_value :
    (mask neg lo up p n c t e : Bool)
    → (lo ≡ false → up ≡ true → n ≡ xor neg c)
    → xor mask t ≡ (if up then n else xor neg e)
    → xor mask (if lo then xor mask p else t) ≡ (if lo then p else xor neg (if up then c else e))
new_value mask neg true up p n c t e child rest = ground arith
new_value mask neg false true p n c t e child rest = rest ∙ child refl refl
new_value mask neg false false p n c t e child rest = rest
