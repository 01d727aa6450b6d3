-- ===== src/Bounds/Laws.antt =====
-- What the bound macros of include/cdd/kernel.h mean: they relate upper and lower bounds of a
-- difference of clocks to bounds of the opposite difference, and add them.
--
-- A difference of clocks d enters by the position q of 2 * d: the upper bound with limit m holds
-- when q < 2 * m (strict) or q < 2 * m + 1 (weak), so a raw bound b holds when q < b.
use ucdd.Base.{
  ◌||◌, ◌==◌, ℕ, zero, ap, suc, ◌+◌, ◌*◌, ◌^◌, ◌<◌, ◌≤◌, false, ◌≡◌, ◌≢◌, ◌↔◌, ◌⊎◌, refl, arith,
}
use ucdd.Base.{
  ℤ, pos, negsuc, ◌+ℤ◌, ◌-ℤ◌, neg_ℤ, ◌<ℤ◌, ◌≤ℤ◌, eq_of_parts, -ℤ_parts, Bool-cases, ==ℤ_iff, ◌==ℤ◌,
  inl, inr, sym, neg_ℤ_parts, int_laws, pos_part, neg_part,
}
use ucdd.Bounds.{
  infinity, minus_infinity, low_bit, clear_low, or_low, mirror, bnd_l2u, bnd_u2l, bnd_get_limit,
  bnd_is_upper_strict, to_int32, bnd_add,
}

-- The upper bound `b` holds of a difference at position `q`.
abbrev pub Below : ℤ → ℤ → Type 0
Below b q = q <ℤ b

-- The lower bound `b` holds of a difference at position `q`.
abbrev pub Above : ℤ → ℤ → Type 0
Above b q = b ≤ℤ q

pub mirror_lem : (b : ℤ) → mirror b ≡ pos 1 -ℤ b
unfolding mirror ◌-ℤ◌
mirror_lem (pos n) = ground arith
mirror_lem (negsuc n) = ground arith

-- `bnd_l2u` turns a lower bound of a difference into the upper bound of the opposite difference,
-- `-INF` included, for positions inside the range.
pub Above-l2u :
    (b q : ℤ)
    → (neg_part q < 0x7FFFFFFE) × (pos_part q < 0x7FFFFFFE)
    → Above b q ↔ Below (bnd_l2u b) (neg_ℤ q)
unfolding bnd_l2u
Above-l2u b q k = rw mirror_lem (ground (arith, -ℤ_parts (pos 1) b, neg_ℤ_parts q))

mirror-mirror : (b : ℤ) → mirror (mirror b) ≡ b
mirror-mirror b = rw (mirror_lem, mirror_lem) (omega int_laws)

mirror-ne : (b : ℤ) → b ≢ negsuc 0x7FFFFFFC → (mirror b ==ℤ infinity) ≡ false
mirror-ne b h = elim (Bool-cases (mirror b ==ℤ infinity)) [
  | inr e ↦ e
  | inl e ↦
      let m : pos 1 -ℤ b ≡ infinity = rw (← mirror_lem b) ((==ℤ_iff (mirror b) infinity).0 e) in
      absurd (
        h (
          eq_of_parts b (negsuc 0x7FFFFFFC)
            (omega (arith, -ℤ_parts (pos 1) b, ap pos_part m, ap neg_part m))))
]

-- `bnd_u2l` undoes `bnd_l2u` on every lower bound but 1 - INF, whose mirror image is `INF`.
pub u2l-l2u : (b : ℤ) → b ≢ negsuc 0x7FFFFFFC → bnd_u2l (bnd_l2u b) ≡ b
unfolding bnd_u2l bnd_l2u
u2l-l2u b h = elim (Bool-cases (b ==ℤ minus_infinity)) [
  | inl e ↦ rw e (sym ((==ℤ_iff b minus_infinity).0 e))
  | inr e ↦ rw (e, mirror-ne b h) (mirror-mirror b)
]

clear_low_lem : (b : ℤ) → clear_low b ≡ b -ℤ pos (low_bit b)
unfolding clear_low low_bit ◌-ℤ◌
clear_low_lem (pos n) = ground arith
clear_low_lem (negsuc n) = ground arith

or_low_lem : (b : ℤ) (s : ℕ) → low_bit b ≡ 0 → s ≤ 1 → or_low b s ≡ b +ℤ pos s
unfolding or_low low_bit ◌+ℤ◌
or_low_lem (pos n) s h k = ground arith
or_low_lem (negsuc n) s h k = ground arith

low_bit-clear : (a b : ℤ) → low_bit (clear_low a +ℤ clear_low b) ≡ 0
unfolding low_bit clear_low ◌+ℤ◌
low_bit-clear (pos m) (pos n) = ground arith
low_bit-clear (pos m) (negsuc n) = ground arith
low_bit-clear (negsuc m) (pos n) = ground arith
low_bit-clear (negsuc m) (negsuc n) = ground arith

low_bit-le : (b : ℤ) → low_bit b ≤ 1
unfolding low_bit
low_bit-le (pos n) = omega arith
low_bit-le (negsuc n) = omega arith

finite_sum : ℤ → ℤ → ℤ
finite_sum a b = or_low (clear_low a +ℤ clear_low b) (low_bit a * low_bit b)

bits-le : (a b : ℤ) → low_bit a * low_bit b ≤ 1
bits-le a b = grind (arith, low_bit-le a, low_bit-le b)

sum_bits : (s t : ℕ) → s ≤ 1 → t ≤ 1 → s + t ≤ s * t + 1
sum_bits zero t h k = omega arith
sum_bits (suc zero) t h k = omega arith
sum_bits (suc (suc s)) t h k = absurd (omega arith)

-- One unit of the sum is lost when a single bound is weak, and two when both are.
finite_sum_lem : (a b : ℤ) → a +ℤ b ≤ℤ finite_sum a b +ℤ pos 1
unfolding finite_sum
finite_sum_lem a b =
    rw (or_low_lem _ _ (low_bit-clear a b) (bits-le a b), clear_low_lem a, clear_low_lem b)
      (omega (int_laws, sum_bits (low_bit a) (low_bit b) (low_bit-le a) (low_bit-le b)))

-- The integers of `int32_t`.
abbrev pub IsInt32 : ℤ → Type 0
IsInt32 z = (pos_part z < 2 ^ 31) × (neg_part z ≤ 2 ^ 31)

to_int32_lem : (z : ℤ) → IsInt32 z → to_int32 z ≡ z
unfolding to_int32
to_int32_lem (pos n) h = ground arith
to_int32_lem (negsuc n) h = ground arith

halves : (b : ℤ) → b ≡ (bnd_get_limit b +ℤ bnd_get_limit b) +ℤ pos (low_bit b)
unfolding bnd_get_limit low_bit ◌+ℤ◌
halves (pos n) = ground arith
halves (negsuc n) = ground arith

-- A bound is given by its limit and its low bit.
halves-eq :
    (z l : ℤ) (s : ℕ) → s ≤ 1 → z ≡ (l +ℤ l) +ℤ pos s → (bnd_get_limit z ≡ l) × (low_bit z ≡ s)
halves-eq z l s h e =
    let own = halves z in
    let bit = low_bit-le z in
    let x = ap pos_part own in
    let y = ap neg_part own in
    let x' = ap pos_part e in
    let y' = ap neg_part e in
    (
      eq_of_parts (bnd_get_limit z) l (omega (int_laws, bit, h, x, y, x', y')),
      omega (int_laws, bit, h, x, y, x', y'),
    )

finite_sum-halves :
    (a b : ℤ)
    → (bnd_get_limit (finite_sum a b) ≡ bnd_get_limit a +ℤ bnd_get_limit b)
      × (low_bit (finite_sum a b) ≡ low_bit a * low_bit b)
unfolding finite_sum
finite_sum-halves a b =
    halves-eq (finite_sum a b) (bnd_get_limit a +ℤ bnd_get_limit b) (low_bit a * low_bit b)
      (bits-le a b)
      (rw (or_low_lem _ _ (low_bit-clear a b) (bits-le a b), clear_low_lem a, clear_low_lem b)
        (eq_of_parts _ _ (
          omega (
            int_laws,
            ap pos_part (halves a),
            ap neg_part (halves a),
            ap pos_part (halves b),
            ap neg_part (halves b),
          ))))

bits-strict : (s t : ℕ) → s ≤ 1 → t ≤ 1 → (s * t == 0) ≡ ((s == 0) || (t == 0))
bits-strict zero t h k = ground arith
bits-strict (suc zero) t h k = ground arith
bits-strict (suc (suc s)) t h k = absurd (omega arith)

-- The bound is `INF` where one of the two is; otherwise its limit is the sum of the limits, and it is
-- strict when one of the two is.
abbrev pub IsSumOf : ℤ → ℤ → ℤ → Type 0
IsSumOf a b c =
    (((a ≡ infinity) ⊎ (b ≡ infinity)) × (c ≡ infinity))
    ⊎ ((bnd_get_limit c ≡ bnd_get_limit a +ℤ bnd_get_limit b)
        × (bnd_is_upper_strict c ≡ (bnd_is_upper_strict a || bnd_is_upper_strict b)))

finite_sum-IsSumOf : (a b : ℤ) → IsSumOf a b (finite_sum a b)
unfolding bnd_is_upper_strict
finite_sum-IsSumOf a b =
    let (limit, bit) = finite_sum-halves a b in
    inr (limit, rw bit (bits-strict (low_bit a) (low_bit b) (low_bit-le a) (low_bit-le b)))

-- `bnd_add` is `INF` where one of the bounds is `INF`; otherwise it has the sum of their limits and is
-- strict when one of them is. So it bounds the sum of two differences by the sum of their bounds,
-- for sums below `INF`. The sum of the bounds without their low bits is asked to be an `int32_t`
-- where neither bound is `INF`; other sums wrap around.
pub add_sound :
    (a b p q : ℤ)
    → ((a ==ℤ infinity) ≡ false → (b ==ℤ infinity) ≡ false → IsInt32 (clear_low a +ℤ clear_low b))
    → Below a p
    → Below b q
    → (p +ℤ q) <ℤ infinity
    → IsSumOf a b (bnd_add a b) × Below (bnd_add a b) (p +ℤ q)
unfolding bnd_add finite_sum
add_sound a b p q fits h k small = elim (Bool-cases (a ==ℤ infinity)) [
  | inl e ↦ rw e (inl (inl ((==ℤ_iff a infinity).0 e), refl), small)
  | inr e ↦ elim (Bool-cases (b ==ℤ infinity)) [
    | inl f ↦ rw (e, f) (inl (inr ((==ℤ_iff b infinity).0 f), refl), small)
    | inr f ↦
        rw (e, f, to_int32_lem (clear_low a +ℤ clear_low b) (fits e f))
          (finite_sum-IsSumOf a b, omega (int_laws, finite_sum_lem a b))
  ]
]
