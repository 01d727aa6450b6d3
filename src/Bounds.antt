-- ===== src/Bounds.antt =====
-- The raw bounds of include/cdd/kernel.h: a bound is `limit << 1` with the low bit set when the
-- bound is weak (as an upper bound). The two's complement operators of the macros are written on
-- the integers they denote, without overflow.
pub mod Laws
use Prim.Native.Nat.{bit_and, bit_or, bit_xor}
use ucdd.Base.{ℕ, suc, ◌+◌, ◌-◌, ◌*◌, ◌/◌, ◌%◌, ◌^◌, Bool, ltb, if◌then◌else◌, ◌==◌}
use ucdd.Base.{ℤ, pos, negsuc, ◌+ℤ◌, neg_ℤ, ◌==ℤ◌}

-- `INF`, 0x7FFFFFFE.
abbrev pub infinity : ℤ
infinity = pos 0x7FFFFFFE

abbrev pub minus_infinity : ℤ
minus_infinity = negsuc 0x7FFFFFFD

-- `b & 0x1`
unfoldable pub low_bit : ℤ → ℕ
low_bit (pos n) = n % 2
low_bit (negsuc n) = (n + 1) % 2

-- `b & ~0x1`
unfoldable pub clear_low : ℤ → ℤ
clear_low (pos n) = pos (n / 2 * 2)
clear_low (negsuc n) = negsuc (n / 2 * 2 + 1)

-- `b | s`, `s` a single low bit.
unfoldable pub or_low : ℤ → ℕ → ℤ
or_low (pos n) s = if s == 0 then pos n else pos (n / 2 * 2 + 1)
or_low (negsuc n) s = if s == 0 then negsuc n else negsuc (n / 2 * 2)

-- `b ^ 0x1`
unfoldable pub flip_low : ℤ → ℤ
flip_low (pos n) = if n % 2 == 0 then pos (n + 1) else pos (n - 1)
flip_low (negsuc n) = if n % 2 == 0 then negsuc (n + 1) else negsuc (n - 1)

-- `b >> 1`, the arithmetic shift.
unfoldable pub bnd_get_limit : ℤ → ℤ
bnd_get_limit (pos n) = pos (n / 2)
bnd_get_limit (negsuc n) = negsuc (n / 2)

-- `limit << 1`
unfoldable pub shift_left : ℤ → ℤ
shift_left b = b +ℤ b

unfoldable pub bnd_upper : ℤ → Bool → ℤ
unfolding shift_left or_low
bnd_upper limit strict = or_low (shift_left limit) (if strict then 0 else 1)

unfoldable pub bnd_lower : ℤ → Bool → ℤ
unfolding shift_left or_low
bnd_lower limit strict = or_low (shift_left limit) (if strict then 1 else 0)

unfoldable pub bnd_is_upper_strict : ℤ → Bool
unfolding low_bit
bnd_is_upper_strict b = low_bit b == 0

unfoldable pub bnd_is_lower_strict : ℤ → Bool
unfolding low_bit
bnd_is_lower_strict b = low_bit b == 1

-- `(-(b & ~0x1) | (b & 0x1)) ^ 0x1`, the common part of `bnd_l2u` and `bnd_u2l`.
unfoldable pub mirror : ℤ → ℤ
unfolding clear_low low_bit or_low flip_low neg_ℤ
mirror b = flip_low (or_low (neg_ℤ (clear_low b)) (low_bit b))

unfoldable pub bnd_l2u : ℤ → ℤ
bnd_l2u b = if b ==ℤ minus_infinity then infinity else mirror b

unfoldable pub bnd_u2l : ℤ → ℤ
bnd_u2l b = if b ==ℤ infinity then minus_infinity else mirror b

-- An integer in 32 bits, in two's complement.
unfoldable pub to_int32 : ℤ → ℤ
to_int32 (pos n) =
    if ltb (n % 2 ^ 32) (2 ^ 31) then pos (n % 2 ^ 32) else negsuc (2 ^ 32 - 1 - n % 2 ^ 32)
to_int32 (negsuc n) =
    if ltb (n % 2 ^ 32) (2 ^ 31) then negsuc (n % 2 ^ 32) else pos (2 ^ 32 - 1 - n % 2 ^ 32)

unfoldable pub bnd_add : ℤ → ℤ → ℤ
unfolding clear_low low_bit or_low to_int32 ◌+ℤ◌
bnd_add a b =
    if a ==ℤ infinity
    then infinity
    else if b ==ℤ infinity
    then infinity
    else or_low (to_int32 (clear_low a +ℤ clear_low b)) (low_bit a * low_bit b)
