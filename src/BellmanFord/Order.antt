-- ===== src/BellmanFord/Order.antt =====
-- The order of distances that `less` of src/bellmanford.c stands for.
use ucdd.Base.{ℕ, ◌+◌, ◌<◌, ◌⊎◌, ◌≡◌, arith, true, false, ℤ, pos_part, neg_part, +ℤ_parts}
use ucdd.BellmanFord.{Distance, less, add}

-- The first distance is not above the second.
abbrev pub Le : Distance → Distance → Type 0
Le i j = less j i ≡ false

pub Le_refl : (i : Distance) → Le i i
unfolding less
Le_refl i = ground arith

pub Le_trans : (i j k : Distance) → Le i j → Le j k → Le i k
unfolding less
Le_trans i j k h l = ground arith

pub less-Le : (i j : Distance) → less i j ≡ true → Le i j
unfolding less
less-Le i j h = ground arith

pub less-split :
    (i j : Distance)
    → less i j ≡ true
    → (pos_part i.value + neg_part j.value < pos_part j.value + neg_part i.value)
      ⊎ ((pos_part i.value + neg_part j.value ≡ pos_part j.value + neg_part i.value)
          × (j.strictness < i.strictness))
unfolding less
less-split i j h = ground arith

module _ (raw2bound : ℤ → ℤ) (raw_is_strict : ℤ → ℕ) where
  pub add-Le :
      (i j : Distance) (e : ℤ)
      → Le i j
      → Le (add raw2bound raw_is_strict i e) (add raw2bound raw_is_strict j e)
  unfolding less add
  add-Le i j e h =
      let a = +ℤ_parts i.value (raw2bound e) in
      let b = +ℤ_parts j.value (raw2bound e) in ground (arith, a, b)
