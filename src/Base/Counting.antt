-- ===== src/Base/Counting.antt =====
-- How often a number is in a list, and how long a list without repetitions can be.
use Prim.Native.Nat.{ℕ, zero, suc, ◌+◌, ◌≤◌, ◌<◌}
use mathlib.Core.Path.{◌≡◌, refl}
use mathlib.Core.List.{List, [], ◌∷◌, ◌++◌}
use native.Mathlib.Omega.{arith}
use ucdd.Base.Tests.{ltb, ◌==◌, if◌then◌else◌}
use ucdd.Base.Lists.{length}

unfoldable pub occurs : ℕ → List ℕ → ℕ
occurs a [] = 0
occurs a (x ∷ xs) = let rest = occurs a xs in if x == a then suc rest else rest

pub occurs-++ : (a : ℕ) (xs ys : List ℕ) → occurs a (xs ++ ys) ≡ occurs a xs + occurs a ys
unfolding occurs
occurs-++ a [] ys = omega arith
occurs-++ a (x ∷ xs) ys = ground (arith, occurs-++ a xs ys)

-- All are below the number.
abbrev pub AllBelow : ℕ → List ℕ → Type 0
AllBelow n [] = Unit
AllBelow n (x ∷ xs) = (x < n) × AllBelow n xs

-- How many elements are below the number.
unfoldable total : ℕ → List ℕ → ℕ
total zero xs = 0
total (suc n) xs = occurs n xs + total n xs

total-cons : (n x : ℕ) (xs : List ℕ) → total n (x ∷ xs) ≡ total n xs + (if ltb x n then 1 else 0)
unfolding total occurs
total-cons zero x xs = ground arith
total-cons (suc n) x xs = ground (arith, total-cons n x xs)

total-length : (n : ℕ) (xs : List ℕ) → AllBelow n xs → total n xs ≡ length xs
unfolding total occurs
total-length zero [] h = refl
total-length zero (x ∷ xs) h = absurd (omega (arith, h.0))
total-length (suc n) [] h = let rest = total-length n [] tt in omega (arith, rest)
total-length (suc n) (x ∷ xs) (lt, h) =
    let ih = total-length (suc n) xs h in
    let one = total-cons (suc n) x xs in ground (arith, one, ih, lt)

total-le : (n : ℕ) (xs : List ℕ) → ((a : ℕ) → occurs a xs ≤ 1) → total n xs ≤ n
unfolding total
total-le zero xs h = omega arith
total-le (suc n) xs h = omega (arith, h n, total-le n xs h)

-- A list of different numbers below `n` has at most `n` elements.
pub length-distinct :
    (n : ℕ) (xs : List ℕ) → AllBelow n xs → ((a : ℕ) → occurs a xs ≤ 1) → length xs ≤ n
length-distinct n xs below once = omega (arith, total-length n xs below, total-le n xs once)
