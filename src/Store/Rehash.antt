-- ===== src/Store/Rehash.antt =====
-- `cdd_rehash` puts every node into the bucket of its hash value.
use ucdd.Base.{
  ℕ, suc, ◌+◌, ◌-◌, ◌*◌, ◌/◌, ◌%◌, ◌^◌, ◌<◌, ◌≡◌, refl, sym, ◌∙◌, ap, subst, arith, true, false,
  inl, inr, Bool-cases, ◌==◌, List, [], ◌∷◌, ◌++◌, length,
}
use native.Mathlib.Nat.{div-div-eq-div-mul, pow-suc}
use ucdd.Cache.Laws.{All}
use ucdd.Store.{Cell, SubTable, split_chain, split_buckets, cdd_rehash}
use ucdd.Store.Collect.{nodes_of}
use ucdd.Store.Alloc.{at_address}

-- Every two nodes of the list, the earlier one first.
abbrev pub Pairwise : {A : Type 0} → (A → A → Type 0) → List A → Type 0
Pairwise R [] = Unit
Pairwise R (x ∷ xs) = All (R x) xs × Pairwise R xs

at_address-++ :
    {A : Type 0} (a : ℕ) (xs ys : List (Cell A))
    → at_address a (xs ++ ys) ≡ at_address a xs + at_address a ys
unfolding at_address
at_address-++ a [] ys = omega arith
at_address-++ a (x ∷ xs) ys = ground (arith, at_address-++ a xs ys)

module _ {A : Type 0} (hashfunc : Cell A → ℕ) where
  -- The chains of the buckets from `i` on hold only nodes of these buckets.
  abbrev pub PlacedFrom : ℕ → ℕ → List (List (Cell A)) → Type 0
  PlacedFrom shift i [] = Unit
  PlacedFrom shift i (chain ∷ chains) =
      All (λ n. hashfunc n / 2 ^ shift ≡ i) chain × PlacedFrom shift (suc i) chains

  -- The nodes of a table are in their buckets, and the chains are in the order `R`.
  pub record IsPlaced (R : Cell A → Cell A → Type 0) (tbl : SubTable A) : Type 0 where
    pub size : tbl.buckets ≡ length tbl.hash
    pub placed : PlacedFrom tbl.shift 0 tbl.hash
    pub ordered : All (Pairwise R) tbl.hash

  module _ (s : ℕ) where
    half : (h : ℕ) → h / 2 ^ s / 2 ≡ h / 2 ^ suc s
    half h = div-div-eq-div-mul h (2 ^ s) 2 ∙ ap (λ x. h / x) (sym (pow-suc 2 s))

    split-placed :
        (i : ℕ) (chain : List (Cell A))
        → All (λ n. hashfunc n / 2 ^ suc s ≡ i) chain
        → All (λ n. hashfunc n / 2 ^ s ≡ 2 * i) (split_chain hashfunc s chain).0
          × All (λ n. hashfunc n / 2 ^ s ≡ suc (2 * i)) (split_chain hashfunc s chain).1
    unfolding split_chain
    split-placed i [] h = (tt, tt)
    split-placed i (n ∷ ns) (p, h) =
        let (l, r) = split-placed i ns h in
        elim (Bool-cases ((hashfunc n / 2 ^ s) % 2 == 1)) [
          | inl e ↦ rw e (l, (odd (hashfunc n / 2 ^ s) e (half (hashfunc n) ∙ p), r))
          | inr e ↦ rw e ((even (hashfunc n / 2 ^ s) e (half (hashfunc n) ∙ p), l), r)
        ]
      where
        odd : (x : ℕ) → (x % 2 == 1) ≡ true → x / 2 ≡ i → x ≡ suc (2 * i)
        odd x e q = ground arith

        even : (x : ℕ) → (x % 2 == 1) ≡ false → x / 2 ≡ i → x ≡ 2 * i
        even x e q = ground arith

    split-All :
        (P : Cell A → Type 0) (chain : List (Cell A))
        → All P chain
        → All P (split_chain hashfunc s chain).0 × All P (split_chain hashfunc s chain).1
    unfolding split_chain
    split-All P [] h = (tt, tt)
    split-All P (n ∷ ns) (p, h) =
        let (l, r) = split-All P ns h in
        elim (Bool-cases ((hashfunc n / 2 ^ s) % 2 == 1)) [
          | inl e ↦ rw e (l, (p, r))
          | inr e ↦ rw e ((p, l), r)
        ]

    split-Pairwise :
        (R : Cell A → Cell A → Type 0) (chain : List (Cell A))
        → Pairwise R chain
        → Pairwise R (split_chain hashfunc s chain).0 × Pairwise R (split_chain hashfunc s chain).1
    unfolding split_chain
    split-Pairwise R [] h = (tt, tt)
    split-Pairwise R (n ∷ ns) (p, h) =
        let (l, r) = split-Pairwise R ns h in
        let (pl, pr) = split-All (R n) ns p in
        elim (Bool-cases ((hashfunc n / 2 ^ s) % 2 == 1)) [
          | inl e ↦ rw e (l, (pr, r))
          | inr e ↦ rw e ((pl, l), r)
        ]

    split-count :
        (a : ℕ) (chain : List (Cell A))
        → at_address a (split_chain hashfunc s chain).0
            + at_address a (split_chain hashfunc s chain).1
          ≡ at_address a chain
    unfolding split_chain at_address
    split-count a [] = refl
    split-count a (n ∷ ns) = elim (Bool-cases ((hashfunc n / 2 ^ s) % 2 == 1)) [
      | inl e ↦ rw e (ground (arith, split-count a ns))
      | inr e ↦ rw e (ground (arith, split-count a ns))
    ]

    buckets-lem :
        (R : Cell A → Cell A → Type 0) (i : ℕ) (chains : List (List (Cell A)))
        → PlacedFrom (suc s) i chains
        → All (Pairwise R) chains
        → PlacedFrom s (2 * i) (split_buckets hashfunc s chains)
          × All (Pairwise R) (split_buckets hashfunc s chains)
          × (length (split_buckets hashfunc s chains) ≡ length chains * 2)
          × ((a : ℕ)
              → at_address a (nodes_of (split_buckets hashfunc s chains))
                ≡ at_address a (nodes_of chains))
    unfolding split_buckets
    buckets-lem R i [] h o = (tt, tt, refl, λ a. refl)
    buckets-lem R i (chain ∷ chains) (p, h) (q, o) =
        let (l, r) = split-placed i chain p in
        let (ol, or) = split-Pairwise R chain q in
        let (h', o', len, count) = buckets-lem R (suc i) chains h o in
        (
          (l, (r, subst (λ j. PlacedFrom s j (split_buckets hashfunc s chains)) (step i) h')),
          (ol, (or, o')),
          omega (arith, len),
          λ a.
              let rest = split_buckets hashfunc s chains in
              let (x, y) = split_chain hashfunc s chain in
              omega (
                arith,
                count a,
                split-count a chain,
                at_address-++ a x (y ++ nodes_of rest),
                at_address-++ a y (nodes_of rest),
                at_address-++ a chain (nodes_of chains),
              ),
        )
      where
        step : (i : ℕ) → 2 * suc i ≡ suc (suc (2 * i))
        step i = omega arith

  -- Where the shift is not 0: after `cdd_rehash` there are twice as many buckets, every node is in
  -- the bucket of its hash value under the new shift, the chains keep their order, and every
  -- address occurs in the table as often as before.
  pub rehash-IsPlaced :
      (R : Cell A → Cell A → Type 0) (tbl : SubTable A)
      → IsPlaced R tbl
      → 0 < tbl.shift
      → IsPlaced R (cdd_rehash hashfunc tbl)
        × ((cdd_rehash hashfunc tbl).buckets ≡ tbl.buckets * 2)
        × ((a : ℕ)
            → at_address a (nodes_of (cdd_rehash hashfunc tbl).hash)
              ≡ at_address a (nodes_of tbl.hash))
  unfolding cdd_rehash
  rehash-IsPlaced R tbl h some_shift =
      let (p, o, len, count) =
        buckets-lem (tbl.shift - 1) R 0 tbl.hash
          (subst (λ j. PlacedFrom j 0 tbl.hash) (back tbl.shift some_shift) h.placed) h.ordered in
      (record { size = omega (arith, len, h.size); placed = p; ordered = o }, refl, count)
    where
      back : (k : ℕ) → 0 < k → k ≡ suc (k - 1)
      back k lt = omega arith
