-- ===== src/Store/Chain/Sorted.antt =====
-- The two loops of the search find the place of a node in a sorted chain.
use ucdd.Base.{
  ℕ, ◌≡◌, refl, ◌∙◌, ap, arith, inl, inr, Bool, true, false, ◌&&◌, ◌||◌, ◌==◌, Bool-cases, ltb,
  List, [], ◌∷◌, ◌++◌,
}
use ucdd.Cache.Laws.{All}
use ucdd.Store.{Cell}
use ucdd.Store.Rehash.{Pairwise}
use ucdd.Store.Chain.{BddNode, pass_low, pass_high, find_position}

-- The node stands before the place of these children.
unfoldable pub is_before : ℕ → ℕ → Cell BddNode → Bool
is_before low high n = ltb low n.content.low || (low == n.content.low && ltb high n.content.high)

-- The order of the chains.
abbrev pub Before : Cell BddNode → Cell BddNode → Type 0
Before n m = is_before m.content.low m.content.high n ≡ true

abbrev pub IsSorted : List (Cell BddNode) → Type 0
IsSorted = Pairwise Before

-- The position splits the chain into the nodes before it and a rest that begins with none.
abbrev pub Starts : ℕ → ℕ → List (Cell BddNode) → Type 0
Starts low high [] = Unit
Starts low high (n ∷ ns) = is_before low high n ≡ false

pub record Split (low high : ℕ) (chain before rest : List (Cell BddNode)) : Type 0 where
  pub whole : before ++ rest ≡ chain
  pub front : All (λ n. is_before low high n ≡ true) before
  pub back : Starts low high rest

pass_high-Split :
    (low high : ℕ) (chain : List (Cell BddNode))
    → All (λ n. ltb low n.content.low ≡ false) chain
    → Split low high chain (pass_high low high chain).0 (pass_high low high chain).1
unfolding pass_high is_before
pass_high-Split low high [] h = record { whole = refl; front = tt; back = tt }
pass_high-Split low high (n ∷ ns) h =
    let r = pass_high-Split low high ns h.1 in
    elim (Bool-cases (low == n.content.low && ltb high n.content.high)) [
      | inl e ↦ rw e (record {
        whole = ap (λ x. n ∷ x) r.whole;
        front = (ground (arith, e), r.front);
        back = r.back;
      })
      | inr e ↦ rw e (record { whole = refl; front = tt; back = ground (arith, e, h.0) })
    ]

-- In a sorted chain the low children decrease.
below_low :
    (low : ℕ) (n : Cell BddNode) (ns : List (Cell BddNode))
    → ltb low n.content.low ≡ false
    → All (Before n) ns
    → All (λ m. ltb low m.content.low ≡ false) ns
unfolding is_before
below_low low n [] e h = tt
below_low low n (m ∷ ns) e h = (ground (arith, e, h.0), below_low low n ns e h.1)

record Passed (low high : ℕ) (chain before rest : List (Cell BddNode)) : Type 0 where
  pub whole : before ++ rest ≡ chain
  pub front : All (λ n. is_before low high n ≡ true) before
  pub back : All (λ n. ltb low n.content.low ≡ false) rest

pass_low-Passed :
    (low high : ℕ) (chain : List (Cell BddNode))
    → IsSorted chain
    → Passed low high chain (pass_low low chain).0 (pass_low low chain).1
unfolding pass_low is_before
pass_low-Passed low high [] h = record { whole = refl; front = tt; back = tt }
pass_low-Passed low high (n ∷ ns) (after, h) =
    let r = pass_low-Passed low high ns h in
    elim (Bool-cases (ltb low n.content.low)) [
      | inl e ↦ rw e (record {
        whole = ap (λ x. n ∷ x) r.whole;
        front = (ground (arith, e), r.front);
        back = r.back;
      })
      | inr e ↦ rw e (record { whole = refl; front = tt; back = (e, below_low low n ns e after) })
    ]

All-++ : {A : Type 0} (P : A → Type 0) (xs ys : List A) → All P xs → All P ys → All P (xs ++ ys)
All-++ P [] ys h k = k
All-++ P (x ∷ xs) ys h k = (h.0, All-++ P xs ys h.1 k)

All-split : {A : Type 0} (P : A → Type 0) (xs ys : List A) → All P (xs ++ ys) → All P xs × All P ys
All-split P [] ys h = (tt, h)
All-split P (x ∷ xs) ys h = let (l, r) = All-split P xs ys h.1 in ((h.0, l), r)

append_assoc : {A : Type 0} (xs ys zs : List A) → (xs ++ ys) ++ zs ≡ xs ++ (ys ++ zs)
append_assoc [] ys zs = refl
append_assoc (x ∷ xs) ys zs = ap (λ l. x ∷ l) (append_assoc xs ys zs)

pub find_position-Split :
    (low high : ℕ) (chain : List (Cell BddNode))
    → IsSorted chain
    → Split low high chain (find_position low high chain).0 (find_position low high chain).1
unfolding find_position
find_position-Split low high chain sorted =
    let p = pass_low-Passed low high chain sorted in
    let rest = (pass_low low chain).1 in
    let q = pass_high-Split low high rest p.back in
    record {
      whole =
          append_assoc (pass_low low chain).0 (pass_high low high rest).0
            (pass_high low high rest).1
          ∙ ap (λ x. (pass_low low chain).0 ++ x) q.whole
          ∙ p.whole;
      front = All-++ _ (pass_low low chain).0 (pass_high low high rest).0 p.front q.front;
      back = q.back;
    }

-- A sorted list in two parts.
pub Pairwise-split :
    {A : Type 0} (R : A → A → Type 0) (xs ys : List A)
    → Pairwise R (xs ++ ys)
    → Pairwise R xs × Pairwise R ys × All (λ x. All (R x) ys) xs
Pairwise-split R [] ys h = (tt, h, tt)
Pairwise-split R (x ∷ xs) ys (after, h) =
    let (l, r, cross) = Pairwise-split R xs ys h in
    let (al, ar) = All-split (R x) xs ys after in ((al, l), r, (ar, cross))

pub Pairwise-insert :
    {A : Type 0} (R : A → A → Type 0) (xs ys : List A) (y : A)
    → Pairwise R (xs ++ ys)
    → All (λ x. R x y) xs
    → All (R y) ys
    → Pairwise R (xs ++ (y ∷ ys))
Pairwise-insert R [] ys y h front back = (back, h)
Pairwise-insert R (x ∷ xs) ys y (after, h) front back =
    let (al, ar) = All-split (R x) xs ys after in
    (All-++ (R x) xs (y ∷ ys) al (front.0, ar), Pairwise-insert R xs ys y h front.1 back)
