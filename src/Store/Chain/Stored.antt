-- ===== src/Store/Chain/Stored.antt =====
-- A sorted chain stands for a map from children to nodes, and stays sorted, so that no node is there
-- twice.
use ucdd.Base.{
  ℕ, ◌≡◌, refl, sym, ◌∙◌, ap, arith, inl, inr, Bool, true, false, ◌&&◌, ◌==◌, if◌then◌else◌,
  Bool-cases, List, [], ◌∷◌, ◌++◌, Option, none, some,
}
use ucdd.Cache.Laws.{All}
use ucdd.Store.{Cell}
use ucdd.Store.Chain.{BddNode, find_position, node_at, link_node, unique_node}
use ucdd.Store.Chain.Sorted.{
  is_before, Before, IsSorted, Starts, Split, find_position-Split, Pairwise-split, Pairwise-insert,
}

-- What a chain stands for: the address of the node with these children.
abbrev pub same_children : ℕ → ℕ → Cell BddNode → Bool
same_children low high n = low == n.content.low && high == n.content.high

unfoldable pub stored : ℕ → ℕ → List (Cell BddNode) → Option ℕ
stored low high [] = none
stored low high (n ∷ ns) =
    let rest = stored low high ns in if same_children low high n then some n.address else rest

if_none :
    {A : Type 0} (b : Bool) (a : A) (r : Option A)
    → (if b then some a else r) ≡ none
    → (b ≡ false) × (r ≡ none)
if_none true a r h = cc
if_none false a r h = (refl, h)

-- The new node, and that it stands before what it did not pass.
abbrev new_node : ℕ → ℕ → ℕ → Cell BddNode
new_node fresh low high = record { address = fresh; content = record { low = low; high = high } }

after_new :
    (fresh low high : ℕ) (n : Cell BddNode) (ns : List (Cell BddNode))
    → Before (new_node fresh low high) n
    → All (Before n) ns
    → All (Before (new_node fresh low high)) ns
unfolding is_before
after_new fresh low high n [] e h = tt
after_new fresh low high n (m ∷ ns) e h =
    (ground (arith, e, h.0), after_new fresh low high n ns e h.1)

rest_after :
    (fresh low high : ℕ) (rest : List (Cell BddNode))
    → Starts low high rest
    → IsSorted rest
    → node_at low high rest ≡ none
    → All (Before (new_node fresh low high)) rest
unfolding is_before node_at
rest_after fresh low high [] s h e = tt
rest_after fresh low high (n ∷ ns) s (after, h) e =
    let differ : same_children low high n ≡ false =
      (if_none (same_children low high n) n.address none e).0 in
    let first : Before (new_node fresh low high) n = ground (arith, s, differ) in
    (first, after_new fresh low high n ns first after)

-- No node that stands before or after the place has these children.
stored-before :
    (low high : ℕ) (ns : List (Cell BddNode))
    → All (λ n. is_before low high n ≡ true) ns
    → stored low high ns ≡ none
unfolding stored is_before
stored-before low high [] h = refl
stored-before low high (n ∷ ns) (e, h) =
    let differ : same_children low high n ≡ false = ground (arith, e) in
    rw differ (stored-before low high ns h)

stored-after :
    (fresh low high : ℕ) (ns : List (Cell BddNode))
    → All (Before (new_node fresh low high)) ns
    → stored low high ns ≡ none
unfolding stored is_before
stored-after fresh low high [] h = refl
stored-after fresh low high (n ∷ ns) (e, h) =
    let differ : same_children low high n ≡ false = ground (arith, e) in
    rw differ (stored-after fresh low high ns h)

stored-skip :
    (low high : ℕ) (xs ys : List (Cell BddNode))
    → stored low high xs ≡ none
    → stored low high (xs ++ ys) ≡ stored low high ys
unfolding stored
stored-skip low high [] ys h = refl
stored-skip low high (n ∷ ns) ys h =
    let (differ, later) = if_none (same_children low high n) n.address (stored low high ns) h in
    rw differ (stored-skip low high ns ys later)

stored-node_at :
    (low high : ℕ) (rest : List (Cell BddNode))
    → Starts low high rest
    → IsSorted rest
    → stored low high rest ≡ node_at low high rest
unfolding stored node_at is_before
stored-node_at low high [] s h = refl
stored-node_at low high (n ∷ ns) s (after, h) = elim (Bool-cases (same_children low high n)) [
  | inl e ↦ rw e refl
  | inr e ↦
      let first : Before (new_node 0 low high) n = ground (arith, s, e) in
      rw e (stored-after 0 low high ns (after_new 0 low high n ns first after))
]

stored-insert :
    (l h : ℕ) (n : Cell BddNode) (xs ys : List (Cell BddNode))
    → same_children l h n ≡ false
    → stored l h (xs ++ (n ∷ ys)) ≡ stored l h (xs ++ ys)
unfolding stored
stored-insert l h n [] ys e = rw e refl
stored-insert l h n (x ∷ xs) ys e = rw (stored-insert l h n xs ys e) refl

stored-new :
    (fresh low high : ℕ) (ys : List (Cell BddNode))
    → stored low high (new_node fresh low high ∷ ys) ≡ some fresh
unfolding stored
stored-new fresh low high ys = ground arith

abbrev pub or_else : {A : Type 0} → Option A → A → A
or_else none x = x
or_else (some y) x = y

-- A chain that is sorted, and has all that the old one has and the node with the new children.
abbrev pub Stores : ℕ → ℕ → ℕ → List (Cell BddNode) → ℕ × List (Cell BddNode) → Type 0
Stores fresh low high chain (a, chain') =
    IsSorted chain'
    × (a ≡ or_else (stored low high chain) fresh)
    × ((l h : ℕ) → stored l h chain' ≡ (if l == low && h == high then some a else stored l h chain))

link-Stores :
    (fresh low high : ℕ) (chain before rest : List (Cell BddNode)) (found : Option ℕ)
    → IsSorted chain
    → Split low high chain before rest
    → All (λ n. is_before low high n ≡ true) before
    → IsSorted rest
    → node_at low high rest ≡ found
    → stored low high chain ≡ found
    → Stores fresh low high chain (link_node fresh low high chain (before, rest) found)
unfolding link_node
link-Stores fresh low high chain before rest (some a) sorted q front tail at e = (
  sorted,
  rw e refl,
  λ l h. elim (Bool-cases (l == low && h == high)) [
    | inl same ↦
        let lq : l ≡ low = ground arith in
        let hq : h ≡ high = ground arith in rw same (rw (lq, hq) e)
    | inr differ ↦ rw differ refl
  ],
)
link-Stores fresh low high chain before rest none sorted q front tail at e =
    let new = new_node fresh low high in
    let whole : IsSorted (before ++ rest) = rw q.whole sorted in
    (
      Pairwise-insert Before before rest new whole front
          (rest_after fresh low high rest q.back tail at),
      rw e refl,
      λ l h. elim (Bool-cases (l == low && h == high)) [
        | inl same ↦
            let lq : l ≡ low = ground arith in
            let hq : h ≡ high = ground arith in
            rw same (
              rw (lq, hq)
                (stored-skip low high before (new ∷ rest) (stored-before low high before front)
                  ∙ stored-new fresh low high rest))
        | inr differ ↦
            rw differ (stored-insert l h new before rest differ ∙ ap (stored l h) q.whole)
      ],
    )

-- On a sorted chain: the node with the children is found, and otherwise the new one is returned; the
-- chain stays sorted; from then on the children have the node that is returned, and all others what
-- they had.
pub unique_node-Stores :
    (fresh low high : ℕ) (chain : List (Cell BddNode))
    → IsSorted chain
    → Stores fresh low high chain (unique_node fresh low high chain)
unfolding unique_node
unique_node-Stores fresh low high chain sorted =
    let q = find_position-Split low high chain sorted in
    let before = (find_position low high chain).0 in
    let rest = (find_position low high chain).1 in
    let whole : IsSorted (before ++ rest) = rw q.whole sorted in
    let (left, tail, cross) = Pairwise-split Before before rest whole in
    link-Stores fresh low high chain before rest (node_at low high rest) sorted q q.front tail refl
      (ap (stored low high) (sym q.whole)
        ∙ stored-skip low high before rest (stored-before low high before q.front)
        ∙ stored-node_at low high rest q.back tail)
