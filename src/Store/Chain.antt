-- ===== src/Store/Chain.antt =====
-- The unique table of the BDD nodes: the search in a chain of `cdd_make_bdd_node`, and the new node.
-- A chain decreases in the addresses of the low children and, among equal ones, in the pointers to
-- the high children. The sentinel has zeroes in their place, which no pointer is below.
pub mod Sorted
pub mod Stored
use ucdd.Base.{
  ℕ, ◌+◌, Bool, true, false, ◌&&◌, ◌==◌, if◌then◌else◌, ltb, List, [], ◌∷◌, ◌++◌, Option, none,
  some,
}
use ucdd.Store.{Cell}

-- `low` and `high` of `bddNode`, as words.
pub record BddNode : Type 0 where
  pub low : ℕ
  pub high : ℕ

-- `while (low < (*p)->low)`: the nodes that are passed, and the rest of the chain.
unfoldable pub pass_low : ℕ → List (Cell BddNode) → List (Cell BddNode) × List (Cell BddNode)
pass_low low [] = ([], [])
pass_low low (n ∷ ns) =
    let (passed, rest) = pass_low low ns in
    if ltb low n.content.low then (n ∷ passed, rest) else ([], n ∷ ns)

-- `while (low == (*p)->low && high < (*p)->high)`
unfoldable pub pass_high : ℕ → ℕ → List (Cell BddNode) → List (Cell BddNode) × List (Cell BddNode)
pass_high low high [] = ([], [])
pass_high low high (n ∷ ns) =
    let (passed, rest) = pass_high low high ns in
    if low == n.content.low && ltb high n.content.high then (n ∷ passed, rest) else ([], n ∷ ns)

-- The position `p` after the two loops.
unfoldable pub find_position :
    ℕ → ℕ → List (Cell BddNode) → List (Cell BddNode) × List (Cell BddNode)
unfolding pass_low pass_high
find_position low high chain =
    let (before, rest) = pass_low low chain in
    let (more, rest') = pass_high low high rest in (before ++ more, rest')

-- `low == (*p)->low && high == (*p)->high`: the address of the node that is there already.
unfoldable pub node_at : ℕ → ℕ → List (Cell BddNode) → Option ℕ
node_at low high [] = none
node_at low high (n ∷ ns) =
    if low == n.content.low && high == n.content.high then some n.address else none

-- The node that is there, or a new one, which the position points to from then on.
unfoldable pub link_node :
    ℕ
    → ℕ
    → ℕ
    → List (Cell BddNode)
    → List (Cell BddNode) × List (Cell BddNode)
    → Option ℕ
    → ℕ × List (Cell BddNode)
link_node fresh low high chain place (some a) = (a, chain)
link_node fresh low high chain place none = (
  fresh,
  place.0 ++ (record { address = fresh; content = record { low = low; high = high } } ∷ place.1),
)

-- The search in the chain, and the insertion of a node with the address `fresh` if there is none:
-- the address of the node, and the chain.
unfoldable pub unique_node : ℕ → ℕ → ℕ → List (Cell BddNode) → ℕ × List (Cell BddNode)
unfolding find_position node_at link_node
unique_node fresh low high chain =
    let place = find_position low high chain in
    link_node fresh low high chain place (node_at low high place.1)
