-- ===== src/Tests/StoreExamples.antt =====
-- The theorems on the node managers at a table of two nodes, one of which is dead.
use ucdd.Base.{occurs, ℕ, ◌+◌, ◌*◌, ◌<◌, ◌≡◌, refl, arith, ◌==◌, if◌then◌else◌, [], ◌∷◌, some, none}
use ucdd.Store.{Cell, SubTable, NodeManager, cdd_gbc_nodemanager, cdd_alloc_node, cdd_rehash}
use ucdd.Store.Collect.{nodes_of, dead, IsCounted, Collected, gbc-Collected}
use ucdd.Store.Alloc.{at_address, IsDistinct, IsFresh, Allocated, alloc_node-Allocated}
use ucdd.Store.Rehash.{IsPlaced, rehash-IsPlaced}
use ucdd.Store.Chain.{BddNode, unique_node}
use ucdd.Store.Chain.Sorted.{is_before, IsSorted}
use ucdd.Store.Chain.Stored.{Stores, unique_node-Stores}

abbrev first : Cell BddNode
first = record { address = 8; content = record { low = 1; high = 0 } }

abbrev second : Cell BddNode
second = record { address = 16; content = record { low = 1; high = 1 } }

abbrev hash_value : Cell BddNode → ℕ
hash_value n = n.content.low + n.content.high

-- The node at the address 8 has no references.
abbrev counts : ℕ → ℕ
counts a = if a == 8 then 0 else 1

abbrev table : SubTable BddNode
table = record {
  level = 0;
  deadcnt = 1;
  keys = 2;
  maxkeys = 2;
  shift = 1;
  buckets = 2;
  hash = (first ∷ []) ∷ (second ∷ []) ∷ [];
}

abbrev manager : NodeManager BddNode
manager = record {
  freecnt = 0;
  chunkcnt = 1;
  alloccnt = 2;
  usedcnt = 1;
  deadcnt = 1;
  gbccnt = 0;
  free = [];
  subtables = none ∷ some table ∷ [];
}

manager-IsCounted : IsCounted counts manager
unfolding dead
manager-IsCounted = record { tables = (tt, ((refl, refl), tt)); garbage = refl; room = refl }

gbc-Collected_example : Collected counts manager (cdd_gbc_nodemanager counts manager)
gbc-Collected_example = gbc-Collected counts manager manager-IsCounted

manager-IsDistinct : IsDistinct counts manager
unfolding occurs at_address
manager-IsDistinct a = ground arith

new_chunk : IsFresh counts (24 ∷ 32 ∷ []) manager
unfolding occurs at_address
new_chunk a = ground arith

alloc_node-Allocated_example :
    (a : ℕ) × (man' : NodeManager BddNode) × (cdd_alloc_node counts (24 ∷ 32 ∷ []) manager
      ≡ some (a, man'))
    × Allocated counts manager a man'
alloc_node-Allocated_example =
    alloc_node-Allocated counts (24 ∷ 32 ∷ []) manager (manager-IsCounted, manager-IsDistinct)
      new_chunk (ground arith)

abbrev Descending : Cell BddNode → Cell BddNode → Type 0
Descending n m = hash_value m < hash_value n

table-IsPlaced : IsPlaced hash_value Descending table
table-IsPlaced = record {
  size = refl;
  placed = ((refl, tt), ((refl, tt), tt));
  ordered = ((tt, tt), ((tt, tt), tt));
}

rehash-IsPlaced_example :
    IsPlaced hash_value Descending (cdd_rehash hash_value table)
    × ((cdd_rehash hash_value table).buckets ≡ 2 * 2)
    × ((a : ℕ)
        → at_address a (nodes_of (cdd_rehash hash_value table).hash)
          ≡ at_address a (nodes_of table.hash))
rehash-IsPlaced_example = rehash-IsPlaced hash_value Descending table table-IsPlaced (ground arith)

chain-IsSorted : IsSorted (second ∷ first ∷ [])
unfolding is_before
chain-IsSorted = ((refl, tt), (tt, tt))

unique_node-Stores_example :
    Stores 24 1 2 (second ∷ first ∷ []) (unique_node 24 1 2 (second ∷ first ∷ []))
unique_node-Stores_example = unique_node-Stores 24 1 2 (second ∷ first ∷ []) chain-IsSorted
