-- ===== src/Cache.antt =====
-- The operation cache, src/cache.c and src/cache.h: a hash table without collision lists.
-- A NULL pointer is `none`; the entries hold diagrams for the pointers that the C table holds.
pub mod Laws
use ucdd.Base.{
  ℕ, zero, suc, ◌%◌, Bool, true, false, ◌&&◌, ◌||◌, not, ◌==◌, Option, none, some, List, [], ◌∷◌,
  map,
}
use ucdd.Base.{length, get_elem?, set, replicate, if◌then◌else◌}
use ucdd.Dd.{Dd, Node, node_of, same}

-- `CddCacheData`: the arguments, the result and the operation.
pub record Entry : Type 0 where
  pub a : Option Dd
  pub b : Option Dd
  pub res : Option Dd
  pub c : ℕ

abbrev pub Cache : Type 0
Cache = List Entry

-- Memory filled with zeroes.
abbrev pub zeroed : Entry
zeroed = record { a = none; b = none; res = none; c = 0 }

-- `CddCache_init`: `memory` is what `malloc` returned, with contents that are not initialised.
-- `none` is the error CDD_MEMORY.
unfoldable pub init : Option (List Entry) → Option Cache
init none = none
init (some memory) = some (map (λ e. record { a = none; b = none; res = e.res; c = e.c }) memory)

unfoldable pub reset : Cache → Cache
reset cache = replicate (length cache) zeroed

-- A dead diagram has no references left.
abbrev pub is_dead : (Node → ℕ) → Option Dd → Bool
is_dead refs none = false
is_dead refs (some d) = refs (node_of d) == 0

-- The body of the loop, on an entry whose argument is `n->a`.
unfoldable pub flush_argument : (Node → ℕ) → Option Dd → Entry → Entry
flush_argument refs none e = e
flush_argument refs (some d) e =
    if refs (node_of d) == 0 || is_dead refs e.res || is_dead refs e.b
    then record { a = none; b = none; res = e.res; c = e.c }
    else e

unfoldable pub flush_entry : (Node → ℕ) → Entry → Entry
unfolding flush_argument
flush_entry refs e = flush_argument refs e.a e

unfoldable pub flush : (Node → ℕ) → Cache → Cache
unfolding flush_entry
flush refs cache = map (flush_entry refs) cache

-- `CddCache_lookup`: the index of the entry, and the entry. An empty table has no entry.
unfoldable pub lookup : Cache → ℕ → Option (ℕ × Entry)
lookup cache hash = elim (get_elem? cache (hash % length cache)) [
  | none ↦ none
  | some e ↦ some (hash % length cache, e)
]

-- The test of a hit, on the three fields that the operations compare.
abbrev pub holds : Option Dd → Dd → Bool
holds none d = false
holds (some x) d = same x d
