-- ===== src/Store.antt =====
-- The node managers of src/kernel.c: the unique tables of one kind of nodes, the free list, and the
-- garbage collection. The chain of a bucket is the list of its nodes; the sentinel is the end of
-- the list. A node has its address; reference counts are read by address. The clocks that measure
-- times and the handlers are left out.
pub mod Refs
pub mod Collect
pub mod Alloc
pub mod Rehash
pub mod Chain
use ucdd.Base.{
  ℕ, zero, suc, ◌+◌, ◌-◌, ◌*◌, ◌/◌, ◌%◌, ◌^◌, Bool, if◌then◌else◌, ◌==◌, ltb, List, [], ◌∷◌, ◌++◌,
  Option, none, some, length, replicate, set,
}

-- A node, with its contents of the type `A`.
pub record Cell (A : Type 0) : Type 0 where
  pub address : ℕ
  pub content : A

pub record SubTable (A : Type 0) : Type 0 where
  pub level : ℕ
  pub deadcnt : ℕ
  pub keys : ℕ
  pub maxkeys : ℕ
  pub shift : ℕ
  pub buckets : ℕ
  pub hash : List (List (Cell A))

-- `NodeManager`. The free list is a list of addresses.
pub record NodeManager (A : Type 0) : Type 0 where
  pub freecnt : ℕ
  pub chunkcnt : ℕ
  pub alloccnt : ℕ
  pub usedcnt : ℕ
  pub deadcnt : ℕ
  pub gbccnt : ℕ
  pub free : List ℕ
  pub subtables : List (Option (SubTable A))

-- `HASH_DENSITY` is an argument.
unfoldable pub cdd_alloc_subtable :
    {A : Type 0} → ℕ → ℕ → NodeManager A → SubTable A × NodeManager A
cdd_alloc_subtable {A} density level man =
    let tbl : SubTable A = record {
      level = level;
      deadcnt = 0;
      keys = 0;
      maxkeys = 256 * density;
      shift = 24;
      buckets = 256;
      hash = replicate 256 [];
    } in
    (tbl, record man { subtables = set man.subtables level (some tbl) })

-- A new chunk, whose nodes have the addresses `chunk`.
unfoldable pub cdd_alloc_chunk : {A : Type 0} → List ℕ → NodeManager A → NodeManager A
cdd_alloc_chunk chunk man = record man {
  free = chunk ++ man.free;
  freecnt = man.freecnt + length chunk;
  chunkcnt = suc man.chunkcnt;
  alloccnt = man.alloccnt + length chunk;
}

module _ {A : Type 0} (refs : ℕ → ℕ) where
  -- The loop over a chain: a dead node goes to the front of the free list.
  unfoldable pub sweep : List (Cell A) → List ℕ → List (Cell A) × List ℕ
  sweep [] free = ([], free)
  sweep (n ∷ ns) free =
      let dead = refs n.address == 0 in
      let (kept, free') = sweep ns (if dead then n.address ∷ free else free) in
      if dead then (kept, free') else (n ∷ kept, free')

  -- The loop over the buckets.
  unfoldable pub sweep_buckets : List (List (Cell A)) → List ℕ → List (List (Cell A)) × List ℕ
  unfolding sweep
  sweep_buckets [] free = ([], free)
  sweep_buckets (chain ∷ chains) free =
      let (kept, free') = sweep chain free in
      let (rest, free'') = sweep_buckets chains free' in (kept ∷ rest, free'')

  unfoldable pub sweep_table : Option (SubTable A) → List ℕ → Option (SubTable A) × List ℕ
  unfolding sweep_buckets
  sweep_table none free = (none, free)
  sweep_table (some tbl) free = if tbl.deadcnt == 0 then (some tbl, free) else (
    some (record tbl {
      hash = (sweep_buckets tbl.hash free).0;
      keys = tbl.keys - tbl.deadcnt;
      deadcnt = 0;
    }),
    (sweep_buckets tbl.hash free).1,
  )

  -- The loop over the levels. In the source it runs up to `cdd_levelcnt`, the length of the array of a
  -- manager that is kept up to date; here it ends with the array. The array of the largest arity, which
  -- `cdd_add_clocks` leaves short (Managers), is read beyond its end there.
  unfoldable pub sweep_tables :
      List (Option (SubTable A)) → List ℕ → List (Option (SubTable A)) × List ℕ
  unfolding sweep_table
  sweep_tables [] free = ([], free)
  sweep_tables (tbl ∷ tbls) free =
      let (tbl', free') = sweep_table tbl free in
      let (rest, free'') = sweep_tables tbls free' in (tbl' ∷ rest, free'')

  unfoldable pub cdd_gbc_nodemanager : NodeManager A → NodeManager A
  unfolding sweep_tables
  cdd_gbc_nodemanager man = record man {
    subtables = (sweep_tables man.subtables man.free).0;
    free = (sweep_tables man.subtables man.free).1;
    freecnt = man.freecnt + man.deadcnt;
    deadcnt = 0;
    gbccnt = suc man.gbccnt;
  }

  -- `cdd_alloc_node` when there is no free node: garbage is collected if more than a fifth of the
  -- nodes is dead, otherwise a chunk is allocated.
  unfoldable pub make_room : List ℕ → NodeManager A → NodeManager A
  unfolding cdd_gbc_nodemanager cdd_alloc_chunk
  make_room chunk man =
      if ltb (20 * man.alloccnt) (100 * man.deadcnt)
      then cdd_gbc_nodemanager man
      else cdd_alloc_chunk chunk man

  -- The node is taken from the free list; `none` is the read through a null pointer.
  unfoldable pub take_free : List ℕ → NodeManager A → Option (ℕ × NodeManager A)
  take_free [] man = none
  take_free (a ∷ free) man =
      some (a, record man { free = free; usedcnt = suc man.usedcnt; freecnt = man.freecnt - 1 })

  unfoldable pub alloc_from : List ℕ → List ℕ → NodeManager A → Option (ℕ × NodeManager A)
  unfolding make_room take_free
  alloc_from chunk [] man = take_free (make_room chunk man).free (make_room chunk man)
  alloc_from chunk (a ∷ free) man = take_free (a ∷ free) man

  -- The flush of the operation caches before the collection is `flush` of Cache.
  unfoldable pub cdd_alloc_node : List ℕ → NodeManager A → Option (ℕ × NodeManager A)
  unfolding alloc_from
  cdd_alloc_node chunk man = alloc_from chunk man.free man

-- The loop over the chain of an old bucket: `shift` is the new one, and an odd number of the new
-- bucket sends a node to the second of the two chains.
unfoldable pub split_chain :
    {A : Type 0} → (Cell A → ℕ) → ℕ → List (Cell A) → List (Cell A) × List (Cell A)
split_chain hashfunc shift [] = ([], [])
split_chain hashfunc shift (n ∷ ns) =
    let (p, q) = split_chain hashfunc shift ns in
    if (hashfunc n / 2 ^ shift) % 2 == 1 then (p, n ∷ q) else (n ∷ p, q)

-- The loop over the old buckets: the buckets 2 * i and 2 * i + 1 get the chain of the bucket i.
unfoldable pub split_buckets :
    {A : Type 0} → (Cell A → ℕ) → ℕ → List (List (Cell A)) → List (List (Cell A))
unfolding split_chain
split_buckets hashfunc shift [] = []
split_buckets hashfunc shift (chain ∷ chains) =
    let (p, q) = split_chain hashfunc shift chain in p ∷ q ∷ split_buckets hashfunc shift chains

-- `cdd_rehash`. The hash function is the one of the manager.
unfoldable pub cdd_rehash : {A : Type 0} → (Cell A → ℕ) → SubTable A → SubTable A
unfolding split_buckets
cdd_rehash hashfunc tbl = record tbl {
  buckets = tbl.buckets * 2;
  maxkeys = tbl.maxkeys * 2;
  shift = tbl.shift - 1;
  hash = split_buckets hashfunc (tbl.shift - 1) tbl.hash;
}
