-- ===== src/Store/Collect.antt =====
-- Garbage collection moves the dead nodes to the free list and keeps the others.
use ucdd.Base.{
  ℕ, ◌+◌, ◌≡◌, refl, sym, ap, arith, inl, inr, Bool, if◌then◌else◌, Bool-cases, ◌==◌, List, [], ◌∷◌,
  ◌++◌, Option, none, some, length,
}
use ucdd.Cache.Laws.{All}
use ucdd.Store.{
  Cell, SubTable, NodeManager, sweep, sweep_buckets, sweep_table, sweep_tables, cdd_gbc_nodemanager,
}

-- The nodes of the buckets, and of all tables, in the order of the sweep.
abbrev pub nodes_of : {A : Type 0} → List (List (Cell A)) → List (Cell A)
nodes_of [] = []
nodes_of (chain ∷ chains) = chain ++ nodes_of chains

abbrev pub slot_nodes : {A : Type 0} → Option (SubTable A) → List (Cell A)
slot_nodes none = []
slot_nodes (some tbl) = nodes_of tbl.hash

abbrev pub nodes_in : {A : Type 0} → List (Option (SubTable A)) → List (Cell A)
nodes_in [] = []
nodes_in (tbl ∷ tbls) = slot_nodes tbl ++ nodes_in tbls

-- Pushed one after the other.
unfoldable pub push_all : List ℕ → List ℕ → List ℕ
push_all [] free = free
push_all (a ∷ rest) free = push_all rest (a ∷ free)

push_all-++ : (xs ys free : List ℕ) → push_all (xs ++ ys) free ≡ push_all ys (push_all xs free)
unfolding push_all
push_all-++ [] ys free = refl
push_all-++ (x ∷ xs) ys free = push_all-++ xs ys (x ∷ free)

pub length-push_all : (xs free : List ℕ) → length (push_all xs free) ≡ length free + length xs
unfolding push_all
length-push_all [] free = omega arith
length-push_all (x ∷ xs) free = omega (arith, length-push_all xs (x ∷ free))

module _ {A : Type 0} (refs : ℕ → ℕ) where
  abbrev pub is_garbage : Cell A → Bool
  is_garbage n = refs n.address == 0

  -- The nodes that are referenced, and the addresses of the others.
  unfoldable pub live : List (Cell A) → List (Cell A)
  live [] = []
  live (n ∷ ns) = let rest = live ns in if is_garbage n then rest else n ∷ rest

  unfoldable pub dead : List (Cell A) → List ℕ
  dead [] = []
  dead (n ∷ ns) = let rest = dead ns in if is_garbage n then n.address ∷ rest else rest

  pub live-++ : (xs ys : List (Cell A)) → live (xs ++ ys) ≡ live xs ++ live ys
  unfolding live
  live-++ [] ys = refl
  live-++ (x ∷ xs) ys = elim (Bool-cases (is_garbage x)) [
    | inl e ↦ rw (live-++ xs ys, e) refl
    | inr e ↦ rw (live-++ xs ys, e) refl
  ]

  pub dead-++ : (xs ys : List (Cell A)) → dead (xs ++ ys) ≡ dead xs ++ dead ys
  unfolding dead
  dead-++ [] ys = refl
  dead-++ (x ∷ xs) ys = elim (Bool-cases (is_garbage x)) [
    | inl e ↦ rw (dead-++ xs ys, e) refl
    | inr e ↦ rw (dead-++ xs ys, e) refl
  ]

  sweep_lem :
      (ns : List (Cell A)) (free : List ℕ) → sweep refs ns free ≡ (live ns, push_all (dead ns) free)
  unfolding sweep live dead push_all
  sweep_lem [] free = refl
  sweep_lem (n ∷ ns) free = elim (Bool-cases (is_garbage n)) [
    | inl e ↦ rw (e, sweep_lem ns (n.address ∷ free)) refl
    | inr e ↦ rw (e, sweep_lem ns free) refl
  ]

  buckets_lem :
      (chains : List (List (Cell A))) (free : List ℕ)
      → (nodes_of (sweep_buckets refs chains free).0 ≡ live (nodes_of chains))
        × ((sweep_buckets refs chains free).1 ≡ push_all (dead (nodes_of chains)) free)
  unfolding sweep_buckets live dead push_all
  buckets_lem [] free = (refl, refl)
  buckets_lem (chain ∷ chains) free =
      let (kept, freed) = buckets_lem chains (push_all (dead chain) free) in
      (
        rw (sweep_lem chain free, live-++ chain (nodes_of chains)) (ap (λ x. live chain ++ x) kept),
        rw
            (
              sweep_lem chain free,
              dead-++ chain (nodes_of chains),
              push_all-++ (dead chain) (dead (nodes_of chains)) free,
            )
            freed,
      )

  split-length : (ns : List (Cell A)) → length (live ns) + length (dead ns) ≡ length ns
  unfolding live dead
  split-length [] = refl
  split-length (n ∷ ns) = elim (Bool-cases (is_garbage n)) [
    | inl e ↦ rw e (omega (arith, split-length ns))
    | inr e ↦ rw e (omega (arith, split-length ns))
  ]

  dead-live : (ns : List (Cell A)) → length (dead (live ns)) ≡ 0
  unfolding live dead
  dead-live [] = refl
  dead-live (n ∷ ns) = elim (Bool-cases (is_garbage n)) [
    | inl e ↦ rw e (dead-live ns)
    | inr e ↦ rw (e, e) (dead-live ns)
  ]

  none_dead : (ns : List (Cell A)) → length (dead ns) ≡ 0 → (live ns ≡ ns) × (dead ns ≡ [])
  unfolding live dead
  none_dead [] h = (refl, refl)
  none_dead (n ∷ ns) h = elim (Bool-cases (is_garbage n)) [
    | inl e ↦ absurd (ground (arith, e, h))
    | inr e ↦ let (l, d) = none_dead ns (ground (arith, e, h)) in (rw (e, l) refl, rw (e, d) refl)
  ]

  -- The counters of a table are right.
  abbrev pub IsCountedTable : Option (SubTable A) → Type 0
  IsCountedTable none = Unit
  IsCountedTable (some tbl) =
      (tbl.deadcnt ≡ length (dead (nodes_of tbl.hash))) × (tbl.keys ≡ length (nodes_of tbl.hash))

  -- The counters of a manager are right.
  pub record IsCounted (man : NodeManager A) : Type 0 where
    pub tables : All IsCountedTable man.subtables
    pub garbage : man.deadcnt ≡ length (dead (nodes_in man.subtables))
    pub room : man.freecnt ≡ length man.free

  abbrev Swept : Option (SubTable A) → List ℕ → Type 0
  Swept tbl free =
      (slot_nodes (sweep_table refs tbl free).0 ≡ live (slot_nodes tbl))
      × ((sweep_table refs tbl free).1 ≡ push_all (dead (slot_nodes tbl)) free)
      × IsCountedTable (sweep_table refs tbl free).0

  table_lem : (tbl : Option (SubTable A)) (free : List ℕ) → IsCountedTable tbl → Swept tbl free
  unfolding sweep_table live dead push_all
  table_lem none free h = (refl, refl, tt)
  table_lem (some tbl) free (d, k) = elim (Bool-cases (tbl.deadcnt == 0)) [
    | inl e ↦
        let (l, n) = none_dead (nodes_of tbl.hash) (ground arith) in rw e (sym l, rw n refl, (d, k))
    | inr e ↦
        let (kept, freed) = buckets_lem tbl.hash free in
        rw e (
          kept,
          freed,
          (
            rw kept (sym (dead-live (nodes_of tbl.hash))),
            rw kept (omega (arith, split-length (nodes_of tbl.hash))),
          ),
        )
  ]

  tables_lem :
      (tbls : List (Option (SubTable A))) (free : List ℕ)
      → All IsCountedTable tbls
      → (nodes_in (sweep_tables refs tbls free).0 ≡ live (nodes_in tbls))
        × ((sweep_tables refs tbls free).1 ≡ push_all (dead (nodes_in tbls)) free)
        × All IsCountedTable (sweep_tables refs tbls free).0
  unfolding sweep_tables live dead push_all
  tables_lem [] free h = (refl, refl, tt)
  tables_lem (tbl ∷ tbls) free h =
      let (kept, freed, counted) = table_lem tbl free h.0 in
      let (kept', freed', counted') = tables_lem tbls (push_all (dead (slot_nodes tbl)) free) h.1 in
      (
        rw (freed, kept, kept', live-++ (slot_nodes tbl) (nodes_in tbls)) refl,
        rw
            (
              freed,
              freed',
              dead-++ (slot_nodes tbl) (nodes_in tbls),
              push_all-++ (dead (slot_nodes tbl)) (dead (nodes_in tbls)) free,
            )
            refl,
        rw freed (counted, counted'),
      )

  -- What garbage collection does to a manager.
  pub record Collected (man man' : NodeManager A) : Type 0 where
    pub kept : nodes_in man'.subtables ≡ live (nodes_in man.subtables)
    pub freed : man'.free ≡ push_all (dead (nodes_in man.subtables)) man.free
    pub counted : IsCounted man'

  -- On a manager whose counters are right, garbage collection keeps the referenced nodes in their
  -- order, pushes the addresses of all others to the free list, and leaves right counters.
  pub gbc-Collected :
      (man : NodeManager A) → IsCounted man → Collected man (cdd_gbc_nodemanager refs man)
  unfolding cdd_gbc_nodemanager
  gbc-Collected man h =
      let (kept, freed, counted) = tables_lem man.subtables man.free h.tables in
      record {
        kept = kept;
        freed = freed;
        counted = record {
          tables = counted;
          garbage = rw kept (sym (dead-live (nodes_in man.subtables)));
          room = rw freed (
              omega (
                arith,
                h.room,
                h.garbage,
                length-push_all (dead (nodes_in man.subtables)) man.free,
              ));
        };
      }
