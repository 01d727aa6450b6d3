-- ===== src/Store/Alloc.antt =====
-- `cdd_alloc_node` always finds a node, and one that is in no table.
use ucdd.Base.{
  occurs, occurs-++, ℕ, suc, ◌+◌, ◌-◌, ◌*◌, ◌≤◌, ◌<◌, ◌≡◌, refl, sym, ap, subst, arith, ◌⊎◌, inl,
  inr, true, if◌then◌else◌, Bool-cases, ◌==◌, ltb, List, [], ◌∷◌, some, length, length-append,
}
use ucdd.Store.{
  Cell, NodeManager, cdd_alloc_chunk, cdd_gbc_nodemanager, make_room, take_free, alloc_from,
  cdd_alloc_node,
}
use ucdd.Store.Collect.{
  nodes_in, live, dead, is_garbage, push_all, length-push_all, IsCounted, Collected, gbc-Collected,
}

-- How many nodes have an address.
unfoldable pub at_address : {A : Type 0} → ℕ → List (Cell A) → ℕ
at_address a [] = 0
at_address a (n ∷ ns) = let rest = at_address a ns in if n.address == a then suc rest else rest

occurs-push_all :
    (a : ℕ) (xs free : List ℕ) → occurs a (push_all xs free) ≡ occurs a free + occurs a xs
unfolding push_all occurs
occurs-push_all a [] free = omega arith
occurs-push_all a (x ∷ xs) free = ground (arith, occurs-push_all a xs (x ∷ free))

module _ {A : Type 0} (refs : ℕ → ℕ) where
  at_address-split :
      (a : ℕ) (ns : List (Cell A))
      → at_address a (live refs ns) + occurs a (dead refs ns) ≡ at_address a ns
  unfolding live dead at_address occurs
  at_address-split a [] = refl
  at_address-split a (n ∷ ns) = elim (Bool-cases (is_garbage refs n)) [
    | inl e ↦ rw e (ground (arith, at_address-split a ns))
    | inr e ↦ rw e (ground (arith, at_address-split a ns))
  ]

  -- No address is in use twice, among the free nodes and those in the tables.
  abbrev pub IsDistinct : NodeManager A → Type 0
  IsDistinct man = (a : ℕ) → occurs a man.free + at_address a (nodes_in man.subtables) ≤ 1

  -- The counters and the addresses are right.
  abbrev pub IsOrderly : NodeManager A → Type 0
  IsOrderly man = IsCounted refs man × IsDistinct man

  abbrev pub IsFresh : List ℕ → NodeManager A → Type 0
  IsFresh chunk man =
      (a : ℕ) → occurs a chunk + occurs a man.free + at_address a (nodes_in man.subtables) ≤ 1

  pub gbc-IsOrderly :
      (man : NodeManager A) → IsOrderly man → IsOrderly (cdd_gbc_nodemanager refs man)
  gbc-IsOrderly man (counted, distinct) =
      let h = gbc-Collected refs man counted in
      (
        h.counted,
        λ a.
            rw (h.freed, h.kept)
              (omega (
                arith,
                distinct a,
                occurs-push_all a (dead refs (nodes_in man.subtables)) man.free,
                at_address-split a (nodes_in man.subtables),
              )),
      )

  chunk-IsOrderly :
      (chunk : List ℕ) (man : NodeManager A)
      → IsCounted refs man
      → IsFresh chunk man
      → IsOrderly (cdd_alloc_chunk chunk man)
  unfolding cdd_alloc_chunk
  chunk-IsOrderly chunk man h fresh = (
    record {
      tables = h.tables;
      garbage = h.garbage;
      room = omega (arith, h.room, length-append chunk man.free);
    },
    λ a. omega (arith, fresh a, occurs-++ a chunk man.free),
  )

  -- The nodes that stay when a node is allocated.
  abbrev pub Keeps : NodeManager A → NodeManager A → Type 0
  Keeps man man' =
      (nodes_in man'.subtables ≡ nodes_in man.subtables)
      ⊎ (nodes_in man'.subtables ≡ live refs (nodes_in man.subtables))

  room-IsOrderly :
      (chunk : List ℕ) (man : NodeManager A)
      → IsOrderly man
      → IsFresh chunk man
      → 0 < length chunk
      → IsOrderly (make_room refs chunk man)
        × Keeps man (make_room refs chunk man)
        × (0 < length (make_room refs chunk man).free)
  unfolding make_room cdd_alloc_chunk
  room-IsOrderly chunk man good fresh some_node =
      elim (Bool-cases (ltb (20 * man.alloccnt) (100 * man.deadcnt))) [
        | inl e ↦
            let h = gbc-Collected refs man good.0 in
            rw e (gbc-IsOrderly man good, inr h.kept, space man h e good.0)
        | inr e ↦ rw e (
          chunk-IsOrderly chunk man good.0 fresh,
          inl refl,
          omega (arith, length-append chunk man.free),
        )
      ]
    where
      space :
          (man : NodeManager A)
          → Collected refs man (cdd_gbc_nodemanager refs man)
          → ltb (20 * man.alloccnt) (100 * man.deadcnt) ≡ true
          → IsCounted refs man
          → 0 < length (cdd_gbc_nodemanager refs man).free
      space man h e counted =
          let many : 20 * man.alloccnt < 100 * man.deadcnt = ground (arith, e) in
          let size = length-push_all (dead refs (nodes_in man.subtables)) man.free in
          rw h.freed (omega (arith, size, many, counted.garbage))

  -- The node that is returned was free, and is now in no table and not in the free list.
  abbrev pub Allocated : NodeManager A → ℕ → NodeManager A → Type 0
  Allocated man a man' =
      IsOrderly man'
      × Keeps man man'
      × (occurs a man'.free + at_address a (nodes_in man'.subtables) ≡ 0)

  take-Allocated :
      (man : NodeManager A) (free : List ℕ)
      → man.free ≡ free
      → 0 < length free
      → IsOrderly man
      → (a : ℕ) × (man' : NodeManager A) × (take_free refs free man ≡ some (a, man'))
        × IsOrderly man'
        × (nodes_in man'.subtables ≡ nodes_in man.subtables)
        × (occurs a man'.free + at_address a (nodes_in man'.subtables) ≡ 0)
  unfolding take_free occurs
  take-Allocated man [] same h good = absurd (omega arith)
  take-Allocated man (a ∷ free) same h (counted, distinct) =
      let d : (b : ℕ) → occurs b (a ∷ free) + at_address b (nodes_in man.subtables) ≤ 1 =
        subst (λ f. (b : ℕ) → occurs b f + at_address b (nodes_in man.subtables) ≤ 1) same
          distinct in
      let size : length man.free ≡ suc (length free) = ap length same in
      (
        a,
        record man { free = free; usedcnt = suc man.usedcnt; freecnt = man.freecnt - 1 },
        refl,
        (
          record {
            tables = counted.tables;
            garbage = counted.garbage;
            room = omega (arith, size, counted.room);
          },
          λ b. ground (arith, d b),
        ),
        refl,
        ground (arith, d a),
      )

  -- On a manager whose counters are right and whose addresses are distinct, with a chunk of at least
  -- one node that overlaps with none of them: a node is returned, it is in no table and no longer
  -- free, the tables keep all nodes or, after garbage collection, all referenced ones, and the
  -- counters and addresses are right again.
  pub alloc_node-Allocated :
      (chunk : List ℕ) (man : NodeManager A)
      → IsOrderly man
      → IsFresh chunk man
      → 0 < length chunk
      → (a : ℕ) × (man' : NodeManager A) × (cdd_alloc_node refs chunk man ≡ some (a, man'))
        × Allocated man a man'
  unfolding cdd_alloc_node alloc_from
  alloc_node-Allocated chunk man good fresh some_node = go man.free refl
    where
      go :
          (free : List ℕ)
          → man.free ≡ free
          → (a : ℕ) × (man' : NodeManager A) × (alloc_from refs chunk free man ≡ some (a, man'))
            × Allocated man a man'
      go [] same =
          let (orderly, keeps, space) = room-IsOrderly chunk man good fresh some_node in
          let (a, man', run, orderly', kept, gone) =
            take-Allocated (make_room refs chunk man) (make_room refs chunk man).free refl space
              orderly in
          (
            a,
            man',
            run,
            (
              orderly',
              subst
                  (λ ns. (ns ≡ nodes_in man.subtables) ⊎ (ns ≡ live refs (nodes_in man.subtables)))
                  (sym kept) keeps,
              gone,
            ),
          )
      go (x ∷ free) same =
          let (a, man', run, orderly', kept, gone) =
            take-Allocated man (x ∷ free) same (omega arith) good in
          (a, man', run, (orderly', inl kept, gone))
