-- ===== src/Tarjan/Populate.antt =====
-- What `populateQueue` leaves: the queue of the vertices with an edge that improves a distance.
use ucdd.Base.{
  ℕ, zero, suc, ◌<◌, ◌≤◌, ◌≡◌, ◌∙◌, ◌↔◌, ◌⊎◌, arith, Bool, true, false, ◌==◌, if◌then◌else◌, List,
  [], ◌∷◌, ◌++◌, length, Bool-cases, inl, inr, ℤ, get_or, get_or-set_self, get_or-set_ne,
  get_or-replicate, length-set, length-replicate,
}
use ucdd.Cache.Laws.{All}
use ucdd.Tarjan.Short.{HasImprovement, has_short-HasImprovement}
use ucdd.Tarjan.{
  Link, TarjanGraph, set_next, set_prev, edges_of, has_short, populate_upto, populate_queue,
}
use ucdd.Tarjan.Links.{
  next-set_next, prev-set_next, prev-set_prev, length-set_next, length-set_prev,
}
use ucdd.Tarjan.Queue.{IsQueue, IsNew, enqueue-IsQueue}

empty-IsQueue :
    (dim : ℕ) (l : List Link)
    → dim < length l
    → IsQueue dim (set_next (set_prev l dim dim) dim dim) []
empty-IsQueue dim l h =
    let h1 : dim < length (set_prev l dim dim) = omega (arith, h, length-set_prev l dim dim) in
    record {
      chain = (
        next-set_next (set_prev l dim dim) dim dim dim h1 ∙ ground arith,
        prev-set_next (set_prev l dim dim) dim dim dim h1
            ∙ prev-set_prev l dim dim dim h
            ∙ ground arith,
      );
      distinct = tt;
      vertices = tt;
      room = omega (arith, h1, length-set_next (set_prev l dim dim) dim dim);
    }

module _ (raw2bound : ℤ → ℤ) (raw_is_strict : ℤ → ℕ) (graph : TarjanGraph) where
  -- An edge that leaves the vertex improves the distance of its target.
  abbrev waits : ℕ → Bool
  waits u = has_short raw2bound raw_is_strict graph.dist u (edges_of graph u)

  -- The vertices below `n` with such an edge, in their order.
  unfoldable waiting : ℕ → List ℕ
  waiting zero = []
  waiting (suc u) = if waits u then waiting u ++ (u ∷ []) else waiting u

  waiting-IsNew : (n u : ℕ) → n ≤ u → IsNew u (waiting n)
  unfolding waiting
  waiting-IsNew zero u h = tt
  waiting-IsNew (suc n) u h = elim (Bool-cases (waits n)) [
    | inl e ↦ rw e (append (waiting n) (waiting-IsNew n u (omega arith)))
    | inr e ↦ rw e (waiting-IsNew n u (omega arith))
  ]
    where
      append : (q : List ℕ) → IsNew u q → IsNew u (q ++ (n ∷ []))
      append [] k = (λ e. omega (arith, e, h), tt)
      append (x ∷ xs) k = (k.0, append xs k.1)

  -- What holds when the first `n` vertices were treated.
  record IsPopulated (n : ℕ) (g : TarjanGraph) : Type 0 where
    queue : IsQueue graph.dim g.fifo (waiting n)
    size : length g.queued ≡ graph.dim
    bits : (u : ℕ) → u < n → get_or g.queued u false ≡ waits u
    rest : (u : ℕ) → n ≤ u → get_or g.queued u false ≡ false

  populate_upto-IsPopulated :
      (n : ℕ)
      → n ≤ graph.dim
      → graph.dim < length graph.fifo
      → IsPopulated n (populate_upto raw2bound raw_is_strict graph n)
  unfolding populate_upto waiting
  populate_upto-IsPopulated zero le room = record {
    queue = empty-IsQueue graph.dim graph.fifo room;
    size = length-replicate graph.dim false;
    bits = λ u lt. absurd (omega arith);
    rest = λ u le. get_or-replicate graph.dim u false;
  }
  populate_upto-IsPopulated (suc n) le room =
      let done = populate_upto raw2bound raw_is_strict graph n in
      let h = populate_upto-IsPopulated n (omega arith) room in
      elim (Bool-cases (waits n)) [
        | inl e ↦ rw e (record {
          queue = rw e (
              enqueue-IsQueue graph.dim done.fifo (waiting n) n h.queue (omega arith)
                (waiting-IsNew n n (omega arith)));
          size = length-set done.queued n true ∙ h.size;
          bits = λ u lt. elim (Bool-cases (n == u)) [
            | inl same ↦
                let eq : n ≡ u = ground (arith, same) in
                rw (← eq, e) (get_or-set_self done.queued n true false (omega (arith, h.size)))
            | inr apart ↦
                get_or-set_ne done.queued n u true false (λ s. ground (arith, s, apart))
                ∙ h.bits u (ground (arith, lt, apart))
          ];
          rest = λ u lt.
              get_or-set_ne done.queued n u true false (λ s. omega (arith, s, lt))
              ∙ h.rest u (omega arith);
        })
        | inr e ↦ rw e (record {
          queue = rw e h.queue;
          size = h.size;
          bits = λ u lt. elim (Bool-cases (n == u)) [
            | inl same ↦
                let eq : n ≡ u = ground (arith, same) in rw (← eq, e) (h.rest n (omega arith))
            | inr apart ↦ h.bits u (ground (arith, lt, apart))
          ];
          rest = λ u lt. h.rest u (omega arith);
        })
      ]

-- The element stands in the list.
abbrev pub Member : ℕ → List ℕ → Type 0
Member u [] = ⊥
Member u (x ∷ xs) = (u ≡ x) ⊎ Member u xs

abbrev pub IsAscending : List ℕ → Type 0
IsAscending [] = Unit
IsAscending (x ∷ xs) = All (λ y. x < y) xs × IsAscending xs

IsAscending-snoc :
    (q : List ℕ) (n : ℕ) → IsAscending q → All (λ x. x < n) q → IsAscending (q ++ (n ∷ []))
IsAscending-snoc [] n up below = (tt, tt)
IsAscending-snoc (x ∷ xs) n (low, up) (lt, below) = (snoc xs low lt, IsAscending-snoc xs n up below)
  where
    snoc : (ys : List ℕ) → All (λ y. x < y) ys → x < n → All (λ y. x < y) (ys ++ (n ∷ []))
    snoc [] k lt = (lt, tt)
    snoc (y ∷ ys) k lt = (k.0, snoc ys k.1 lt)

Member-snoc : (u n : ℕ) (q : List ℕ) → Member u (q ++ (n ∷ [])) ↔ (Member u q ⊎ (u ≡ n))
Member-snoc u n [] = ground arith
Member-snoc u n (x ∷ xs) = ground (arith, Member-snoc u n xs)

below-snoc : (q : List ℕ) (n : ℕ) → All (λ x. x < n) q → All (λ x. x < suc n) (q ++ (n ∷ []))
below-snoc [] n h = (omega arith, tt)
below-snoc (x ∷ xs) n h = (omega (arith, h.0), below-snoc xs n h.1)

below-suc : (q : List ℕ) (n : ℕ) → All (λ x. x < n) q → All (λ x. x < suc n) q
below-suc [] n h = tt
below-suc (x ∷ xs) n h = (omega (arith, h.0), below-suc xs n h.1)

module _ (raw2bound : ℤ → ℤ) (raw_is_strict : ℤ → ℕ) (graph : TarjanGraph) where
  abbrev up_to : ℕ → List ℕ
  up_to n = waiting raw2bound raw_is_strict graph n

  waiting-below : (n : ℕ) → All (λ x. x < n) (up_to n)
  unfolding waiting
  waiting-below zero = tt
  waiting-below (suc n) = elim (Bool-cases (waits raw2bound raw_is_strict graph n)) [
    | inl e ↦ rw e (below-snoc (up_to n) n (waiting-below n))
    | inr e ↦ rw e (below-suc (up_to n) n (waiting-below n))
  ]

  waiting-IsAscending : (n : ℕ) → IsAscending (up_to n)
  unfolding waiting
  waiting-IsAscending zero = tt
  waiting-IsAscending (suc n) = elim (Bool-cases (waits raw2bound raw_is_strict graph n)) [
    | inl e ↦ rw e (IsAscending-snoc (up_to n) n (waiting-IsAscending n) (waiting-below n))
    | inr e ↦ rw e (waiting-IsAscending n)
  ]

  Member-waiting :
      (n u : ℕ) → Member u (up_to n) ↔ ((u < n) × (waits raw2bound raw_is_strict graph u ≡ true))
  unfolding waiting
  Member-waiting zero u = ground arith
  Member-waiting (suc n) u =
      let h = Member-waiting n u in
      elim (Bool-cases (waits raw2bound raw_is_strict graph n)) [
        | inl e ↦ rw e (
          λ m. elim ((Member-snoc u n (up_to n)).0 m) [
            | inl k ↦ let (lt, w) = h.0 k in (omega arith, w)
            | inr same ↦ (omega arith, rw same e)
          ],
          λ k. elim (split u n k.0) [
            | inl lt ↦ (Member-snoc u n (up_to n)).1 (inl (h.1 (lt, k.1)))
            | inr same ↦ (Member-snoc u n (up_to n)).1 (inr same)
          ],
        )
        | inr e ↦ rw e (
          λ m. let (lt, w) = h.0 m in (omega arith, w),
          λ k. elim (split u n k.0) [
            | inl lt ↦ h.1 (lt, k.1)
            | inr same ↦
                let no : waits raw2bound raw_is_strict graph u ≡ false = rw same e in
                absurd (ground (arith, no, k.1))
          ],
        )
      ]
    where
      split : (u n : ℕ) → u < suc n → (u < n) ⊎ (u ≡ n)
      split u n h = ground arith

-- Where the array of links has room for the element `dim`, `populateQueue` leaves a queue of
-- ascending vertices: those from which one of their edges leads to a better distance of its target,
-- that is, a smaller value or more strict bounds at the same value. It marks exactly them as queued.
pub populate-IsQueue :
    (raw2bound : ℤ → ℤ) (raw_is_strict : ℤ → ℕ) (graph : TarjanGraph)
    → graph.dim < length graph.fifo
    → (q : List ℕ) × IsQueue graph.dim (populate_queue raw2bound raw_is_strict graph).fifo q
      × IsAscending q
      × ((u : ℕ)
          → u < graph.dim
          → (Member u q ↔ HasImprovement raw2bound raw_is_strict graph u)
            × ((get_or (populate_queue raw2bound raw_is_strict graph).queued u false ≡ true)
                ↔ HasImprovement raw2bound raw_is_strict graph u))
unfolding populate_queue
populate-IsQueue raw2bound raw_is_strict graph room =
    let h = populate_upto-IsPopulated raw2bound raw_is_strict graph graph.dim (omega arith) room in
    (
      waiting raw2bound raw_is_strict graph graph.dim,
      h.queue,
      waiting-IsAscending raw2bound raw_is_strict graph graph.dim,
      λ u lt.
          let short = has_short-HasImprovement raw2bound raw_is_strict graph u in
          let members = Member-waiting raw2bound raw_is_strict graph graph.dim u in
          ((λ m. short.0 (members.0 m).1, λ i. members.1 (lt, short.1 i)), rw (h.bits u lt) short),
    )
