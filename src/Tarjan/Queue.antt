-- ===== src/Tarjan/Queue.antt =====
-- The linked list of src/tarjan.c is a queue: vertices leave it in the order in which they came.
use ucdd.Base.{
  ℕ, suc, ◌<◌, ◌≡◌, ◌≢◌, refl, sym, ◌∙◌, arith, ◌==◌, if◌then◌else◌, List, [], ◌∷◌, ◌++◌, length,
}
use ucdd.Cache.Laws.{All}
use ucdd.Tarjan.{Link, next_of, prev_of, insert, remove}
use ucdd.Tarjan.Links.{
  next-insert, prev-insert, next-remove, prev-remove, length-insert, length-remove,
}

-- From `a` the list leads through the vertices to `b`, and back.
abbrev pub Chain : List Link → ℕ → List ℕ → ℕ → Type 0
Chain l a [] b = (next_of l a ≡ b) × (prev_of l b ≡ a)
Chain l a (x ∷ xs) b = (next_of l a ≡ x) × (prev_of l x ≡ a) × Chain l x xs b

abbrev pub IsNew : ℕ → List ℕ → Type 0
IsNew a xs = All (λ x. a ≢ x) xs

abbrev pub IsDistinct : List ℕ → Type 0
IsDistinct [] = Unit
IsDistinct (x ∷ xs) = IsNew x xs × IsDistinct xs

-- The vertices of the queue in their order, between the two sides of the element `dim`.
pub record IsQueue (dim : ℕ) (l : List Link) (q : List ℕ) : Type 0 where
  pub chain : Chain l dim q dim
  pub distinct : IsDistinct q
  pub vertices : All (λ x. x < dim) q
  pub room : dim < length l

last_of : ℕ → List ℕ → ℕ
last_of a [] = a
last_of a (x ∷ xs) = last_of x xs

Chain-last :
    (l : List Link) (a : ℕ) (q : List ℕ) (b : ℕ) → Chain l a q b → prev_of l b ≡ last_of a q
unfolding last_of
Chain-last l a [] b h = h.1
Chain-last l a (x ∷ xs) b h = Chain-last l x xs b h.2

Chain-next :
    (l : List Link) (a : ℕ) (q : List ℕ) (b : ℕ) → Chain l a q b → next_of l (last_of a q) ≡ b
unfolding last_of
Chain-next l a [] b h = h.0
Chain-next l a (x ∷ xs) b h = Chain-next l x xs b h.2

last-ne : (a x : ℕ) (xs : List ℕ) → IsNew a (x ∷ xs) → a ≢ last_of x xs
unfolding last_of
last-ne a x [] h = h.0
last-ne a x (y ∷ ys) h = last-ne a y ys h.1

last-lt : (m a : ℕ) (xs : List ℕ) → a < m → All (λ x. x < m) xs → last_of a xs < m
unfolding last_of
last-lt m a [] h k = h
last-lt m a (x ∷ xs) h k = last-lt m x xs k.0 k.1

IsNew-vertices : (dim : ℕ) (q : List ℕ) → All (λ x. x < dim) q → IsNew dim q
IsNew-vertices dim [] h = tt
IsNew-vertices dim (x ∷ xs) h = (λ e. omega (arith, h.0), IsNew-vertices dim xs h.1)

module _ (l l' : List Link) (u b p : ℕ) (apart : u ≢ b)
    (fn : (j : ℕ) → next_of l' j ≡ (if p == j then u else if u == j then b else next_of l j))
    (fp : (j : ℕ) → prev_of l' j ≡ (if u == j then p else if b == j then u else prev_of l j)) where
  extend :
      (a : ℕ) (q : List ℕ)
      → last_of a q ≡ p
      → IsNew a q
      → IsDistinct q
      → All (λ x. x < b) q
      → IsNew u q
      → u ≢ a
      → Chain l a q b
      → Chain l' a (q ++ (u ∷ [])) b
  unfolding last_of
  extend a [] last new distinct below fresh ne h =
      ground (arith, fn a, fn u, fp u, fp b, last, ne, apart)
  extend a (x ∷ xs) last new distinct below fresh ne h =
      let far : a ≢ last_of x xs = last-ne a x xs new in
      let ahead : next_of l' a ≡ x = ground (arith, fn a, last, far, ne, h.0) in
      let back : prev_of l' x ≡ a = ground (arith, fp x, fresh.0, below.0, h.1) in
      (ahead, back, extend x xs last distinct.0 distinct.1 below.1 fresh.1 fresh.0 h.2)

All-append : (P : ℕ → Type 0) (q : List ℕ) (u : ℕ) → All P q → P u → All P (q ++ (u ∷ []))
All-append P [] u h k = (k, tt)
All-append P (x ∷ xs) u h k = (h.0, All-append P xs u h.1 k)

IsDistinct-append : (q : List ℕ) (u : ℕ) → IsDistinct q → IsNew u q → IsDistinct (q ++ (u ∷ []))
IsDistinct-append [] u h k = (tt, tt)
IsDistinct-append (x ∷ xs) u h k =
    (All-append _ xs u h.0 (λ e. k.0 (sym e)), IsDistinct-append xs u h.1 k.1)

-- Inserting a vertex that is not in the queue after the last element, as `cdd_tarjan_push`,
-- `populateQueue` and `cdd_tarjan_consistent` do, appends it to the queue.
pub enqueue-IsQueue :
    (dim : ℕ) (l : List Link) (q : List ℕ) (u : ℕ)
    → IsQueue dim l q
    → u < dim
    → IsNew u q
    → IsQueue dim (insert l (prev_of l dim) u) (q ++ (u ∷ []))
enqueue-IsQueue dim l q u h lt new =
    let p = prev_of l dim in
    let last : p ≡ last_of dim q = Chain-last l dim q dim h.chain in
    let succ : next_of l p ≡ dim = rw last (Chain-next l dim q dim h.chain) in
    let here : p < length l =
      omega (arith, last, last-lt (suc dim) dim q (omega arith) (up q h.vertices), h.room) in
    let there : u < length l = omega (arith, h.room) in
    let room : next_of l p < length l = omega (arith, succ, h.room) in
    record {
      chain =
          extend l (insert l p u) u dim p (λ e. omega (arith, e))
            (λ j. next-insert l p u here there room j ∙ rw succ refl)
            (λ j. prev-insert l p u here there room j ∙ rw succ refl) dim q (sym last)
            (IsNew-vertices dim q h.vertices) h.distinct h.vertices new (λ e. omega (arith, e))
            h.chain;
      distinct = IsDistinct-append q u h.distinct new;
      vertices = All-append _ q u h.vertices lt;
      room = rw length-insert h.room;
    }
  where
    up : (xs : List ℕ) → All (λ x. x < dim) xs → All (λ x. x < suc dim) xs
    up [] k = tt
    up (x ∷ xs) k = (omega (arith, k.0), up xs k.1)

module _ (l l' : List Link) (u b n : ℕ)
    (fn : (j : ℕ) → next_of l' j ≡ (if b == j then n else next_of l j))
    (fp : (j : ℕ) → prev_of l' j ≡ (if n == j then b else prev_of l j)) where
  behind :
      (a : ℕ) (q : List ℕ)
      → b ≢ a
      → All (λ x. x < b) q
      → IsNew n q
      → n ≢ b
      → Chain l a q b
      → Chain l' a q b
  behind a [] ne below new apart h = ground (arith, fn a, fp b, ne, apart)
  behind a (x ∷ xs) ne below new apart h =
      let ahead : next_of l' a ≡ x = ground (arith, fn a, ne, h.0) in
      let back : prev_of l' x ≡ a = ground (arith, fp x, new.0, h.1) in
      (ahead, back, behind x xs (λ e. omega (arith, e, below.0)) below.1 new.1 apart h.2)

-- The vertex at the front of a queue is the one after the element `dim`, and removing it, as
-- `cdd_tarjan_consistent` does, leaves the rest of the queue.
pub dequeue-IsQueue :
    (dim : ℕ) (l : List Link) (u : ℕ) (q : List ℕ)
    → IsQueue dim l (u ∷ q)
    → (next_of l dim ≡ u) × IsQueue dim (remove l u) q
dequeue-IsQueue dim l u q h = (
  h.chain.0,
  record {
    chain = front q h.chain.2 h.distinct h.vertices;
    distinct = h.distinct.1;
    vertices = h.vertices.1;
    room = rw length-remove h.room;
  },
)
  where
    front :
        (r : List ℕ)
        → Chain l u r dim
        → IsDistinct (u ∷ r)
        → All (λ x. x < dim) (u ∷ r)
        → Chain (remove l u) dim r dim
    front [] c d k =
        let room : next_of l u < length l = omega (arith, c.0, h.room) in
        let back : prev_of l u < length l = omega (arith, h.chain.1, h.room) in
        ground (arith, next-remove l u room back dim, prev-remove l u room back dim, c.0, h.chain.1)
    front (y ∷ ys) c d k =
        let room : next_of l u < length l = omega (arith, c.0, k.1.0, h.room) in
        let back : prev_of l u < length l = omega (arith, h.chain.1, h.room) in
        let n = next-remove l u room back in
        let p = prev-remove l u room back in
        let first : next_of (remove l u) dim ≡ y = ground (arith, n dim, c.0, h.chain.1) in
        let second : prev_of (remove l u) y ≡ dim = ground (arith, p y, c.0, h.chain.1) in
        (
          first,
          second,
          behind l (remove l u) u dim y (λ j. n j ∙ rw (h.chain.1, c.0) refl)
              (λ j. p j ∙ rw (h.chain.1, c.0) refl) y ys (λ e. omega (arith, e, k.1.0)) k.1.1 d.1.0
              (λ e. omega (arith, e, k.1.0)) c.2,
        )
