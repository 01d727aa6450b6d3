-- ===== src/Reduce/Graphs.antt =====
-- What `cdd_bf_reduce` relies on of the constraint graph: a push and a pop restore the edges.
use ucdd.Base.{
  ℕ, zero, suc, ◌+◌, ◌-◌, ◌<◌, ◌≤◌, Bool, false, not, ◌&&◌, ◌==◌, ◌≡◌, refl, sym, ap, subst, ◌∙◌,
  arith, Bool-cases, inl, inr, List, [], ◌∷◌, ◌++◌, ℤ, length, set, length-set,
}
use ucdd.Cache.Laws.{All}
use ucdd.BellmanFord.{
  Graph, Constraint, Distance, take, through, scan, rounds, cdd_bf_consistent, cdd_bf_push,
  cdd_bf_pop,
}
use ucdd.BellmanFord.Stack.{live, take-set_same, pop-push}
use ucdd.BellmanFord.Walks.{IsInside}

-- The second graph has the edges of the first.
pub record Keeps (g h : Graph) : Type 0 where
  pub dim : h.dim ≡ g.dim
  pub count : h.count ≡ g.count
  pub room : length h.edges ≡ length g.edges
  pub dist : length h.dist ≡ length g.dist
  pub edges : live h ≡ live g

pub Keeps-refl : (g : Graph) → Keeps g g
Keeps-refl g = record { dim = refl; count = refl; room = refl; dist = refl; edges = refl }

pub Keeps-trans : (g h k : Graph) → Keeps g h → Keeps h k → Keeps g k
Keeps-trans g h k p q = record {
  dim = q.dim ∙ p.dim;
  count = q.count ∙ p.count;
  room = q.room ∙ p.room;
  dist = q.dist ∙ p.dist;
  edges = q.edges ∙ p.edges;
}

-- The graph has a distance for each vertex, edges between its vertices, and room for `n` more edges.
pub record IsReady (n : ℕ) (g : Graph) : Type 0 where
  pub full : length g.dist ≡ g.dim
  pub inside : All (IsInside g.dim) (live g)
  pub room : g.count + n ≤ length g.edges

pub IsReady-Keeps : (n : ℕ) (g h : Graph) → Keeps g h → IsReady n g → IsReady n h
IsReady-Keeps n g h k r = record {
  full = k.dist ∙ r.full ∙ sym k.dim;
  inside = rw (k.dim, k.edges) r.inside;
  room = omega (arith, k.count, k.room, r.room);
}

pub IsReady-le : (m n : ℕ) (g : Graph) → m ≤ n → IsReady n g → IsReady m g
IsReady-le m n g le r = record { full = r.full; inside = r.inside; room = omega (arith, r.room) }

pub All-snoc :
    {A : Type 0} (P : A → Type 0) (xs : List A) (x : A) → All P xs → P x → All P (xs ++ (x ∷ []))
All-snoc P [] x h p = (p, tt)
All-snoc P (y ∷ ys) x h p = (h.0, All-snoc P ys x h.1 p)

take-take : {A : Type 0} (n : ℕ) (xs : List A) → take n (take (suc n) xs) ≡ take n xs
unfolding take
take-take zero xs = refl
take-take (suc n) [] = refl
take-take (suc n) (x ∷ xs) = ap (λ ys. x ∷ ys) (take-take n xs)

pub push_dim : (g : Graph) (i j : ℕ) (c : ℤ) → (cdd_bf_push g i j c).dim ≡ g.dim
unfolding cdd_bf_push
push_dim g i j c = refl

pub push-IsReady :
    (n : ℕ) (g : Graph) (i j : ℕ) (c : ℤ)
    → i < g.dim
    → j < g.dim
    → IsReady (suc n) g
    → IsReady n (cdd_bf_push g i j c)
unfolding cdd_bf_push
push-IsReady n g i j c li lj r = record {
  full = r.full;
  inside =
      rw ((pop-push g i j c (omega (arith, r.room))).0)
        (All-snoc (IsInside g.dim) (live g) _ r.inside (li, lj));
  room = omega (arith, r.room, length-set g.edges g.count (record { i = i; j = j; value = c }));
}

-- What keeps the edges after a push leaves those before it when one is popped.
pub pop-Keeps :
    (n : ℕ) (g h : Graph) (i j : ℕ) (c : ℤ)
    → IsReady (suc n) g
    → Keeps (cdd_bf_push g i j c) h
    → Keeps g (cdd_bf_pop h)
unfolding cdd_bf_push cdd_bf_pop
pop-Keeps n g h i j c r k =
    let one : h.count - 1 ≡ g.count = omega (arith, k.count) in
    let edge : Constraint = record { i = i; j = j; value = c } in
    let shown : take (suc g.count) h.edges ≡ take (suc g.count) (set g.edges g.count edge) =
      subst (λ m. take m h.edges ≡ take (suc g.count) (set g.edges g.count edge)) k.count k.edges in
    record {
      dim = k.dim;
      count = one;
      room = k.room ∙ length-set g.edges g.count edge;
      dist = k.dist;
      edges = rw one (
          sym (take-take g.count h.edges)
          ∙ ap (take g.count) shown
          ∙ take-take g.count (set g.edges g.count edge)
          ∙ take-set_same g.edges g.count edge);
    }

-- The same push on two graphs with the same edges.
pub push-Keeps :
    (n : ℕ) (g h : Graph) (i j : ℕ) (c : ℤ)
    → IsReady (suc n) g
    → Keeps g h
    → Keeps (cdd_bf_push g i j c) (cdd_bf_push h i j c)
unfolding cdd_bf_push
push-Keeps n g h i j c r k =
    let edge : Constraint = record { i = i; j = j; value = c } in
    let fits = (IsReady-Keeps (suc n) g h k r).room in
    let shown : live (cdd_bf_push h i j c) ≡ live (cdd_bf_push g i j c) =
      (pop-push h i j c (omega (arith, fits))).0
      ∙ ap (λ es. es ++ (edge ∷ [])) k.edges
      ∙ sym ((pop-push g i j c (omega (arith, r.room))).0) in
    record {
      dim = k.dim;
      count = ap suc k.count;
      room = length-set h.edges h.count edge ∙ k.room ∙ sym (length-set g.edges g.count edge);
      dist = k.dist;
      edges = shown;
    }

length-scan :
    (raw2bound : ℤ → ℤ) (raw_is_strict : ℤ → ℕ) (es : List Constraint) (dist : List Distance)
    (found : Bool)
    → length (scan raw2bound raw_is_strict es dist found).0 ≡ length dist
unfolding scan
length-scan raw2bound raw_is_strict [] dist found = refl
length-scan raw2bound raw_is_strict (e ∷ es) dist found =
    length-scan raw2bound raw_is_strict es _ _
    ∙ ground (arith, length-set dist e.j (through raw2bound raw_is_strict dist e))

length-rounds :
    (raw2bound : ℤ → ℤ) (raw_is_strict : ℤ → ℕ) (v : ℕ) (es : List Constraint)
    (dist : List Distance)
    → length (rounds raw2bound raw_is_strict v es dist).0 ≡ length dist
unfolding rounds
length-rounds raw2bound raw_is_strict zero es dist = refl
length-rounds raw2bound raw_is_strict (suc v) es dist =
    let next = scan raw2bound raw_is_strict es dist false in
    let one = length-scan raw2bound raw_is_strict es dist false in
    elim (Bool-cases (not (v == 0) && next.1)) [
      | inl more ↦ rw more (length-rounds raw2bound raw_is_strict v es next.0 ∙ one)
      | inr over ↦ rw over one
    ]

pub consistent-Keeps :
    (raw2bound : ℤ → ℤ) (raw_is_strict : ℤ → ℕ) (g : Graph)
    → Keeps g (cdd_bf_consistent raw2bound raw_is_strict g).1
unfolding cdd_bf_consistent
consistent-Keeps raw2bound raw_is_strict g = record {
  dim = refl;
  count = refl;
  room = refl;
  dist = length-rounds raw2bound raw_is_strict g.dim (live g) g.dist;
  edges = refl;
}
