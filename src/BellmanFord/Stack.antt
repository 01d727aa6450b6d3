-- ===== src/BellmanFord/Stack.antt =====
-- Edges are added and removed in the order of a stack.
use ucdd.Base.{ℕ, zero, suc, ◌-◌, ◌<◌, ◌≡◌, refl, ap, arith, List, [], ◌∷◌, ◌++◌, ℤ, length, set}
use ucdd.BellmanFord.{Graph, Constraint, take, cdd_bf_push, cdd_bf_pop}

-- The edges that the graph has.
abbrev pub live : Graph → List Constraint
live graph = take graph.count graph.edges

pub take-set :
    {A : Type 0} (xs : List A) (n : ℕ) (x : A)
    → n < length xs
    → take (suc n) (set xs n x) ≡ take n xs ++ (x ∷ [])
unfolding take
take-set [] n x h = absurd (omega arith)
take-set (y ∷ ys) zero x h = refl
take-set (y ∷ ys) (suc n) x h = ap (λ zs. y ∷ zs) (take-set ys n x (omega arith))

pub take-set_same : {A : Type 0} (xs : List A) (n : ℕ) (x : A) → take n (set xs n x) ≡ take n xs
unfolding take
take-set_same xs zero x = refl
take-set_same [] (suc n) x = refl
take-set_same (y ∷ ys) (suc n) x = ap (λ zs. y ∷ zs) (take-set_same ys n x)

-- Where the array has room, `cdd_bf_push` adds its edge behind the edges of the graph, and
-- `cdd_bf_pop` after it leaves the edges that were there before.
pub pop-push :
    (graph : Graph) (i j : ℕ) (c : ℤ)
    → graph.count < length graph.edges
    → (live (cdd_bf_push graph i j c) ≡ live graph ++ (record { i = i; j = j; value = c } ∷ []))
      × (live (cdd_bf_pop (cdd_bf_push graph i j c)) ≡ live graph)
unfolding cdd_bf_push cdd_bf_pop
pop-push graph i j c room =
    let one : suc graph.count - 1 ≡ graph.count = omega arith in
    (take-set graph.edges graph.count _ room, rw one (take-set_same graph.edges graph.count _))
