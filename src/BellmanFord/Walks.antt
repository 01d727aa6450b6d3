-- ===== src/BellmanFord/Walks.antt =====
-- Walks along the edges of a constraint graph, the distances along them, and why walks with
-- repeated vertices are not needed where the bounds have a solution.
use ucdd.Base.{
  ℕ, suc, ◌+◌, ◌*◌, ◌<◌, ◌≤◌, ◌==◌, leb, ◌≡◌, refl, ap, subst, sym, arith, Bool-cases, inl, inr,
  ==_iff, List, [], ◌∷◌, ◌++◌, length, ℤ, pos, ◌+ℤ◌, ◌≤ℤ◌, pos_part, neg_part, int_laws, +ℤ_parts,
  ◌⊎◌, occurs, AllBelow, length-distinct,
}
use native.Mathlib.Nat.{mul-le-mul_left}
use ucdd.Cache.Laws.{All}
use ucdd.BellmanFord.{Constraint, Distance, add, less}
use ucdd.BellmanFord.Order.{Le, Le_refl, Le_trans, add-Le, less-split}
use ucdd.BellmanFord.Potential.{Holds, scale, scale_parts}

abbrev pub In : Constraint → List Constraint → Type 0
In e [] = ⊥
In e (f ∷ es) = (e ≡ f) ⊎ In e es

All-In :
    (P : Constraint → Type 0) (es : List Constraint) (e : Constraint) → All P es → In e es → P e
All-In P [] e h i = absurd i
All-In P (f ∷ es) e h (inl q) = subst P (sym q) h.0
All-In P (f ∷ es) e h (inr i) = All-In P es e h.1 i

-- The edges lead from the first vertex to the second.
abbrev pub IsWalk : List Constraint → ℕ → List Constraint → ℕ → Type 0
IsWalk es a [] v = a ≡ v
IsWalk es a (e ∷ p) v = In e es × (e.i ≡ a) × IsWalk es e.j p v

unfoldable pub targets : List Constraint → List ℕ
targets [] = []
targets (e ∷ p) = e.j ∷ targets p

pub IsWalk-snoc :
    (es : List Constraint) (a : ℕ) (p : List Constraint) (e : Constraint)
    → IsWalk es a p e.i
    → In e es
    → IsWalk es a (p ++ (e ∷ [])) e.j
IsWalk-snoc es a [] e h i = (i, sym h, refl)
IsWalk-snoc es a (f ∷ p) e (k, s, h) i = (k, s, IsWalk-snoc es f.j p e h i)

length-targets : (p : List Constraint) → length (targets p) ≡ length p
unfolding targets
length-targets [] = refl
length-targets (e ∷ p) = ap suc (length-targets p)

-- The ends of the edge are vertices.
abbrev pub IsInside : ℕ → Constraint → Type 0
IsInside n e = (e.i < n) × (e.j < n)

targets-AllBelow :
    (n : ℕ) (es : List Constraint) (a : ℕ) (p : List Constraint) (v : ℕ)
    → All (IsInside n) es
    → IsWalk es a p v
    → AllBelow n (targets p)
unfolding targets
targets-AllBelow n es a [] v inside h = tt
targets-AllBelow n es a (e ∷ p) v inside (i, s, h) =
    ((All-In (IsInside n) es e inside i).1, targets-AllBelow n es e.j p v inside h)

module _ (raw2bound : ℤ → ℤ) (raw_is_strict : ℤ → ℕ) where
  -- The distance at the end of the walk.
  unfoldable pub along : Distance → List Constraint → Distance
  along d [] = d
  along d (e ∷ p) = along (add raw2bound raw_is_strict d e.value) p

  pub along-snoc :
      (d : Distance) (p : List Constraint) (e : Constraint)
      → along d (p ++ (e ∷ [])) ≡ add raw2bound raw_is_strict (along d p) e.value
  unfolding along
  along-snoc d [] e = refl
  along-snoc d (f ∷ p) e = along-snoc (add raw2bound raw_is_strict d f.value) p e

  pub along-Le : (c d : Distance) (p : List Constraint) → Le c d → Le (along c p) (along d p)
  unfolding along
  along-Le c d [] h = h
  along-Le c d (e ∷ p) h =
      along-Le (add raw2bound raw_is_strict c e.value) (add raw2bound raw_is_strict d e.value) p
        (add-Le raw2bound raw_is_strict c d e.value h)

  -- A walk through a vertex is a walk to it and a walk from it that no longer returns.
  record Cut (es : List Constraint) (a b v : ℕ) (p : List Constraint) : Type 0 where
    head : List Constraint
    rest : List Constraint
    to : IsWalk es a head b
    from : IsWalk es b rest v
    value : (d : Distance) → along d p ≡ along (along d head) rest
    fewer : suc (occurs b (targets rest)) ≤ occurs b (targets p)
    kept : (x : ℕ) → occurs x (targets rest) ≤ occurs x (targets p)

  cut :
      (es : List Constraint) (a b v : ℕ) (p : List Constraint)
      → IsWalk es a p v
      → 0 < occurs b (targets p)
      → Cut es a b v p
  unfolding targets occurs along
  cut es a b v [] h o = absurd (omega (arith, o))
  cut es a b v (e ∷ p) (i, s, h) o = elim (Bool-cases (e.j == b)) [
    | inl same ↦
        let q : e.j ≡ b = (==_iff e.j b).0 same in
        record {
          head = e ∷ [];
          rest = p;
          to = (i, s, q);
          from = subst (λ x. IsWalk es x p v) q h;
          value = λ d. refl;
          fewer = rw same (omega arith);
          kept = λ x. ground arith;
        }
    | inr other ↦
        let o' : 0 < occurs b (targets p) = rw other at o in
        let c = cut es e.j b v p h o' in
        record {
          head = e ∷ c.head;
          rest = c.rest;
          to = (i, s, c.to);
          from = c.from;
          value = λ d. c.value (add raw2bound raw_is_strict d e.value);
          fewer = rw other c.fewer;
          kept = λ x. ground (arith, c.kept x);
        }
  ]

  module _ (n : ℕ) (x : ℕ → ℤ) (positive : 0 < n) (es : List Constraint)
      (holds : All (Holds raw2bound raw_is_strict n x) es) where
    scale_add :
        (a b : ℤ)
        → pos_part (scale n (a +ℤ b)) + neg_part (scale n a) + neg_part (scale n b)
          ≡ neg_part (scale n (a +ℤ b)) + pos_part (scale n a) + pos_part (scale n b)
    scale_add a b =
        let sum = ap (λ (t : ℕ). n * t) (+ℤ_parts a b) in
        omega (arith, sum, scale_parts n a, scale_parts n b, scale_parts n (a +ℤ b))

    -- A solution bounds the distance along a walk from below.
    bounded :
        (a : ℕ) (p : List Constraint) (v : ℕ) (d : Distance)
        → IsWalk es a p v
        → (x v +ℤ scale n d.value +ℤ pos (along d p).strictness
            ≤ℤ x a +ℤ scale n (along d p).value +ℤ pos d.strictness)
          × (d.strictness ≤ (along d p).strictness)
    unfolding along add
    bounded a [] v d h = rw h (omega int_laws, omega arith)
    bounded a (e ∷ p) v d (i, s, h) =
        let (ih, up) = bounded e.j p v (add raw2bound raw_is_strict d e.value) h in
        let one = All-In (Holds raw2bound raw_is_strict n x) es e holds i in
        let one' : x e.j +ℤ pos (raw_is_strict e.value) ≤ℤ x a +ℤ scale n (raw2bound e.value) =
          rw (← s) one in
        (omega (int_laws, ih, one', scale_add d.value (raw2bound e.value)), omega (arith, up))

    -- Going round a cycle improves nothing.
    cycle-Le : (a : ℕ) (p : List Constraint) (d : Distance) → IsWalk es a p a → Le d (along d p)
    unfolding less
    cycle-Le a p d h =
        let (b, up) = bounded a p a d h in
        let e = along d p in
        let sd = scale_parts n d.value in
        let se = scale_parts n e.value in
        elim (Bool-cases (less e d)) [
          | inr better ↦ better
          | inl worse ↦ elim (less-split e d worse) [
            | inl lt ↦
                let scaled = mul-le-mul_left n lt in
                absurd (omega (int_laws, b, up, scaled, sd, se, positive))
            | inr (eq, more) ↦
                let scaled = ap (λ (t : ℕ). n * t) eq in
                absurd (omega (int_laws, b, scaled, sd, se, more))
          ]
        ]

    -- A walk between the same vertices that enters no vertex twice, and whose distance is not above.
    record Shorter (a : ℕ) (p : List Constraint) (v : ℕ) : Type 0 where
      path : List Constraint
      leads : IsWalk es a path v
      once : (b : ℕ) → occurs b (targets path) ≤ 1
      below : (d : Distance) → Le (along d path) (along d p)

    shorten : (a : ℕ) (p : List Constraint) (v : ℕ) → IsWalk es a p v → Shorter a p v
    unfolding targets occurs along
    shorten a [] v h = record {
      path = [];
      leads = h;
      once = λ b. omega arith;
      below = λ d. Le_refl d;
    }
    shorten a (e ∷ p) v (i, s, h) =
        let r = shorten e.j p v h in
        let passed = λ (d : Distance). add raw2bound raw_is_strict d e.value in
        elim (Bool-cases (leb 1 (occurs e.j (targets r.path)))) [
          | inl again ↦
              let c = cut es e.j e.j v r.path r.leads (ground (arith, again)) in
              record {
                path = e ∷ c.rest;
                leads = (i, s, c.from);
                once = λ b. ground (arith, c.fewer, c.kept b, r.once b);
                below = λ d.
                    let round = cycle-Le e.j c.head (passed d) c.to in
                    let less_far = along-Le (passed d) (along (passed d) c.head) c.rest round in
                    Le_trans _ _ _ (rw (c.value (passed d)) less_far) (r.below (passed d));
              }
          | inr new ↦ record {
            path = e ∷ r.path;
            leads = (i, s, r.leads);
            once = λ b. ground (arith, new, r.once b);
            below = λ d. r.below (passed d);
          }
        ]

    -- Such a walk has at most as many edges as there are vertices.
    pub simple-IsWalk :
        (m : ℕ) (a : ℕ) (p : List Constraint) (v : ℕ)
        → All (IsInside m) es
        → IsWalk es a p v
        → (q : List Constraint) × IsWalk es a q v
          × (length q ≤ m)
          × ((d : Distance) → Le (along d q) (along d p))
    simple-IsWalk m a p v inside h =
        let r = shorten a p v h in
        let all = targets-AllBelow m es a r.path v inside r.leads in
        let short = length-distinct m (targets r.path) all r.once in
        (r.path, r.leads, omega (arith, short, length-targets r.path), r.below)
