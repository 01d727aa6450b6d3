-- ===== src/Mark/Count.antt =====
-- `cdd_markcount` marks the inner nodes of a diagram.
use ucdd.Base.{
  ℕ, suc, ◌<◌, ◌≡◌, sym, ap, ◌∙◌, arith, inl, inr, Bool, true, false, ◌||◌, ◌==◌, ◌==ℤ◌, ==ℤ_iff,
  Bool-cases,
}
use ucdd.Bounds.{infinity}
use ucdd.Dd.{
  Dd, Node, Elems, ptr, terminal, xterm, bdd_node, cdd_node, nil, elem, max_level, same_node,
}
use ucdd.Dd.WellFormed.{Bounded, IsWf, IsWfNode, IsWfElems, height, height_node}
use ucdd.Machine.{LevelInfo}
use ucdd.Apply.Step.{Bounded-le}
use ucdd.Mark.{Marks, cdd_setmark, cdd_markcount, count_node, count_elems}
use ucdd.Mark.Reach.{
  reaches, reaches_node, reaches_elems, same_node→eq, same_node_self, or_cases, below_dd,
  below_elems, trans_dd,
}

-- All that a marked node of the set reaches is marked.
abbrev pub Closed : Marks → (Node → Bool) → Type 0
Closed marks S =
    (n m : Node) → S n ≡ true → marks n ≡ true → reaches_node m n ≡ true → marks m ≡ true

-- The nodes of the set are marked, too.
abbrev pub Adds : Marks → Marks → (Node → Bool) → Type 0
Adds marks' marks S = (m : Node) → marks' m ≡ (marks m || S m)

abbrev IsTransitive : (Node → Bool) → Type 0
IsTransitive T = (m n : Node) → reaches_node m n ≡ true → T n ≡ true → T m ≡ true

next-Closed :
    (marks marks' : Marks) (S T : Node → Bool)
    → Closed marks S
    → Adds marks' marks T
    → IsTransitive T
    → Closed marks' S
next-Closed marks marks' S T closed adds transitive n m inside marked inner =
    elim (or_cases (marks n) (T n) (sym (adds n) ∙ marked)) [
      | inl e ↦ let r = closed n m inside e inner in adds m ∙ ground (arith, r)
      | inr e ↦ let r = transitive m n inner e in adds m ∙ ground (arith, r)
    ]

-- The mark of a node does not count for the nodes below it.
self-Closed :
    (N : Node) (marks : Marks) (S : Node → Bool)
    → ((n : Node) → S n ≡ true → height_node n < height_node N)
    → Closed marks S
    → Closed (cdd_setmark N marks) S
unfolding cdd_setmark
self-Closed N marks S low closed n m inside marked inner =
    elim (or_cases (same_node n N) (marks n) marked) [
      | inl e ↦ let lt = low n inside in absurd (strict n (same_node→eq n N e) lt)
      | inr e ↦ let r = closed n m inside e inner in ground (arith, r)
    ]
  where
    strict : (n : Node) → n ≡ N → height_node n < height_node N → ⊥
    strict n e lt =
        let same : height_node n ≡ height_node N = ap height_node e in omega (arith, lt, same)

part-Closed :
    (marks : Marks) (S T : Node → Bool)
    → ((n : Node) → T n ≡ true → S n ≡ true)
    → Closed marks S
    → Closed marks T
part-Closed marks S T sub closed n m inside = closed n m (sub n inside)

already :
    (N : Node) (marks : Marks)
    → marks N ≡ true
    → Closed marks (λ m. reaches_node m N)
    → reaches_node N N ≡ true
    → Adds marks marks (λ m. reaches_node m N)
already N marks e closed self m = elim (Bool-cases (reaches_node m N)) [
  | inl r ↦ let h = closed N m self e r in ground (arith, h)
  | inr r ↦ ground (arith, r)
]

set_one :
    (N : Node) (marks : Marks) (m : Node) (a : Bool)
    → (cdd_setmark N marks m || a) ≡ (marks m || (same_node m N || a))
unfolding cdd_setmark
set_one N marks m a = ground arith

set_two :
    (N : Node) (marks : Marks) (m : Node) (a b : Bool)
    → ((cdd_setmark N marks m || a) || b) ≡ (marks m || (same_node m N || (a || b)))
unfolding cdd_setmark
set_two N marks m a b = ground arith

module _ (info : ℕ → LevelInfo) (width : ℕ) where
  mutual
    unfolding cdd_markcount reaches IsWf height

    pub dd-Adds :
        (d : Dd) (s : Marks × ℕ)
        → IsWf info width d
        → Closed s.0 (λ n. reaches n d)
        → Adds (cdd_markcount d s).0 s.0 (λ n. reaches n d)
    dd-Adds (ptr b n) s wf closed = node-Adds n s wf closed

    node-Adds :
        (n : Node) (s : Marks × ℕ)
        → IsWfNode info width n
        → Closed s.0 (λ m. reaches_node m n)
        → Adds (count_node n s).0 s.0 (λ m. reaches_node m n)
    node-Adds terminal s wf closed m = ground arith
    node-Adds (xterm id) s wf closed m = ground arith
    node-Adds (bdd_node k low high) s (t, lt, wl, wh) closed m =
        let N = bdd_node k low high in
        let inner : (k == max_level) ≡ false = ground arith in
        elim (Bool-cases (s.0 N)) [
          | inl e ↦ rw (inner, e) (already N s.0 e closed (ground (arith, same_node_self N)) m)
          | inr e ↦
              let s₁ : Marks × ℕ = (cdd_setmark N s.0, suc s.1) in
              let c₁ =
                self-Closed N s.0 (λ n. reaches n low)
                  (λ n h. let le = below_dd n low h in omega arith)
                  (part-Closed s.0 (λ n. reaches_node n N) (λ n. reaches n low)
                    (λ n h. ground (arith, h)) closed) in
              let a₁ = dd-Adds low s₁ wl c₁ in
              let c₂ =
                next-Closed s₁.0 (cdd_markcount low s₁).0 (λ n. reaches n high) (λ n. reaches n low)
                  (self-Closed N s.0 (λ n. reaches n high)
                    (λ n h. let le = below_dd n high h in omega arith)
                    (part-Closed s.0 (λ n. reaches_node n N) (λ n. reaches n high)
                      (λ n h. ground (arith, h)) closed))
                  a₁ (λ m n i h. trans_dd m n i low h) in
              let a₂ = dd-Adds high (cdd_markcount low s₁) wh c₂ in
              rw (inner, e) (a₂ m ∙ rw (a₁ m) (set_two N s.0 m _ _))
        ]
    node-Adds (cdd_node k es) s (t, lt, size, bounded, all) closed m =
        let N = cdd_node k es in
        let inner : (k == max_level) ≡ false = ground arith in
        elim (Bool-cases (s.0 N)) [
          | inl e ↦ rw (inner, e) (already N s.0 e closed (ground (arith, same_node_self N)) m)
          | inr e ↦
              let s₁ : Marks × ℕ = (cdd_setmark N s.0, suc s.1) in
              let c₁ =
                self-Closed N s.0 (λ n. reaches_elems n es)
                  (λ n h. let le = below_elems n es h in omega arith)
                  (part-Closed s.0 (λ n. reaches_node n N) (λ n. reaches_elems n es)
                    (λ n h. ground (arith, h)) closed) in
              rw (inner, e) (elems-Adds es s₁ bounded all c₁ m ∙ set_one N s.0 m _)
        ]

    elems-Adds :
        (es : Elems) (s : Marks × ℕ)
        → Bounded es
        → IsWfElems info width es
        → Closed s.0 (λ n. reaches_elems n es)
        → Adds (count_elems es s).0 s.0 (λ n. reaches_elems n es)
    elems-Adds nil s bounded wf closed m = absurd bounded
    elems-Adds (elem c b nil) s bounded wf closed m =
        let last : (b ==ℤ infinity) ≡ true = (==ℤ_iff b infinity).1 bounded in
        rw last (
          dd-Adds c s wf.0
            (part-Closed s.0 (λ n. reaches_elems n (elem c b nil)) (λ n. reaches n c)
              (λ n h. ground (arith, h)) closed)
            m
          ∙ ground arith)
    elems-Adds (elem c b (elem c' b' es)) s bounded wf closed m =
        let rest = elem c' b' es in
        let more : (b ==ℤ infinity) ≡ false =
          ground (arith, bounded.0, Bounded-le c' b' es bounded.1) in
        let whole = λ (n : Node). reaches_elems n (elem c b rest) in
        let a₁ =
          dd-Adds c s wf.0
            (part-Closed s.0 whole (λ n. reaches n c) (λ n h. ground (arith, h)) closed) in
        let c₂ =
          next-Closed s.0 (cdd_markcount c s).0 (λ n. reaches_elems n rest) (λ n. reaches n c)
            (part-Closed s.0 whole (λ n. reaches_elems n rest) (λ n h. ground (arith, h)) closed) a₁
            (λ m n i h. trans_dd m n i c h) in
        rw more (
          elems-Adds (elem c' b' es) (cdd_markcount c s) bounded.1 wf.1 c₂ m
          ∙ rw (a₁ m) (ground arith))
