-- ===== src/Mark/Visit.antt =====
-- `cdd_markcount` sets marks one after the other, and counts them.
use ucdd.Base.{
  ℕ, suc, ◌+◌, ◌≡◌, refl, sym, ◌∙◌, ap, subst, arith, inl, inr, false, ◌||◌, ◌==◌, ◌==ℤ◌,
  Bool-cases, List, [], ◌∷◌, ◌++◌, length, length-append,
}
use ucdd.Bounds.{infinity}
use ucdd.Dd.{Dd, Node, Elems, ptr, terminal, xterm, bdd_node, cdd_node, nil, elem, max_level}
use ucdd.Mark.{Marks, cdd_setmark, cdd_markcount, count_node, count_elems}

-- The marks after those of a list of nodes are set.
unfoldable pub after : Marks → List Node → Marks
after marks [] = marks
after marks (n ∷ ns) = after (cdd_setmark n marks) ns

-- Each node of the list is not marked when its turn comes; so it differs from the earlier ones.
unfoldable pub Fresh : Marks → List Node → Type 0
Fresh marks [] = Unit
Fresh marks (n ∷ ns) = (marks n ≡ false) × Fresh (cdd_setmark n marks) ns

pub after-++ :
    (marks : Marks) (xs ys : List Node) → after marks (xs ++ ys) ≡ after (after marks xs) ys
unfolding after
after-++ marks [] ys = refl
after-++ marks (x ∷ xs) ys = after-++ (cdd_setmark x marks) xs ys

Fresh-++ :
    (marks : Marks) (xs ys : List Node)
    → Fresh marks xs
    → Fresh (after marks xs) ys
    → Fresh marks (xs ++ ys)
unfolding after Fresh
Fresh-++ marks [] ys h k = k
Fresh-++ marks (x ∷ xs) ys h k = (h.0, Fresh-++ (cdd_setmark x marks) xs ys h.1 k)

-- A list of nodes was marked and counted.
abbrev pub Visited : Marks × ℕ → Marks × ℕ → Type 0
Visited s s' =
    (nodes : List Node) × Fresh s.0 nodes × (s'.0 ≡ after s.0 nodes) × (s'.1 ≡ s.1 + length nodes)

nothing : (s : Marks × ℕ) → Visited s s
unfolding after Fresh
nothing s = ([], tt, refl, omega arith)

one : (n : Node) (s : Marks × ℕ) → s.0 n ≡ false → Visited s (cdd_setmark n s.0, suc s.1)
unfolding after Fresh
one n s e = (n ∷ [], (e, tt), refl, omega arith)

in_sequence : (s t u : Marks × ℕ) → Visited s t → Visited t u → Visited s u
in_sequence s t u (xs, fx, mx, cx) (ys, fy, my, cy) = (
  xs ++ ys,
  Fresh-++ s.0 xs ys fx (subst (λ m. Fresh m ys) mx fy),
  my ∙ ap (λ m. after m ys) mx ∙ sym (after-++ s.0 xs ys),
  omega (arith, cx, cy, length-append xs ys),
)

mutual
  unfolding cdd_markcount

  pub markcount-Visited : (d : Dd) (s : Marks × ℕ) → Visited s (cdd_markcount d s)
  markcount-Visited (ptr b n) s = node-Visited n s

  node-Visited : (n : Node) (s : Marks × ℕ) → Visited s (count_node n s)
  node-Visited terminal s = nothing s
  node-Visited (xterm id) s = nothing s
  node-Visited (bdd_node k low high) s =
      elim (Bool-cases (k == max_level || s.0 (bdd_node k low high))) [
        | inl e ↦ rw e (nothing s)
        | inr e ↦ rw e (
            in_sequence s _ _ (one (bdd_node k low high) s (ground arith))
              (in_sequence _ _ _ (markcount-Visited low _) (markcount-Visited high _)))
      ]
  node-Visited (cdd_node k es) s = elim (Bool-cases (k == max_level || s.0 (cdd_node k es))) [
    | inl e ↦ rw e (nothing s)
    | inr e ↦ rw e (in_sequence s _ _ (one (cdd_node k es) s (ground arith)) (elems-Visited es _))
  ]

  elems-Visited : (es : Elems) (s : Marks × ℕ) → Visited s (count_elems es s)
  elems-Visited nil s = nothing s
  elems-Visited (elem c b es) s = elim (Bool-cases (b ==ℤ infinity)) [
    | inl e ↦ rw e (markcount-Visited c s)
    | inr e ↦ rw e (in_sequence s _ _ (markcount-Visited c s) (elems-Visited es _))
  ]
