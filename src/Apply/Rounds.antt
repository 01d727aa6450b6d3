-- ===== src/Apply/Rounds.antt =====
-- One round of the loop of `cdd_apply_rec` over two arrays of elements, as an equation of runs.
use ucdd.Base.{
  ◌⊎◌, ℕ, suc, Bool, true, false, xor, ◌≡◌, sym, arith, Bool-cases, inl, inr, if◌then◌else◌, ℤ,
  ltb_ℤ, ◌≤ℤ◌,
}
use ucdd.Bounds.{infinity}
use ucdd.Dd.{Dd, Elems, nil, elem, same, cdd_neg_cond}
use ucdd.Dd.Equality.{same→eq}
use ucdd.Machine.{State, ok, ◌>>=◌}
use ucdd.Apply.{Recursion, minimum, advance, merge_loop}

pub minimum-cases :
    (a b : ℤ) → (minimum a b ≤ℤ a) × (minimum a b ≤ℤ b) × ((a ≡ minimum a b) ⊎ (b ≡ minimum a b))
minimum-cases a b = ground arith

pub xor_twice : (m b : Bool) → xor m (xor m b) ≡ b
xor_twice m b = ground arith

pub next-eq : (n prev : Dd) → (if same n prev then prev else n) ≡ n
next-eq n prev = elim (Bool-cases (same n prev)) [
  | inl e ↦ rw e (sym (same→eq n prev e))
  | inr e ↦ rw e
]

module _ (rec : Recursion) (lmask rmask mask : Bool) where
  pub merge_loop-end :
      (k : ℕ) (lc rc prev : Dd) (lb rb : ℤ) (ls rs : Elems) (s : State)
      → ltb_ℤ (minimum lb rb) infinity ≡ false
      → merge_loop rec lmask rmask mask (suc k) (elem lc lb ls) (elem rc rb rs) prev s
        ≡ ok (elem (cdd_neg_cond prev mask) infinity nil, s)
  unfolding merge_loop
  merge_loop-end k lc rc prev lb rb ls rs s e = rw e

  pub merge_loop-round :
      (k : ℕ) (lc rc prev : Dd) (lb rb : ℤ) (ls rs : Elems) (s : State) (lc' rc' : Dd) (lb' rb' : ℤ)
      (ls' rs' : Elems) (n : Dd) (s' : State) (es : Elems) (s'' : State)
      → ltb_ℤ (minimum lb rb) infinity ≡ true
      → advance (minimum lb rb) (elem lc lb ls) ≡ elem lc' lb' ls'
      → advance (minimum lb rb) (elem rc rb rs) ≡ elem rc' rb' rs'
      → rec (cdd_neg_cond lc' lmask) (cdd_neg_cond rc' rmask) s ≡ ok (n, s')
      → merge_loop rec lmask rmask mask k
          (elem lc' lb' ls')
          (elem rc' rb' rs')
          (if same n prev then prev else n)
          s'
        ≡ ok (es, s'')
      → merge_loop rec lmask rmask mask (suc k) (elem lc lb ls) (elem rc rb rs) prev s
        ≡ ok (if same n prev then es else elem (cdd_neg_cond prev mask) (minimum lb rb) es, s'')
  unfolding merge_loop
  merge_loop-round k lc rc prev lb rb ls rs s lc' rc' lb' rb' ls' rs' n s' es s'' e al ar er el =
      rw (e, al, ar, ◌>>=◌, er, al, ar, el)
