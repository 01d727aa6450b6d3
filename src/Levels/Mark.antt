-- ===== src/Levels/Mark.antt =====
-- `cdd_mark_clock` of src/cddop.c: marks the levels of the differences that a clock is part of.
use ucdd.Base.{
  ℕ, zero, suc, ◌<◌, ◌≤◌, ◌≡◌, ◌≢◌, refl, ◌∙◌, arith, inl, inr, true, false, ltb, ◌==◌,
  if◌then◌else◌, List, length, length-set, get_elem?, get_or, set, get_or-set_self, get_or-set_ne,
  Bool-cases,
}
use ucdd.Machine.{Run, ok}
use ucdd.Levels.{Levels, cdd_difference, level_at, and_then}
use ucdd.Levels.Table.{IsTable}
use ucdd.Levels.Interval.{level_of_pair, get_or-some}

-- `vec[cdd_diff2level[cdd_difference(a, b)]] = 1`
unfoldable pub mark_pair : Levels → ℕ → ℕ → List ℕ → Run (List ℕ)
mark_pair s a b vec =
    and_then (level_at (get_elem? s.diff2level (cdd_difference a b))) (λ k. ok (set vec k 1))

-- The body of the loop.
unfoldable pub mark_other : Levels → ℕ → ℕ → List ℕ → Run (List ℕ)
mark_other s c n vec =
    if ltb n c then mark_pair s c n vec else if ltb c n then mark_pair s n c vec else ok vec

-- The loop, for the first `n` clocks.
unfoldable pub mark_upto : Levels → ℕ → ℕ → List ℕ → Run (List ℕ)
mark_upto s c zero vec = ok vec
mark_upto s c (suc n) vec = and_then (mark_upto s c n vec) (mark_other s c n)

unfoldable pub cdd_mark_clock : Levels → List ℕ → ℕ → Run (List ℕ)
cdd_mark_clock s vec c = mark_upto s c s.clocknum vec

-- The level of the difference of two different clocks.
abbrev pub level_between : Levels → ℕ → ℕ → ℕ
level_between s c n = if ltb n c then level_of_pair s c n else level_of_pair s n c

module _ (s : Levels) (table : IsTable s) (c : ℕ) (lt : c < s.clocknum) where
  mark_pair-run :
      (a b : ℕ) (vec : List ℕ)
      → b < a
      → a < s.clocknum
      → (mark_pair s a b vec ≡ ok (set vec (level_of_pair s a b) 1))
        × (level_of_pair s a b < s.levelcnt)
  unfolding mark_pair level_at and_then level_of_pair
  mark_pair-run a b vec ba al =
      let (k, small, level, info) = table.pairs a b ba al in
      let same = get_or-some s.diff2level _ 0 k level in (rw (level, same) refl, rw same small)

  mark_other-run :
      (n : ℕ) (vec : List ℕ)
      → n < s.clocknum
      → n ≢ c
      → (mark_other s c n vec ≡ ok (set vec (level_between s c n) 1))
        × (level_between s c n < s.levelcnt)
  unfolding mark_other
  mark_other-run n vec nl ne = elim (Bool-cases (ltb n c)) [
    | inl e ↦ let (run, small) = mark_pair-run c n vec (ground arith) lt in (rw e run, rw e small)
    | inr e ↦
        let above : ltb c n ≡ true = ground (arith, ne) in
        let (run, small) = mark_pair-run n c vec (ground arith) nl in
        (rw (e, above) run, rw e small)
  ]

  -- What holds when the first `n` clocks were treated.
  record IsMarked (vec : List ℕ) (n : ℕ) (vec' : List ℕ) : Type 0 where
    size : length vec' ≡ length vec
    marked : (m : ℕ) → m < n → m ≢ c → get_or vec' (level_between s c m) 0 ≡ 1
    others :
        (k : ℕ)
        → ((m : ℕ) → m < n → m ≢ c → level_between s c m ≢ k)
        → get_or vec' k 0 ≡ get_or vec k 0

  step-IsMarked :
      (vec vec' : List ℕ) (n : ℕ)
      → length vec ≡ s.levelcnt
      → n < s.clocknum
      → n ≢ c
      → IsMarked vec n vec'
      → IsMarked vec (suc n) (set vec' (level_between s c n) 1)
  step-IsMarked vec vec' n len nl ne h =
      let (run, small) = mark_other-run n vec' nl ne in
      record {
        size = length-set vec' _ 1 ∙ h.size;
        marked = λ m ml mc. elim (Bool-cases (level_between s c n == level_between s c m)) [
          | inl e ↦
              let same : level_between s c n ≡ level_between s c m = ground (arith, e) in
              rw (← same)
                (get_or-set_self vec' (level_between s c n) 1 0 (omega (arith, small, len, h.size)))
          | inr e ↦
              get_or-set_ne vec' (level_between s c n) (level_between s c m) 1 0
                (λ q. ground (arith, e, q))
              ∙ h.marked m (below m ml e) mc
        ];
        others = λ k no.
            get_or-set_ne vec' (level_between s c n) k 1 0 (no n (omega arith) ne)
            ∙ h.others k (λ m ml mc. no m (omega arith) mc);
      }
    where
      below : (m : ℕ) → m < suc n → (level_between s c n == level_between s c m) ≡ false → m < n
      below m ml e = elim (Bool-cases (n == m)) [
        | inl q ↦
            let same : m ≡ n = ground (arith, q) in
            let loop : (level_between s c n == level_between s c n) ≡ false = rw same at e in
            absurd (ground (arith, loop))
        | inr q ↦ ground (arith, q, ml)
      ]

  skip-IsMarked :
      (vec vec' : List ℕ) (n : ℕ) → n ≡ c → IsMarked vec n vec' → IsMarked vec (suc n) vec'
  skip-IsMarked vec vec' n e h = record {
    size = h.size;
    marked = λ m ml mc. h.marked m (ground (arith, e, mc, ml)) mc;
    others = λ k no. h.others k (λ m ml mc. no m (omega arith) mc);
  }

  skip-run : (n : ℕ) (vec : List ℕ) → n ≡ c → mark_other s c n vec ≡ ok vec
  unfolding mark_other
  skip-run n vec e =
      let low : ltb n c ≡ false = ground (arith, e) in
      let high : ltb c n ≡ false = ground (arith, e) in rw (low, high) refl

  mark_upto-IsMarked :
      (vec : List ℕ) (n : ℕ)
      → length vec ≡ s.levelcnt
      → n ≤ s.clocknum
      → (vec' : List ℕ) × (mark_upto s c n vec ≡ ok vec') × IsMarked vec n vec'
  unfolding mark_upto and_then
  mark_upto-IsMarked vec zero len le = (
    vec,
    refl,
    record { size = refl; marked = λ m ml mc. absurd (omega arith); others = λ k no. refl },
  )
  mark_upto-IsMarked vec (suc n) len le =
      let (vec', run, h) = mark_upto-IsMarked vec n len (omega arith) in
      elim (Bool-cases (n == c)) [
        | inl e ↦
            let same : n ≡ c = ground (arith, e) in
            (vec', rw run (skip-run n vec' same), skip-IsMarked vec vec' n same h)
        | inr e ↦
            let ne : n ≢ c = λ q. ground (arith, e, q) in
            (
              set vec' (level_between s c n) 1,
              rw run (mark_other-run n vec' (omega arith) ne).0,
              step-IsMarked vec vec' n len (omega arith) ne h,
            )
      ]

-- In a table that is in order, on a vector with an entry for each level, `cdd_mark_clock` succeeds:
-- it sets the entry of every difference of the clock and another one to 1 and keeps the entries
-- that belong to none of these differences.
pub mark_clock_correct :
    (s : Levels) (c : ℕ) (vec : List ℕ)
    → IsTable s
    → c < s.clocknum
    → length vec ≡ s.levelcnt
    → (vec' : List ℕ) × (cdd_mark_clock s vec c ≡ ok vec')
      × (length vec' ≡ length vec)
      × ((n : ℕ) → n < s.clocknum → n ≢ c → get_or vec' (level_between s c n) 0 ≡ 1)
      × ((k : ℕ)
          → ((n : ℕ) → n < s.clocknum → n ≢ c → level_between s c n ≢ k)
          → get_or vec' k 0 ≡ get_or vec k 0)
unfolding cdd_mark_clock
mark_clock_correct s c vec table lt len =
    let (vec', run, h) = mark_upto-IsMarked s table c lt vec s.clocknum len (omega arith) in
    (vec', run, h.size, h.marked, h.others)
