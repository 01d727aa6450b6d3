-- ===== src/Tarjan/Links.antt =====
-- Lists linked through arrays: an insertion can be undone.
use ucdd.Base.{
  ℕ, ◌<◌, ◌≡◌, refl, ◌∙◌, ap, arith, ◌==◌, if◌then◌else◌, List, length, length-set, get_or, set,
  get_or-set_self, get_or-set_ne, Bool-cases, inl, inr,
}
use ucdd.Tarjan.{Link, no_link, next_of, prev_of, set_next, set_prev, insert, remove}

set_cases :
    (xs : List Link) (i j : ℕ) (x : Link)
    → i < length xs
    → get_or (set xs i x) j no_link ≡ (if i == j then x else get_or xs j no_link)
set_cases xs i j x h = elim (Bool-cases (i == j)) [
  | inl e ↦
      let same : i ≡ j = ground (arith, e) in rw (e, ← same) (get_or-set_self xs i x no_link h)
  | inr e ↦ rw e (get_or-set_ne xs i j x no_link (λ same. ground (arith, e, same)))
]

pub next-set_next :
    (xs : List Link) (i j v : ℕ)
    → i < length xs
    → next_of (set_next xs i v) j ≡ (if i == j then v else next_of xs j)
unfolding next_of set_next
next-set_next xs i j v h =
    ap (λ (l : Link). l.next) (set_cases xs i j _ h) ∙ (elim (Bool-cases (i == j)) [
      | inl e ↦ let same : i ≡ j = ground (arith, e) in rw (e) refl
      | inr e ↦ rw e refl
    ])

pub next-set_prev :
    (xs : List Link) (i j v : ℕ) → i < length xs → next_of (set_prev xs i v) j ≡ next_of xs j
unfolding next_of set_prev
next-set_prev xs i j v h =
    ap (λ (l : Link). l.next) (set_cases xs i j _ h) ∙ (elim (Bool-cases (i == j)) [
      | inl e ↦ let same : i ≡ j = ground (arith, e) in rw (e, same) refl
      | inr e ↦ rw e refl
    ])

pub prev-set_prev :
    (xs : List Link) (i j v : ℕ)
    → i < length xs
    → prev_of (set_prev xs i v) j ≡ (if i == j then v else prev_of xs j)
unfolding prev_of set_prev
prev-set_prev xs i j v h =
    ap (λ (l : Link). l.prev) (set_cases xs i j _ h) ∙ (elim (Bool-cases (i == j)) [
      | inl e ↦ let same : i ≡ j = ground (arith, e) in rw (e) refl
      | inr e ↦ rw e refl
    ])

pub prev-set_next :
    (xs : List Link) (i j v : ℕ) → i < length xs → prev_of (set_next xs i v) j ≡ prev_of xs j
unfolding prev_of set_next
prev-set_next xs i j v h =
    ap (λ (l : Link). l.prev) (set_cases xs i j _ h) ∙ (elim (Bool-cases (i == j)) [
      | inl e ↦ let same : i ≡ j = ground (arith, e) in rw (e, same) refl
      | inr e ↦ rw e refl
    ])

pub length-set_next : (xs : List Link) (i v : ℕ) → length (set_next xs i v) ≡ length xs
unfolding set_next
length-set_next xs i v = length-set xs i _

pub length-set_prev : (xs : List Link) (i v : ℕ) → length (set_prev xs i v) ≡ length xs
unfolding set_prev
length-set_prev xs i v = length-set xs i _

module _ (xs : List Link) (p e : ℕ) (hp : p < length xs) (he : e < length xs)
    (hs : next_of xs p < length xs) where
  pub next-insert :
      (j : ℕ)
      → next_of (insert xs p e) j
        ≡ (if p == j then e else if e == j then next_of xs p else next_of xs j)
  unfolding insert
  next-insert j =
      let succ = next_of xs p in
      let one = set_prev xs succ e in
      let two = set_next one e succ in
      let three = set_prev two e p in
      let h1 : length one ≡ length xs = length-set_prev xs succ e in
      let h2 : length two ≡ length xs = length-set_next one e succ ∙ h1 in
      let h3 : length three ≡ length xs = length-set_prev two e p ∙ h2 in
      rw
        (
          next-set_next three p j e (omega (arith, h3)),
          next-set_prev two e j p (omega (arith, h2)),
          next-set_next one e j succ (omega (arith, h1)),
          next-set_prev xs succ j e hs,
        )
        refl

  pub prev-insert :
      (j : ℕ)
      → prev_of (insert xs p e) j
        ≡ (if e == j then p else if next_of xs p == j then e else prev_of xs j)
  unfolding insert
  prev-insert j =
      let succ = next_of xs p in
      let one = set_prev xs succ e in
      let two = set_next one e succ in
      let three = set_prev two e p in
      let h1 : length one ≡ length xs = length-set_prev xs succ e in
      let h2 : length two ≡ length xs = length-set_next one e succ ∙ h1 in
      let h3 : length three ≡ length xs = length-set_prev two e p ∙ h2 in
      rw
        (
          prev-set_next three p j e (omega (arith, h3)),
          prev-set_prev two e j p (omega (arith, h2)),
          prev-set_next one e j succ (omega (arith, h1)),
          prev-set_prev xs succ j e hs,
        )
        refl

module _ (xs : List Link) (i : ℕ) (hn : next_of xs i < length xs)
    (hp : prev_of xs i < length xs) where
  pub next-remove :
      (j : ℕ) → next_of (remove xs i) j ≡ (if prev_of xs i == j then next_of xs i else next_of xs j)
  unfolding remove
  next-remove j =
      rw
        (
          next-set_prev (set_next xs (prev_of xs i) (next_of xs i)) (next_of xs i) j (prev_of xs i)
              (omega (arith, length-set_next xs (prev_of xs i) (next_of xs i))),
          next-set_next xs (prev_of xs i) j (next_of xs i) hp,
        )
        refl

  pub prev-remove :
      (j : ℕ) → prev_of (remove xs i) j ≡ (if next_of xs i == j then prev_of xs i else prev_of xs j)
  unfolding remove
  prev-remove j =
      rw
        (
          prev-set_prev (set_next xs (prev_of xs i) (next_of xs i)) (next_of xs i) j (prev_of xs i)
              (omega (arith, length-set_next xs (prev_of xs i) (next_of xs i))),
          prev-set_next xs (prev_of xs i) j (next_of xs i) hp,
        )
        refl

pub length-insert : (xs : List Link) (p e : ℕ) → length (insert xs p e) ≡ length xs
unfolding insert
length-insert xs p e = simp (length-set_next, length-set_prev)

pub length-remove : (xs : List Link) (i : ℕ) → length (remove xs i) ≡ length xs
unfolding remove
length-remove xs i = simp (length-set_next, length-set_prev)
