-- ===== src/Levels/Table.antt =====
-- The invariant of the level table, and how the loops of `cdd_add_clocks` fill it.
use ucdd.Base.{
  ℕ, zero, suc, ◌+◌, ◌<◌, ◌≤◌, ◌≡◌, ◌∙◌, arith, ◌⊎◌, inl, inr, some, length, length-set, get_elem?,
  get_elem?-set_self, get_elem?-set_ne,
}
use ucdd.Machine.{LevelInfo, type_cdd}
use ucdd.Levels.{Levels, cdd_difference, cdd_difference_count, add_pair, add_row, add_rows}
use ucdd.Levels.Pairs.{count_suc, count_mono, difference-lt, difference-ne, Before}

abbrev pub info_of : ℕ → ℕ → LevelInfo
info_of a b = record { type = type_cdd; clock1 = a; clock2 = b; diff = cdd_difference a b }

-- The difference of the clocks has a level, which knows the clocks.
abbrev pub HasPair : Levels → ℕ → ℕ → Type 0
HasPair s a b =
    (k : ℕ) × (k < s.levelcnt)
    × (get_elem? s.diff2level (cdd_difference a b) ≡ some k)
    × (get_elem? s.levelinfo k ≡ some (info_of a b))

-- Every difference of clocks has its level, and the arrays are as long as they should.
pub record IsTable (s : Levels) : Type 0 where
  pub pairs : (a b : ℕ) → b < a → a < s.clocknum → HasPair s a b
  pub differences : length s.diff2level ≡ cdd_difference_count s.clocknum
  pub infos : length s.levelinfo ≡ s.levelcnt

-- The loops start with clocks up to `c` and the arrays enlarged for `n` more.
module _ (c n : ℕ) (start : Levels) (room : length start.diff2level ≡ cdd_difference_count (c + n))
    (space : length start.levelinfo + cdd_difference_count c
      ≡ start.levelcnt + cdd_difference_count (c + n)) where
  -- What holds before the pair (i, j) is added.
  pub record IsFilled (i j : ℕ) (s : Levels) : Type 0 where
    pub pairs : (a b : ℕ) → b < a → Before a b i j → HasPair s a b
    pub kept : (k : ℕ) → k < start.levelcnt → get_elem? s.levelinfo k ≡ get_elem? start.levelinfo k
    pub count : s.levelcnt + cdd_difference_count c ≡ start.levelcnt + (cdd_difference_count i + j)
    pub differences : length s.diff2level ≡ length start.diff2level
    pub infos : length s.levelinfo ≡ length start.levelinfo
    pub clocks : s.clocknum ≡ start.clocknum

  module _ (i j : ℕ) (s : Levels) (h : IsFilled i j s) (le : c ≤ i) (lt : j < i)
      (below : i < c + n) where
    old_levels : start.levelcnt ≤ s.levelcnt
    old_levels = omega (arith, h.count, count_mono c i le)

    number_fits : cdd_difference i j < length s.diff2level
    number_fits = omega (arith, h.differences, room, difference-lt i j (c + n) lt below)

    level_fits : s.levelcnt < length s.levelinfo
    unfolding cdd_difference
    level_fits = omega (arith, h.infos, space, h.count, difference-lt i j (c + n) lt below)

    old_pair : (a b : ℕ) → b < a → Before a b i j → HasPair (add_pair i j s) a b
    unfolding add_pair
    old_pair a b ba before =
        let (k, small, level, info) = h.pairs a b ba before in
        (
          k,
          omega arith,
          get_elem?-set_ne s.diff2level _ _ s.levelcnt (difference-ne a b i j ba before) ∙ level,
          get_elem?-set_ne s.levelinfo s.levelcnt k _ (λ e. omega arith) ∙ info,
        )

    new_pair : HasPair (add_pair i j s) i j
    unfolding add_pair
    new_pair = (
      s.levelcnt,
      omega arith,
      get_elem?-set_self s.diff2level _ _ number_fits,
      get_elem?-set_self s.levelinfo _ _ level_fits,
    )

    pair_cases : (a b : ℕ) → Before a b i (suc j) → Before a b i j ⊎ ((a ≡ i) × (b ≡ j))
    pair_cases a b (inl lt) = inl (inl lt)
    pair_cases a b (inr (e, lt)) = ground arith

    add_pair-IsFilled : IsFilled i (suc j) (add_pair i j s)
    unfolding add_pair
    add_pair-IsFilled = record {
      pairs = λ a b ba before. elim (pair_cases a b before) [
        | inl old ↦ old_pair a b ba old
        | inr (e, f) ↦ rw (e, f) new_pair
      ];
      kept = λ k small.
          get_elem?-set_ne s.levelinfo s.levelcnt k _ (λ e. omega (arith, old_levels))
          ∙ h.kept k small;
      count = omega (arith, h.count);
      differences = rw length-set h.differences;
      infos = rw length-set h.infos;
      clocks = h.clocks;
    }

  row-IsFilled :
      (i : ℕ)
      → c ≤ i
      → i < c + n
      → (k : ℕ) → k ≤ i
      → (s : Levels) → IsFilled i 0 s
      → IsFilled i k (add_row i k s)
  unfolding add_row
  row-IsFilled i le below zero small s h = h
  row-IsFilled i le below (suc k) small s h =
      add_pair-IsFilled i k (add_row i k s) (row-IsFilled i le below k (omega arith) s h) le
        (omega arith) below

  next-IsFilled : (i : ℕ) (s : Levels) → IsFilled i i s → IsFilled (suc i) 0 s
  next-IsFilled i s h = record {
    pairs = λ a b ba before. h.pairs a b ba (ground arith);
    kept = h.kept;
    count = omega (arith, h.count, count_suc i);
    differences = h.differences;
    infos = h.infos;
    clocks = h.clocks;
  }

  pub rows-IsFilled :
      (m : ℕ) → m ≤ n → (s : Levels) → IsFilled c 0 s → IsFilled (c + m) 0 (add_rows c m s)
  unfolding add_rows
  rows-IsFilled zero le s h = let end : c + 0 ≡ c = omega arith in rw end h
  rows-IsFilled (suc m) le s h =
      let done = rows-IsFilled m (omega arith) s h in
      let row = row-IsFilled (c + m) (omega arith) (omega arith) (c + m) (omega arith) _ done in
      let end : c + suc m ≡ suc (c + m) = omega arith in rw end (next-IsFilled (c + m) _ row)
