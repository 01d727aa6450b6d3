-- ===== src/Reduce/Clocks.antt =====
-- A graph whose bounds hold at some clocks is consistent, and the bounds of a level are edges that
-- hold at its clocks.
use ucdd.Base.{
  ℕ, suc, ◌+◌, ◌*◌, ◌<◌, ◌≤◌, ◌==◌, ==_iff, true, ◌≡◌, ◌↔◌, ap, arith, Bool-cases, inl, inr, ℤ, pos,
  ◌-ℤ◌, neg_ℤ, neg_ℤ_parts, ◌+ℤ◌, ◌<ℤ◌, ◌≤ℤ◌, ltb_ℤ, ltb_ℤ→lt, ltb_ℤ→ge, int_laws, pos_part,
  neg_part,
}
use ucdd.Bounds.{infinity, minus_infinity, bnd_l2u}
use ucdd.Bounds.Laws.{Above-l2u}
use ucdd.Dd.{Dd}
use ucdd.Dd.Meaning.{Valuation, eval}
use ucdd.Dd.WellFormed.{IsWf}
use ucdd.Machine.{Run, ok, LevelInfo}
use ucdd.Cache.Laws.{All}
use ucdd.BellmanFord.{Graph, cdd_bf_consistent, cdd_bf_push}
use ucdd.BellmanFord.Stack.{live, pop-push}
use ucdd.BellmanFord.Potential.{Holds, scale, scale_parts}
use ucdd.BellmanFord.Complete.{solution-consistent}
use ucdd.Reduce.Graphs.{Keeps, IsReady, All-snoc}

in_range :
    (q : ℤ)
    → minus_infinity <ℤ q
    → q <ℤ infinity
    → (neg_part q < 0x7FFFFFFE) × (pos_part q < 0x7FFFFFFE)
in_range q above below = ground arith

-- Clocks with values in units of 1 / unit; `at` is minus the value of a clock.
pub record Clocks : Type 0 where
  pub unit : ℕ
  pub positive : 0 < unit
  pub at : ℕ → ℤ

-- The position of a difference that is d in units of 1 / n (Bounds.Laws): it is below 2 * m + 1 when
-- the difference is at most m, and below 2 * m when it is less than m.
abbrev pub IsPosition : ℕ → ℤ → ℤ → Type 0
IsPosition n d q =
    (m : ℤ) → ((q <ℤ m +ℤ m +ℤ pos 1) ↔ (d ≤ℤ scale n m)) × ((q <ℤ m +ℤ m) ↔ (d <ℤ scale n m))

-- A valuation whose differences are those of the clocks.
abbrev pub IsClocked : (ℕ → LevelInfo) → Valuation → Clocks → Type 0
IsClocked info v x =
    (k : ℕ) → IsPosition x.unit (x.at (info k).clock2 -ℤ x.at (info k).clock1) (v.diffs k)

neg-weak :
    (n : ℕ) (d e q m : ℤ)
    → IsPosition n d q
    → pos_part e + pos_part d ≡ neg_part e + neg_part d
    → neg_ℤ q <ℤ m +ℤ m +ℤ pos 1
    → e ≤ℤ scale n m
neg-weak n d e q m h opposite lt =
    let scaled = scale_parts n m in
    let scaled' = scale_parts n (neg_ℤ m) in
    let parts = ap (λ (t : ℕ). n * t) (neg_ℤ_parts m) in
    elim (Bool-cases (ltb_ℤ d (scale n (neg_ℤ m)))) [
      | inl e ↦ absurd (omega (int_laws, lt, (h (neg_ℤ m)).1.1 (ltb_ℤ→lt d (scale n (neg_ℤ m)) e)))
      | inr e ↦ omega (int_laws, scaled, scaled', parts, opposite, ltb_ℤ→ge d (scale n (neg_ℤ m)) e)
    ]

neg-strict :
    (n : ℕ) (d e q m : ℤ)
    → IsPosition n d q
    → pos_part e + pos_part d ≡ neg_part e + neg_part d
    → neg_ℤ q <ℤ m +ℤ m
    → e <ℤ scale n m
neg-strict n d e q m h opposite lt =
    let scaled = scale_parts n m in
    let scaled' = scale_parts n (neg_ℤ m) in
    let parts = ap (λ (t : ℕ). n * t) (neg_ℤ_parts m) in
    elim (Bool-cases (ltb_ℤ (scale n (neg_ℤ m)) d)) [
      | inl e ↦ omega (int_laws, scaled, scaled', parts, opposite, ltb_ℤ→lt (scale n (neg_ℤ m)) d e)
      | inr e ↦ absurd (omega (int_laws, lt, (h (neg_ℤ m)).0.1 (ltb_ℤ→ge (scale n (neg_ℤ m)) d e)))
    ]

module _ (raw2bound : ℤ → ℤ) (raw_is_strict : ℤ → ℕ) where
  -- A raw bound is twice the limit, and one more when it is weak.
  abbrev pub IsRaw : Type 0
  IsRaw =
      (b : ℤ)
      → (raw_is_strict b ≤ 1) × (b +ℤ pos (raw_is_strict b) ≡ raw2bound b +ℤ raw2bound b +ℤ pos 1)

  -- The clocks are within the bounds of the graph.
  abbrev pub Obeys : Clocks → Graph → Type 0
  Obeys x g = All (Holds raw2bound raw_is_strict x.unit x.at) (live g)

  -- At all clocks within the bounds of the graph.
  abbrev pub AtClocks : (ℕ → LevelInfo) → Graph → (Valuation → Type 0) → Type 0
  AtClocks info g Q = (v : Valuation) (x : Clocks) → IsClocked info v x → Obeys x g → Q v

  -- A run on the graph that keeps its edges and returns a diagram of the width that has the value of
  -- the node at all clocks within the graph.
  abbrev pub Reduced : (ℕ → LevelInfo) → ℕ → Graph → Dd → Run (Dd × Graph) → Type 0
  Reduced info width g node r =
      (d : Dd) × (h : Graph) × (r ≡ ok (d, h))
      × Keeps g h
      × IsWf info width d
      × AtClocks info g (λ v. eval v d ≡ eval v node)

  pub Obeys-consistent :
      (n : ℕ) (x : Clocks) (g : Graph)
      → IsReady n g
      → Obeys x g
      → (cdd_bf_consistent raw2bound raw_is_strict g).0 ≡ true
  Obeys-consistent n x g r h =
      solution-consistent raw2bound raw_is_strict g x.unit x.at r.full r.inside x.positive h

  pub Obeys-Keeps : (x : Clocks) (g h : Graph) → Keeps g h → Obeys x g → Obeys x h
  Obeys-Keeps x g h k o = rw k.edges o

  pub push-Obeys :
      (n : ℕ) (x : Clocks) (g : Graph) (i j : ℕ) (c : ℤ)
      → IsReady (suc n) g
      → Obeys x g
      → Holds raw2bound raw_is_strict x.unit x.at (record { i = i; j = j; value = c })
      → Obeys x (cdd_bf_push g i j c)
  push-Obeys n x g i j c r o h = rw ((pop-push g i j c (omega (arith, r.room))).0) (
      All-snoc (Holds raw2bound raw_is_strict x.unit x.at) (live g)
        (record { i = i; j = j; value = c }) o h)

  module _ (raw : IsRaw) where
    edge-Holds :
        (x : Clocks) (i j : ℕ) (b q : ℤ)
        → ((m : ℤ) → q <ℤ m +ℤ m +ℤ pos 1 → x.at j -ℤ x.at i ≤ℤ scale x.unit m)
        → ((m : ℤ) → q <ℤ m +ℤ m → x.at j -ℤ x.at i <ℤ scale x.unit m)
        → q <ℤ b
        → Holds raw2bound raw_is_strict x.unit x.at (record { i = i; j = j; value = b })
    edge-Holds x i j b q weak strict lt =
        let (small, law) = raw b in
        let law₁ = ap pos_part law in
        let law₂ = ap neg_part law in
        elim (Bool-cases (raw_is_strict b == 0)) [
          | inl e ↦
              let none : raw_is_strict b ≡ 0 = (==_iff (raw_is_strict b) 0).0 e in
              let le = weak (raw2bound b) (omega (int_laws, lt, law₁, law₂, none)) in
              omega (int_laws, le, none)
          | inr e ↦
              let one : raw_is_strict b ≡ 1 = ground (arith, e, small) in
              let le = strict (raw2bound b) (omega (int_laws, lt, law₁, law₂, one)) in
              omega (int_laws, le, one)
        ]

    module _ (info : ℕ → LevelInfo) (v : Valuation) (x : Clocks)
        (clocked : IsClocked info v x) where
      -- An upper bound of the level as an edge.
      pub upper-Holds :
          (k : ℕ) (b : ℤ)
          → v.diffs k <ℤ b
          → Holds raw2bound raw_is_strict x.unit x.at
              (record { i = (info k).clock1; j = (info k).clock2; value = b })
      upper-Holds k b lt =
          edge-Holds x (info k).clock1 (info k).clock2 b (v.diffs k) (λ m l. (clocked k m).0.0 l)
            (λ m l. (clocked k m).1.0 l) lt

      -- A lower bound of the level, as the code turns it into an edge.
      pub lower-Holds :
          (k : ℕ) (b : ℤ)
          → b ≤ℤ v.diffs k
          → Holds raw2bound raw_is_strict x.unit x.at
              (record { i = (info k).clock2; j = (info k).clock1; value = bnd_l2u b })
      lower-Holds k b le =
          let range : (neg_part (v.diffs k) < 0x7FFFFFFE) × (pos_part (v.diffs k) < 0x7FFFFFFE) =
            in_range (v.diffs k) (v.above k) (v.in_range k) in
          let d = x.at (info k).clock2 -ℤ x.at (info k).clock1 in
          let e = x.at (info k).clock1 -ℤ x.at (info k).clock2 in
          let flip : pos_part e + pos_part d ≡ neg_part e + neg_part d = omega int_laws in
          edge-Holds x (info k).clock2 (info k).clock1 (bnd_l2u b) (neg_ℤ (v.diffs k))
            (λ m l. neg-weak x.unit d e (v.diffs k) m (clocked k) flip l)
            (λ m l. neg-strict x.unit d e (v.diffs k) m (clocked k) flip l)
            ((Above-l2u b (v.diffs k) range).0 le)
