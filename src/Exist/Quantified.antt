-- ===== src/Exist/Quantified.antt =====
-- Existential quantification of Boolean variables in a Boolean function of valuations.
use ucdd.Base.{
  ℕ, ◌≡◌, ◌≢◌, refl, arith, inl, inr, Bool, true, false, ◌&&◌, ◌||◌, ◌==◌, if◌then◌else◌,
  Bool-cases, List, [], ◌∷◌,
}
use ucdd.Dd.Meaning.{Valuation}

-- The variable of level `k` gets the value `x`.
abbrev pub assign : ℕ → Bool → Valuation → Valuation
assign k x v = record {
  bools = λ j. if j == k then x else v.bools j;
  diffs = v.diffs;
  above = v.above;
  in_range = v.in_range;
}

-- Some values of the variables of the levels make the function true.
unfoldable pub quantified : List ℕ → (Valuation → Bool) → Valuation → Bool
quantified [] f v = f v
quantified (k ∷ ks) f v = quantified ks f (assign k false v) || quantified ks f (assign k true v)

pub quantified-or :
    (ks : List ℕ) (f g : Valuation → Bool) (v : Valuation)
    → quantified ks (λ u. f u || g u) v ≡ (quantified ks f v || quantified ks g v)
unfolding quantified
quantified-or [] f g v = refl
quantified-or (k ∷ ks) f g v =
    rw (quantified-or ks f g (assign k false v), quantified-or ks f g (assign k true v))
      (ground arith)

-- The function depends on the positions of the differences only.
pub quantified-and :
    (ks : List ℕ) (f g : Valuation → Bool) (v : Valuation)
    → ((u : Valuation) (k : ℕ) (x : Bool) → f (assign k x u) ≡ f u)
    → quantified ks (λ u. f u && g u) v ≡ (f v && quantified ks g v)
unfolding quantified
quantified-and [] f g v same = refl
quantified-and (k ∷ ks) f g v same =
    rw
      (
        quantified-and ks f g (assign k false v) same,
        quantified-and ks f g (assign k true v) same,
        same v k false,
        same v k true,
      )
      (ground arith)

pub quantified-const : (ks : List ℕ) (x : Bool) (v : Valuation) → quantified ks (λ u. x) v ≡ x
unfolding quantified
quantified-const [] x v = refl
quantified-const (k ∷ ks) x v =
    rw (quantified-const ks x (assign k false v), quantified-const ks x (assign k true v))
      (ground arith)

pub quantified-same :
    (ks : List ℕ) (f g : Valuation → Bool) (v : Valuation)
    → ((u : Valuation) → f u ≡ g u)
    → quantified ks f v ≡ quantified ks g v
unfolding quantified
quantified-same [] f g v same = same v
quantified-same (k ∷ ks) f g v same =
    rw
      (
        quantified-same ks f g (assign k false v) same,
        quantified-same ks f g (assign k true v) same,
      )
      refl

-- The level is one of the list.
unfoldable pub is_listed : ℕ → List ℕ → Bool
is_listed k [] = false
is_listed k (j ∷ js) = j == k || is_listed k js

-- A variable that is not quantified still chooses.
pub quantified-if :
    (ks : List ℕ) (k : ℕ) (f g : Valuation → Bool) (v : Valuation)
    → is_listed k ks ≡ false
    → quantified ks (λ u. if u.bools k then f u else g u) v
      ≡ (if v.bools k then quantified ks f v else quantified ks g v)
unfolding quantified is_listed
quantified-if [] k f g v free = refl
quantified-if (j ∷ js) k f g v free =
    let here : (k == j) ≡ false = ground arith in
    let later : is_listed k js ≡ false = ground arith in
    rw
      (
        quantified-if js k f g (assign j false v) later,
        quantified-if js k f g (assign j true v) later,
        here,
      )
      (ground arith)

-- Two valuations that differ at most in the variable of level `k`.
abbrev pub Agree : ℕ → Valuation → Valuation → Type 0
Agree k u v = ((j : ℕ) → j ≢ k → u.bools j ≡ v.bools j) × ((j : ℕ) → u.diffs j ≡ v.diffs j)

abbrev pub Ignores : ℕ → (Valuation → Bool) → Type 0
Ignores k f = (u v : Valuation) → Agree k u v → f u ≡ f v

assign-Agree :
    (k j : ℕ) (x : Bool) (u v : Valuation) → Agree k u v → Agree k (assign j x u) (assign j x v)
assign-Agree k j x u v (b, d) =
    (λ i ne. elim (Bool-cases (i == j)) [ inl e ↦ rw e refl | inr e ↦ rw e (b i ne) ], d)

quantified-Ignores :
    (ks : List ℕ) (k : ℕ) (f : Valuation → Bool) → Ignores k f → Ignores k (quantified ks f)
unfolding quantified
quantified-Ignores [] k f h u v a = h u v a
quantified-Ignores (j ∷ js) k f h u v a =
    rw
      (
        quantified-Ignores js k f h (assign j false u) (assign j false v)
            (assign-Agree k j false u v a),
        quantified-Ignores js k f h (assign j true u) (assign j true v)
            (assign-Agree k j true u v a),
      )
      refl

assigned-Agree : (k : ℕ) (x : Bool) (v : Valuation) → Agree k (assign k x v) v
assigned-Agree k x v = (λ j ne. ground arith, λ j. refl)

-- A variable that is quantified joins what it chose between.
pub quantified-join :
    (ks : List ℕ) (k : ℕ) (f g : Valuation → Bool) (v : Valuation)
    → is_listed k ks ≡ true
    → Ignores k f
    → Ignores k g
    → quantified ks (λ u. if u.bools k then f u else g u) v
      ≡ (quantified ks g v || quantified ks f v)
unfolding quantified is_listed
quantified-join [] k f g v listed hf hg = absurd (ground arith)
quantified-join (j ∷ js) k f g v listed hf hg = elim (Bool-cases (is_listed k js)) [
  | inl later ↦
      rw
        (
          quantified-join js k f g (assign j false v) later hf hg,
          quantified-join js k f g (assign j true v) later hf hg,
        )
        (ground arith)
  | inr none ↦
      let here : j ≡ k = ground arith in
      let same : (k == j) ≡ true = ground arith in
      let at = λ (h : Valuation → Bool) (hh : Ignores k h) (x : Bool).
        quantified-Ignores js k h hh (assign j x v) v (rw here (assigned-Agree k x v)) in
      rw
        (
          quantified-if js k f g (assign j false v) none,
          quantified-if js k f g (assign j true v) none,
          same,
          at f hf true,
          at g hg false,
          at f hf false,
          at g hg true,
        )
        (ground arith)
]
