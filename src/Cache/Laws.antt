-- ===== src/Cache/Laws.antt =====
-- The cache keeps whatever is true of each of its entries.
use ucdd.Base.{
  ℕ, zero, suc, ◌<◌, ◌≡◌, refl, true, false, Option, none, some, List, [], ◌∷◌, ap, subst, ◌⊎◌,
  length, get_elem?, set,
}
use mathlib.Core.Option.{some-injective}
use ucdd.Dd.{Dd, Node, node_of}
use ucdd.Cache.{Entry, Cache, is_dead, flush}

abbrev pub All {ℓ κ} : {A : Type ℓ} → (A → Type κ) → List A → Type κ
All P [] = Unit
All P (x ∷ xs) = P x × All P xs

pub All-get {ℓ κ} :
    {A : Type ℓ} (P : A → Type κ) (xs : List A) (i : ℕ) (x : A)
    → All P xs
    → get_elem? xs i ≡ some x
    → P x
All-get P [] i x h e = cc
All-get P (y ∷ ys) zero x h e = subst P (some-injective _ _ e) h.0
All-get P (y ∷ ys) (suc i) x h e = All-get P ys i x h.1 e

pub All-set {ℓ κ} :
    {A : Type ℓ} (P : A → Type κ) (xs : List A) (i : ℕ) (x : A)
    → All P xs
    → P x
    → All P (set xs i x)
All-set P [] i x h p = h
All-set P (y ∷ ys) zero x h p = (p, h.1)
All-set P (y ∷ ys) (suc i) x h p = (h.0, All-set P ys i x h.1 p)

pub length-map-flush : (refs : Node → ℕ) (c : Cache) → length (flush refs c) ≡ length c
unfolding flush
length-map-flush refs [] = refl
length-map-flush refs (e ∷ c) = ap suc (length-map-flush refs c)

-- The entry has an argument, and no diagram of it is dead.
abbrev pub IsAlive : (Node → ℕ) → Entry → Type 0
IsAlive refs e =
    (d : Dd) × (e.a ≡ some d)
    × (0 < refs (node_of d))
    × (is_dead refs e.res ≡ false)
    × (is_dead refs e.b ≡ false)

-- The entry can no longer be hit.
abbrev pub IsCleared : Entry → Type 0
IsCleared e = (e.a ≡ none) × (e.b ≡ none)

-- What `flush` does to an entry: it stays as it is if it has no argument or nothing of it is dead,
-- and is cleared if something of it is.
abbrev pub Flushed : (Node → ℕ) → Entry → Option Dd → Entry → Type 0
Flushed refs e none e' = e' ≡ e
Flushed refs e (some d) e' =
    ((0 < refs (node_of d)) × (is_dead refs e.res ≡ false) × (is_dead refs e.b ≡ false) × (e' ≡ e))
    ⊎ (((refs (node_of d) ≡ 0) ⊎ (is_dead refs e.res ≡ true) ⊎ (is_dead refs e.b ≡ true))
        × IsCleared e')

-- Two tables agree entry by entry under a relation.
abbrev pub All₂ {ℓ} : {A : Type ℓ} → (A → A → Type 0) → List A → List A → Type 0
All₂ R [] [] = Unit
All₂ R (x ∷ xs) (y ∷ ys) = R x y × All₂ R xs ys
All₂ R _ _ = ⊥
