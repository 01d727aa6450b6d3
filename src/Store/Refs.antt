-- ===== src/Store/Refs.antt =====
-- The saturating counters of references, `cdd_satinc` and `cdd_satdec` of include/cdd/kernel.h, on a
-- field of 10 bits.
use ucdd.Base.{
  ℕ, suc, ◌+◌, ◌-◌, ◌<◌, ◌≡◌, refl, Bool-cases, arith, ◌%◌, ◌⊎◌, inl, inr, ◌==◌, if◌then◌else◌,
}

-- `MAXREF`
abbrev pub max_ref : ℕ
max_ref = 0x3FF

-- `ref += (ref != MAXREF)`
unfoldable pub cdd_satinc : ℕ → ℕ
cdd_satinc r = (r + (if r == max_ref then 0 else 1)) % 1024

-- `ref -= (ref != MAXREF)`
unfoldable pub cdd_satdec : ℕ → ℕ
cdd_satdec r = (r + 1024 - (if r == max_ref then 0 else 1)) % 1024

-- The counters that a node can have with a number of references to it, after it was made and
-- references were taken and released in some order.
pub data Counts : ℕ → ℕ → Type 0 where
  made : Counts 0 0
  taken : {r n : ℕ} → Counts r n → Counts (cdd_satinc r) (suc n)
  released : {r n : ℕ} → Counts r (suc n) → Counts (cdd_satdec r) n

-- The counter is below MAXREF and the number of references, or it is MAXREF.
abbrev pub IsExact : ℕ → ℕ → Type 0
IsExact r n = ((r < max_ref) × (r ≡ n)) ⊎ (r ≡ max_ref)

satinc-IsExact : (r n : ℕ) → IsExact r n → IsExact (cdd_satinc r) (suc n)
unfolding cdd_satinc
satinc-IsExact r n h = elim (Bool-cases (r == max_ref)) [
  | inl e ↦ rw e (ground (arith, h))
  | inr e ↦ rw e (ground (arith, h))
]

satdec-IsExact : (r n : ℕ) → IsExact r (suc n) → IsExact (cdd_satdec r) n
unfolding cdd_satdec
satdec-IsExact r n h = elim (Bool-cases (r == max_ref)) [
  | inl e ↦ rw e (ground (arith, h))
  | inr e ↦ rw e (ground (arith, h))
]

-- The counter of a node is the number of references to it while that is below MAXREF, and otherwise
-- it is MAXREF, and stays it; so a node whose counter is 0 has no references.
pub Counts-IsExact : (r n : ℕ) → Counts r n → IsExact r n
Counts-IsExact _ _ made = inl (ground arith, refl)
Counts-IsExact _ _ (taken h) = satinc-IsExact _ _ (Counts-IsExact _ _ h)
Counts-IsExact _ _ (released h) = satdec-IsExact _ _ (Counts-IsExact _ _ h)
