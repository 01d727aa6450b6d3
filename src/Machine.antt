-- ===== src/Machine.antt =====
-- The state that the operations of src/cddop.c share, and the ways in which they can stop. The
-- code has neither exceptions nor checks for these stops: a node wider than `cdd_maxcddsize`
-- makes `cdd_make_cdd_node` return NULL, which its callers follow.
use ucdd.Base.{ℕ, ℤ, ◌≡◌, refl, ◌⊎◌, inl, inr}
use ucdd.Dd.{Dd}
use ucdd.Cache.{Cache}
use ucdd.RelaxCache.{RelaxCache}

pub data LevelType : Type 0 where
  type_cdd type_bdd : LevelType

-- `LevelInfo`
pub record LevelInfo : Type 0 where
  pub type : LevelType
  pub clock1 : ℕ
  pub clock2 : ℕ
  pub diff : ℕ

pub data Fault : Type 0 where
  -- NULL from `cdd_make_cdd_node`, and NULL because `cdd_errorcond` is set
  too_wide backed_off : Fault
  -- a read outside an array, or of a node as one of the other type
  bad_read : Fault
  out_of_fuel : Fault

pub data Run (A : Type 0) : Type 0 where
  ok : A → Run A
  fault : Fault → Run A

-- The variables of src/cddop.c and src/kernel.c that the operations write.
pub record State : Type 0 where
  pub applycache : Cache
  pub quantcache : Cache
  pub replacecache : Cache
  pub relaxcache : RelaxCache
  pub errorcond : ℤ
  pub opid : ℕ

-- What the operations only read: the level table, the largest arity of a node, and the address of
-- each pointer (negation bit included), which the allocator chose.
pub record Config : Type 0 where
  pub info : ℕ → LevelInfo
  pub maxcddsize : ℕ
  pub address : Dd → ℕ

abbrev pub M : Type 0 → Type 0
M A = State → Run (A × State)

infixl 5 ◌>>=◌
abbrev pub ◌>>=◌ : {A B : Type 0} → M A → (A → M B) → M B
◌>>=◌ m f s = elim (m s) [ ok (a, s') ↦ f a s' | fault e ↦ fault e ]

abbrev pub return : {A : Type 0} → A → M A
return a s = ok (a, s)

abbrev pub stop : {A : Type 0} → Fault → M A
stop e s = fault e

-- The run ends with a value and a state of which `P` holds.
abbrev pub Returns : {A : Type 0} → Run (A × State) → (A → State → Type 0) → Type 0
Returns {A} r P = (a : A) × (s : State) × (r ≡ ok (a, s)) × P a s

-- The rule for a sequence: the second part meets the postcondition on what the first one returns.
pub >>=-Returns :
    {A B : Type 0} (m : M A) (f : A → M B) (s : State) (P : A → State → Type 0)
    (Q : B → State → Type 0)
    → Returns (m s) P
    → ((a : A) (s' : State) → P a s' → Returns (f a s') Q)
    → Returns ((m >>= f) s) Q
>>=-Returns m f s P Q (a, s', e, p) k = let (b, t, r, q) = k a s' p in (b, t, rw (e, ◌>>=◌) r, q)

Run-cases : {A : Type 0} (r : Run A) → ((a : A) × (r ≡ ok a)) ⊎ ((e : Fault) × (r ≡ fault e))
Run-cases (ok a) = inl (a, refl)
Run-cases (fault e) = inr (e, refl)

-- A sequence that returns has parts that return.
pub >>=-inv :
    {A B : Type 0} (m : M A) (f : A → M B) (s t : State) (b : B)
    → (m >>= f) s ≡ ok (b, t)
    → (a : A) × (s' : State) × (m s ≡ ok (a, s')) × (f a s' ≡ ok (b, t))
>>=-inv m f s t b h = elim (Run-cases (m s)) [
  | inl ((a, s'), e) ↦ (a, s', e, rw (◌>>=◌, e) at h)
  | inr (x, e) ↦ let h' : fault x ≡ ok (b, t) = rw (◌>>=◌, e) at h in cc
]

-- The parts of the state that the calls of `cdd_apply` do not touch.
abbrev pub Rest : Type 0
Rest = Cache × Cache × RelaxCache × ℕ

abbrev pub rest : State → Rest
rest s = (s.quantcache, s.replacecache, s.relaxcache, s.opid)

-- The command only touches the cache of `cdd_apply`.
abbrev pub IsLocal : {A : Type 0} → M A → Type 0
IsLocal {A} m = (s : State) (a : A) (s' : State) → m s ≡ ok (a, s') → rest s' ≡ rest s
