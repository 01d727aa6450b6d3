-- ===== src/Apply/Spec.antt =====
-- What a call of `cdd_apply_rec` promises, and the invariant of the cache that it keeps.
use ucdd.Base.{ℕ, ◌+◌, ◌<◌, ◌≤◌, Bool, xor, ◌&&◌, ◌≡◌, pos, some, length}
use ucdd.Dd.{Dd}
use ucdd.Dd.Meaning.{Valuation, eval}
use ucdd.Dd.WellFormed.{IsWf, height}
use ucdd.Cache.{Entry}
use ucdd.Cache.Laws.{All}
use ucdd.Machine.{Config, State, Returns}
use ucdd.Apply.{Op, cddop_and, cddop_xor, op_code, Recursion}

abbrev pub op_bool : Op → Bool → Bool → Bool
op_bool cddop_and a b = a && b
op_bool cddop_xor a b = xor a b

-- The diagram `d` is the operation on `l` and `r`.
abbrev pub IsOp : Op → Dd → Dd → Dd → Type 0
IsOp op l r d = (v : Valuation) → eval v d ≡ op_bool op (eval v l) (eval v r)

module _ (cfg : Config) where
  -- An entry that can be hit holds the result of its operation, at most as wide as both
  -- arguments together.
  pub record IsSoundEntry (e : Entry) : Type 0 where
    pub result :
        (op : Op) (w : ℕ) (l r : Dd)
        → e.a ≡ some l
        → e.b ≡ some r
        → e.c ≡ op_code op
        → 1 ≤ w
        → IsWf cfg.info w l
        → IsWf cfg.info w r
        → (d : Dd) × (e.res ≡ some d) × IsWf cfg.info (w + w) d × IsOp op l r d

  -- No error is pending, and the cache is not empty and sound.
  pub record IsSound (s : State) : Type 0 where
    pub calm : s.errorcond ≡ pos 0
    pub room : 0 < length s.applycache
    pub entries : All IsSoundEntry s.applycache

  -- The result is well formed, means what it should, and the state stays sound.
  pub record Result (op : Op) (w : ℕ) (l r d : Dd) (s : State) : Type 0 where
    pub wf : IsWf cfg.info (w + w) d
    pub meaning : IsOp op l r d
    pub sound : IsSound s

  -- A recursive call that keeps the promise on diagrams of width `w` and height sum below `h`.
  abbrev pub Keeps : Op → ℕ → ℕ → Recursion → Type 0
  Keeps op w h rec =
      (l r : Dd) (s : State)
      → IsWf cfg.info w l
      → IsWf cfg.info w r
      → height l + height r < h
      → IsSound s
      → Returns (rec l r s) (λ d s'. Result op w l r d s')

  -- The same for diagrams of any width for which a node of twice the width is allowed.
  abbrev pub KeepsAll : Op → ℕ → Recursion → Type 0
  KeepsAll op h rec = (w : ℕ) → w + w ≤ cfg.maxcddsize → 1 ≤ w → Keeps op w h rec
