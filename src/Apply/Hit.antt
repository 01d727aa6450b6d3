-- ===== src/Apply/Hit.antt =====
-- The cache of `cdd_apply_rec`: hits, and the entries that it writes.
use ucdd.Base.{
  ℕ, zero, suc, ◌+◌, ◌≤◌, ◌<◌, ◌%◌, true, ◌≡◌, refl, arith, ap, Option, some, none, length,
  length-set, List, [], ◌∷◌, get_elem?,
}
use mathlib.Core.Option.{some-injective}
use Prim.Native.Nat.{max}
use ucdd.Dd.{Dd}
use ucdd.Dd.Equality.{same→eq}
use ucdd.Dd.WellFormed.{IsWf, IsWf-widen, width, width-le}
use ucdd.Cache.{Cache, Entry, lookup, holds}
use ucdd.Cache.Laws.{All-set}
use ucdd.Machine.{Config, State}
use ucdd.Apply.{Op, op_code, store_apply, is_hit}
use ucdd.Apply.Spec.{IsOp, IsSound, IsSoundEntry, Result}

pub lookup_found :
    (c : Cache) (hash : ℕ) (e : Entry)
    → get_elem? c (hash % length c) ≡ some e
    → lookup c hash ≡ some (hash % length c, e)
unfolding lookup
lookup_found c hash e h = rw (lookup, h)

pub get_some :
    {A : Type 0} (xs : List A) (i : ℕ) → i < length xs → (x : A) × (get_elem? xs i ≡ some x)
get_some [] i h = absurd (omega arith)
get_some (x ∷ xs) zero h = (x, refl)
get_some (x ∷ xs) (suc i) h = get_some xs i (omega arith)

pub holds→eq : (o : Option Dd) (d : Dd) → holds o d ≡ true → o ≡ some d
holds→eq none d h = cc
holds→eq (some x) d h = ap some (same→eq x d h)

op_code_inj : (p q : Op) → op_code p ≡ op_code q → p ≡ q
op_code_inj p q h = ground arith

module _ (cfg : Config) (op : Op) where
  -- The least width, at least one, that both arguments fit in.
  abbrev pub needed : Dd → Dd → ℕ
  needed l r = max 1 (max (width l) (width r))

  -- An entry written after the recursion is sound.
  pub new-IsSound :
      (l r d : Dd)
      → IsWf cfg.info (needed l r + needed l r) d
      → IsOp op l r d
      → IsSoundEntry cfg (record { a = some l; b = some r; res = some d; c = op_code op })
  new-IsSound l r d wf means = record {
    result = λ op' w l' r' el er ec one wl wr.
        let el' : l ≡ l' = some-injective _ _ el in
        let er' : r ≡ r' = some-injective _ _ er in
        let hl : width l ≤ w = rw el' (width-le cfg.info w l' wl) in
        let hr : width r ≤ w = rw er' (width-le cfg.info w r' wr) in
        (
          d,
          refl,
          IsWf-widen cfg.info (needed l r + needed l r) (w + w) (omega (arith, hl, hr)) d wf,
          λ v. rw (← op_code_inj op op' ec, ← el', ← er') (means v),
        );
  }

  pub store-IsSound :
      (i : ℕ) (e : Entry) (s : State)
      → IsSoundEntry cfg e
      → IsSound cfg s
      → IsSound cfg (store_apply i e s)
  unfolding store_apply
  store-IsSound i e s new h = record {
    calm = h.calm;
    room = rw length-set h.room;
    entries = All-set (IsSoundEntry cfg) s.applycache i e h.entries new;
  }

  -- A hit returns what the entry promises.
  pub hit-Result :
      (w : ℕ) (l r : Dd) (s : State) (e : Entry)
      → 1 ≤ w
      → IsWf cfg.info w l
      → IsWf cfg.info w r
      → IsSound cfg s
      → IsSoundEntry cfg e
      → is_hit e l r (op_code op) ≡ true
      → (d : Dd) × (e.res ≡ some d) × Result cfg op w l r d s
  hit-Result w l r s e one wl wr sound good hit =
      let (ha, hb, hc) = hit_parts in
      let (d, res, wf, means) =
        good.result op w l r (holds→eq e.a l ha) (holds→eq e.b r hb) hc one wl wr in
      (d, res, record { wf = wf; meaning = means; sound = sound })
    where
      hit_parts : (holds e.a l ≡ true) × (holds e.b r ≡ true) × (e.c ≡ op_code op)
      hit_parts = ground arith
