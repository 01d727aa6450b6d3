-- ===== src/Walk/Memo.antt =====
-- A cached recursion yields what the recursion yields, if the entries of the current operation do.
use ucdd.Base.{
  [], ◌∷◌, suc, ℕ, ◌<◌, ◌≤◌, ◌≡◌, refl, subst, ◌∙◌, arith, Bool, true, false, ◌&&◌, ◌==◌, inl, inr,
  Bool-cases, Option, none, some, length, length-set, set, get_elem?, ◌%◌,
}
use mathlib.Core.Option.{some-injective}
use ucdd.Dd.{Dd}
use ucdd.Dd.Meaning.{Valuation, eval}
use ucdd.Dd.WellFormed.{IsWf}
use ucdd.Cache.{Entry, Cache, lookup, holds}
use ucdd.Cache.Laws.{All, All-get, All-set}
use ucdd.RelaxCache.{RelaxCache}
use ucdd.Machine.{Config, State, M, Rest, rest, ok}
use ucdd.Apply.Hit.{get_some, holds→eq, lookup_found}
use ucdd.Apply.Spec.{IsSound}
use ucdd.Ops.Yields.{Yields}
use ucdd.Walk.{Slot, quant_slot, replace_slot, cache_at, fill_entry, store_at, memo}

-- An entry is of the operation `n` or of an earlier one; the result of one of `n` is good.
pub record IsGoodEntry (n : ℕ) (G : Dd → Dd → Type 0) (e : Entry) : Type 0 where
  pub number : e.c ≤ n
  pub result : (node : Dd) → e.a ≡ some node → e.c ≡ n → (d : Dd) × (e.res ≡ some d) × G node d

abbrev pub cache_in : Slot → Rest → Cache
cache_in quant_slot (q, r, x, o) = q
cache_in replace_slot (q, r, x, o) = r

abbrev pub relax_in : Rest → RelaxCache
relax_in (q, r, x, o) = x

abbrev pub opid_in : Rest → ℕ
opid_in (q, r, x, o) = o

-- During the operation `n` the cache is not empty and its entries are good.
pub record During (slot : Slot) (n : ℕ) (G : Dd → Dd → Type 0) (X : RelaxCache → Type 0) (r : Rest)
    : Type 0 where
  pub current : opid_in r ≡ n
  pub room : 0 < length (cache_in slot r)
  pub entries : All (IsGoodEntry n G) (cache_in slot r)
  pub other : X (relax_in r)

module _ (n : ℕ) (G : Dd → Dd → Type 0) where
  filled-good :
      (o : Option Entry) (node d : Dd) (k : ℕ)
      → k ≡ n
      → G node d
      → IsGoodEntry n G (fill_entry o node d k)
  unfolding fill_entry
  filled-good none node d k e good = record {
    number = omega (arith, e);
    result = λ node' a c. (d, refl, subst (λ x. G x d) (some-injective _ _ a) good);
  }
  filled-good (some x) node d k e good = record {
    number = omega (arith, e);
    result = λ node' a c. (d, refl, subst (λ x. G x d) (some-injective _ _ a) good);
  }

  All-store :
      (c : Cache) (i : ℕ) (node d : Dd) (k : ℕ)
      → k ≡ n
      → G node d
      → All (IsGoodEntry n G) c
      → All (IsGoodEntry n G) (set c i (fill_entry (get_elem? c i) node d k))
  All-store c i node d k e good h =
      All-set (IsGoodEntry n G) c i _ h (filled-good (get_elem? c i) node d k e good)

store_at-During :
    (slot : Slot) (n : ℕ) (G : Dd → Dd → Type 0) (X : RelaxCache → Type 0) (i : ℕ) (node d : Dd)
    (s : State)
    → G node d
    → During slot n G X (rest s)
    → During slot n G X (rest (store_at slot i node d s))
unfolding store_at
store_at-During quant_slot n G X i node d s good h = record {
  current = h.current;
  room = rw length-set h.room;
  entries = All-store n G s.quantcache i node d s.opid h.current good h.entries;
  other = h.other;
}
store_at-During replace_slot n G X i node d s good h = record {
  current = h.current;
  room = rw length-set h.room;
  entries = All-store n G s.replacecache i node d s.opid h.current good h.entries;
  other = h.other;
}

store_at-IsSound :
    (cfg : Config) (slot : Slot) (i : ℕ) (node d : Dd) (s : State)
    → IsSound cfg s
    → IsSound cfg (store_at slot i node d s)
unfolding store_at
store_at-IsSound cfg quant_slot i node d s h = record {
  calm = h.calm;
  room = h.room;
  entries = h.entries;
}
store_at-IsSound cfg replace_slot i node d s h = record {
  calm = h.calm;
  room = h.room;
  entries = h.entries;
}

same_cache : (slot : Slot) (s : State) → cache_at slot s ≡ cache_in slot (rest s)
same_cache quant_slot s = refl
same_cache replace_slot s = refl

hit_run :
    (slot : Slot) (hash : ℕ) (node d : Dd) (m : M Dd) (s : State) (i : ℕ) (e : Entry)
    → lookup (cache_at slot s) hash ≡ some (i, e)
    → (holds e.a node && e.c == s.opid) ≡ true
    → e.res ≡ some d
    → memo slot hash node m s ≡ ok (d, s)
unfolding memo
hit_run slot hash node d m s i e found hit res = rw (memo, found, hit, res) refl

miss_run :
    (slot : Slot) (hash : ℕ) (node d : Dd) (m : M Dd) (s s' : State) (i : ℕ) (e : Entry)
    → lookup (cache_at slot s) hash ≡ some (i, e)
    → (holds e.a node && e.c == s.opid) ≡ false
    → m s ≡ ok (d, s')
    → memo slot hash node m s ≡ ok (d, store_at slot i node d s')
unfolding memo
miss_run slot hash node d m s s' i e found miss run = rw (memo, found, miss, run) refl

module _ (cfg : Config) (slot : Slot) (n : ℕ) (G : Dd → Dd → Type 0) (X : RelaxCache → Type 0) where
  pub memo-Yields :
      (hash : ℕ) (node : Dd) (w : ℕ) (f : Valuation → Bool) (m : M Dd)
      → ((d : Dd) → G node d → IsWf cfg.info w d × ((v : Valuation) → eval v d ≡ f v))
      → ((d : Dd) → IsWf cfg.info w d → ((v : Valuation) → eval v d ≡ f v) → G node d)
      → Yields cfg (During slot n G X) w f m
      → Yields cfg (During slot n G X) w f (memo slot hash node m)
  memo-Yields hash node w f m known made h s sound inside =
      let c = cache_at slot s in
      let same = same_cache slot s in
      let room : 0 < length c = rw same inside.room in
      let (e, at) = get_some c (hash % length c) (ground arith) in
      let found = lookup_found c hash e at in
      let good = All-get (IsGoodEntry n G) c _ e (rw same inside.entries) at in
      elim (Bool-cases (holds e.a node && e.c == s.opid)) [
        | inl hit ↦
            let (ha, hc) = parts e s.opid hit in
            let (d, res, g) = good.result node (holds→eq e.a node ha) (hc ∙ inside.current) in
            let (wf, means) = known d g in
            (
              d,
              s,
              hit_run slot hash node d m s _ e found hit res,
              (record { wf = wf; meaning = means; sound = sound }, inside),
            )
        | inr miss ↦
            let (d, s', run, (g, after)) = h s sound inside in
            (
              d,
              store_at slot _ node d s',
              miss_run slot hash node d m s s' _ e found miss run,
              (
                record {
                  wf = g.wf;
                  meaning = g.meaning;
                  sound = store_at-IsSound cfg slot _ node d s' g.sound;
                },
                store_at-During slot n G X _ node d s' (made d g.wf g.meaning) after,
              ),
            )
      ]
    where
      parts :
          (e : Entry) (k : ℕ)
          → (holds e.a node && e.c == k) ≡ true
          → (holds e.a node ≡ true) × (e.c ≡ k)
      parts e k hit = ground arith

-- The entries of earlier operations say nothing about the next one.
pub earlier :
    (G : Dd → Dd → Type 0) (o : ℕ) (c : Cache)
    → All (λ e. e.c ≤ o) c
    → All (IsGoodEntry (suc o) G) c
earlier G o [] h = tt
earlier G o (e ∷ c) h = (
  record { number = omega (arith, h.0); result = λ node a now. absurd (omega (arith, now, h.0)) },
  earlier G o c h.1,
)
