-- ===== src/Walk.antt =====
-- Two patterns of the recursive operations of src/cddop.c: the loop over the children of a CDD node
-- with the iterator of include/cdd/kernel.h, and the lookup in a cache whose entries carry the
-- number `opid` of the operation they belong to.
pub mod Loop
pub mod Room
pub mod Children
pub mod Memo
use ucdd.Base.{
  ℕ, Bool, true, false, ◌&&◌, ◌==◌, if◌then◌else◌, Option, none, some, ℤ, ◌==ℤ◌, length, set,
  get_elem?,
}
use ucdd.Bounds.{infinity}
use ucdd.Dd.{Dd, Elems, nil, elem, cdd_neg_cond}
use ucdd.Cache.{Entry, Cache, lookup, holds}
use ucdd.Machine.{State, M, ok, fault, bad_read, ◌>>=◌, return, stop}

-- The loop over `cdd_it_init`, `cdd_it_atend` and `cdd_it_next`, from the lower bound `low` on: the
-- body takes the lower bound, the upper bound, the child with its negation and the result so far.
unfoldable pub iterate : (ℤ → ℤ → Dd → Dd → M Dd) → Bool → ℤ → Elems → Dd → M Dd
iterate body neg low nil res = if low ==ℤ infinity then return res else stop bad_read
iterate body neg low (elem c b es) res =
    if low ==ℤ infinity
    then return res
    else (do res' ← body low b (cdd_neg_cond c neg) res; iterate body neg b es res')

-- `quantcache` and `replacecache`
pub data Slot : Type 0 where
  quant_slot replace_slot : Slot

abbrev pub cache_at : Slot → State → Cache
cache_at quant_slot s = s.quantcache
cache_at replace_slot s = s.replacecache

abbrev pub put_cache : Slot → Cache → State → State
put_cache quant_slot c s = record s { quantcache = c }
put_cache replace_slot c s = record s { replacecache = c }

-- `entry->a`, `entry->c` and `entry->res` are written, and `entry->b` is kept.
unfoldable pub fill_entry : Option Entry → Dd → Dd → ℕ → Entry
fill_entry none node res opid = record { a = some node; b = none; res = some res; c = opid }
fill_entry (some e) node res opid = record { a = some node; b = e.b; res = some res; c = opid }

unfoldable pub store_at : Slot → ℕ → Dd → Dd → State → State
unfolding fill_entry
store_at slot i node res s =
    put_cache slot
      (set (cache_at slot s) i (fill_entry (get_elem? (cache_at slot s) i) node res s.opid)) s

-- The lookup before, and the update of the entry after the recursion `m`.
unfoldable pub memo : Slot → ℕ → Dd → M Dd → M Dd
unfolding store_at
memo slot hash node m s = elim (lookup (cache_at slot s) hash) [
  | none ↦ fault bad_read
  | some (i, e) ↦
      if holds e.a node && e.c == s.opid
      then elim e.res [ none ↦ fault bad_read | some d ↦ ok (d, s) ]
      else (elim (m s) [ fault f ↦ fault f | ok (d, s') ↦ ok (d, store_at slot i node d s') ])
]
