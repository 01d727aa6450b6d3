-- ===== src/RelaxCache.antt =====
-- The cache of `relax`, src/relax.c and src/relax.h: a hash table without collision lists, as the
-- one of Cache. A NULL pointer is `none`.
use ucdd.Base.{ℕ, Option, none, some, List, ℤ, pos, length, replicate}
use ucdd.Dd.{Dd}

-- `CddRelaxCacheData`
pub record RelaxEntry : Type 0 where
  pub res : Option Dd
  pub node : Option Dd
  pub lower : ℤ
  pub upper : ℤ
  pub clock1 : ℕ
  pub clock2 : ℕ
  pub op : ℕ

abbrev pub RelaxCache : Type 0
RelaxCache = List RelaxEntry

-- Memory filled with zeroes.
abbrev pub zeroed_relax : RelaxEntry
zeroed_relax = record {
  res = none;
  node = none;
  lower = pos 0;
  upper = pos 0;
  clock1 = 0;
  clock2 = 0;
  op = 0;
}

-- `CddRelaxCache_reset`
unfoldable pub relax_reset : RelaxCache → RelaxCache
relax_reset cache = replicate (length cache) zeroed_relax

-- `CddRelaxCache_init`, on the memory that `malloc` returned; `none` is the error CDD_MEMORY.
unfoldable pub relax_init : Option (List RelaxEntry) → Option RelaxCache
unfolding relax_reset
relax_init none = none
relax_init (some memory) = some (relax_reset memory)
