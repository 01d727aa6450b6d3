-- ===== src/Tests/StartExamples.antt =====
-- The theorems on the start of the library, with enough memory and without it.
use ucdd.Base.{true, false, ◌≡◌, refl}
use ucdd.Machine.{ok}
use ucdd.Start.{started, refused, cdd_memory, Kernel, Memory, cdd_init, cdd_done}
use ucdd.Start.Outcomes.{holds_all, holds_some, done-init, init_fails}

abbrev at_rest : Kernel
at_rest = record {
  running = false;
  maxcddsize = 0;
  maxcddused = 0;
  levelcnt = 0;
  chunkcnt = 0;
  clocknum = 0;
  varnum = 0;
  refstacksize = 0;
  cachesize = 0;
  applycache = false;
  quantcache = false;
  replacecache = false;
  relaxcache = false;
  refstack = false;
  cddmanager = false;
  bddmanager = false;
  levelinfo = false;
  diff2level = false;
  extra_terminals = 0;
}

abbrev enough : Memory
enough = record {
  for_applycache = true;
  for_quantcache = true;
  for_replacecache = true;
  for_relaxcache = true;
  for_refstack = true;
  for_cddmanager = true;
  for_bddmanager = true;
}

abbrev no_stack : Memory
no_stack = record enough { for_refstack = false }

done-init_example :
    (k : Kernel) × (cdd_init enough 64 10000 10000 at_rest ≡ ok (started, k))
    × (k.running ≡ true)
    × (holds_all k ≡ true)
    × (holds_some (cdd_done k) ≡ false)
    × ((cdd_done k).running ≡ false)
done-init_example = done-init enough 64 10000 10000 at_rest refl refl refl

init_fails_example :
    (k : Kernel) × (cdd_init no_stack 64 10000 10000 at_rest ≡ ok (refused cdd_memory, k))
    × (k.running ≡ false)
    × (k.applycache ≡ true)
    × (cdd_done k ≡ k)
init_fails_example = init_fails no_stack 64 10000 10000 at_rest refl refl refl
