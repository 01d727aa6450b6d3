-- ===== src/Start.antt =====
-- The start and the shutdown of the library: `cdd_init` and `cdd_done` of src/kernel.c with
-- `cdd_operator_init` and `cdd_operator_done` of src/cddop.c. The state is which memory the library
-- holds, one field for each pointer that is not NULL, and the counters; which allocations succeed is
-- an input. The handlers and the clocks that measure times are left out.
pub mod Outcomes
use ucdd.Base.{ℕ, Bool, true, false, not, ◌&&◌, ◌||◌, if◌then◌else◌}
use ucdd.Machine.{Run, ok, fault, bad_read}

-- `CDD_RUNNING` and `CDD_MEMORY`.
pub data ErrorCode : Type 0 where
  cdd_is_running cdd_memory : ErrorCode

-- The result of `cdd_init`: 0 or an error.
pub data Outcome : Type 0 where
  started : Outcome
  refused : ErrorCode → Outcome

pub record Kernel : Type 0 where
  pub running : Bool
  pub maxcddsize : ℕ
  pub maxcddused : ℕ
  pub levelcnt : ℕ
  pub chunkcnt : ℕ
  pub clocknum : ℕ
  pub varnum : ℕ
  pub refstacksize : ℕ
  pub cachesize : ℕ
  pub applycache : Bool
  pub quantcache : Bool
  pub replacecache : Bool
  pub relaxcache : Bool
  pub refstack : Bool
  pub cddmanager : Bool
  pub bddmanager : Bool
  pub levelinfo : Bool
  pub diff2level : Bool
  pub extra_terminals : ℕ

-- Which allocations succeed.
pub record Memory : Type 0 where
  pub for_applycache : Bool
  pub for_quantcache : Bool
  pub for_replacecache : Bool
  pub for_relaxcache : Bool
  pub for_refstack : Bool
  pub for_cddmanager : Bool
  pub for_bddmanager : Bool

-- The four caches are allocated one after the other; the first failure ends it.
unfoldable pub cdd_operator_init : Memory → ℕ → Kernel → Bool × Kernel
cdd_operator_init mem cs k =
    let k₁ = record k { applycache = mem.for_applycache } in
    let k₂ = record k₁ { quantcache = mem.for_quantcache } in
    let k₃ = record k₂ { replacecache = mem.for_replacecache } in
    let k₄ = record k₃ { relaxcache = mem.for_relaxcache } in
    if not mem.for_applycache
    then (false, k₁)
    else if not mem.for_quantcache
    then (false, k₂)
    else if not mem.for_replacecache
    then (false, k₃)
    else if not mem.for_relaxcache
    then (false, k₄)
    else (true, record k₄ { cachesize = cs })

unfoldable pub cdd_operator_done : Kernel → Kernel
cdd_operator_done k = record k {
  applycache = false;
  quantcache = false;
  replacecache = false;
  relaxcache = false;
  cachesize = 0;
}

-- Nothing is done when the library is not running.
unfoldable pub cdd_done : Kernel → Kernel
unfolding cdd_operator_done
cdd_done k = if not k.running then k else record (cdd_operator_done k) {
  bddmanager = false;
  cddmanager = false;
  refstack = false;
  levelinfo = false;
  diff2level = false;
  extra_terminals = 0;
  running = false;
}

-- The assignments at the start of `cdd_init`; those that are set to NULL are no longer held.
unfoldable pub zero_kernel : ℕ → Kernel → Kernel
zero_kernel maxsize k = record k {
  maxcddsize = maxsize;
  maxcddused = 0;
  levelcnt = 0;
  chunkcnt = 0;
  refstack = false;
  cddmanager = false;
  bddmanager = false;
  levelinfo = false;
  diff2level = false;
  clocknum = 0;
  varnum = 0;
}

-- The part after the caches. `cdd_alloc_nodemanager` writes to its memory without a test, and makes
-- the chunk of the sentinel. One flag stands for the memory of the manager and of the chunk: both are
-- written to at once, so a failure of either has the same effect. The array of tables has no element
-- yet and is not written to.
unfoldable pub init_managers : Memory → ℕ → Kernel → Run (Outcome × Kernel)
unfolding cdd_done
init_managers mem stacksize k =
    if not mem.for_bddmanager
    then fault bad_read
    else let full = record k {
      refstacksize = stacksize;
      refstack = mem.for_refstack;
      cddmanager = mem.for_cddmanager;
      bddmanager = true;
      chunkcnt = 1;
    } in
      if not mem.for_refstack || not mem.for_cddmanager
      then ok (refused cdd_memory, cdd_done full)
      else ok (started, record full { running = true })

unfoldable pub cdd_init : Memory → ℕ → ℕ → ℕ → Kernel → Run (Outcome × Kernel)
unfolding zero_kernel cdd_operator_init init_managers cdd_done
cdd_init mem maxsize cs stacksize k =
    if k.running
    then ok (refused cdd_is_running, k)
    else let caches = cdd_operator_init mem cs (zero_kernel maxsize k) in
      if not caches.0
      then ok (refused cdd_memory, cdd_done caches.1)
      else init_managers mem stacksize caches.1

-- The library is started with its default sizes if it does not run; the result is not looked at.
unfoldable pub cdd_ensure_running : Memory → Kernel → Run Kernel
unfolding cdd_init
cdd_ensure_running mem k =
    if not k.running
    then elim (cdd_init mem 64 10000 10000 k) [ ok (o, k') ↦ ok k' | fault e ↦ fault e ]
    else ok k
