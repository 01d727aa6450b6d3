-- ===== src/Start/Outcomes.antt =====
-- How `cdd_init` ends, and what `cdd_done` does after it.
use ucdd.Base.{ℕ, Bool, true, false, ◌&&◌, ◌||◌, ◌≡◌, refl, sym, subst, arith}
use ucdd.Machine.{ok}
use ucdd.Start.{Outcome, started, refused, cdd_memory, Kernel, Memory, cdd_done, cdd_init}

abbrev caches_succeed : Memory → Bool
caches_succeed mem =
    mem.for_applycache && (mem.for_quantcache && (mem.for_replacecache && mem.for_relaxcache))

-- Every allocation that the code tests succeeds.
abbrev pub all_succeed : Memory → Bool
all_succeed mem = caches_succeed mem && (mem.for_refstack && mem.for_cddmanager)

-- Everything that `cdd_init` allocates is held.
abbrev pub holds_all : Kernel → Bool
holds_all k =
    (k.applycache && (k.quantcache && (k.replacecache && k.relaxcache)))
    && (k.refstack && (k.cddmanager && k.bddmanager))

-- Something that `cdd_init` or a later call allocates is held.
abbrev pub holds_some : Kernel → Bool
holds_some k =
    (k.applycache || (k.quantcache || (k.replacecache || k.relaxcache)))
    || (k.refstack || (k.cddmanager || (k.bddmanager || (k.levelinfo || k.diff2level))))

-- What `cdd_init` does from the kernel.
abbrev Ends : Memory → ℕ → ℕ → ℕ → Kernel → Type 0
Ends mem maxsize cs stacksize k =
    (o : Outcome) × (k' : Kernel) × (cdd_init mem maxsize cs stacksize k ≡ ok (o, k'))
    × (all_succeed mem ≡ true
        → (o ≡ started)
          × (k'.running ≡ true)
          × (holds_all k' ≡ true)
          × (holds_some (cdd_done k') ≡ false)
          × ((cdd_done k').running ≡ false))
    × (all_succeed mem ≡ false
        → (o ≡ refused cdd_memory)
          × (k'.running ≡ false)
          × (k'.applycache ≡ mem.for_applycache)
          × (cdd_done k' ≡ k'))

module _ (maxsize cs stacksize : ℕ) (k : Kernel) where
  abbrev memory : Bool → Bool → Bool → Bool → Bool → Bool → Memory
  memory a q r x s m = record {
    for_applycache = a;
    for_quantcache = q;
    for_replacecache = r;
    for_relaxcache = x;
    for_refstack = s;
    for_cddmanager = m;
    for_bddmanager = true;
  }

  impossible : {P : Type 0} → false ≡ true → P
  impossible h = absurd (ground (arith, h))

  impossible' : {P : Type 0} → true ≡ false → P
  impossible' h = absurd (ground (arith, h))

  all_cases :
      (a q r x s m : Bool)
      → Ends (memory a q r x s m) maxsize cs stacksize (record k { running = false })
  unfolding cdd_init
  all_cases false q r x s m =
      (refused cdd_memory, _, refl, impossible, λ h. (refl, refl, refl, refl))
  all_cases true false r x s m =
      (refused cdd_memory, _, refl, impossible, λ h. (refl, refl, refl, refl))
  all_cases true true false x s m =
      (refused cdd_memory, _, refl, impossible, λ h. (refl, refl, refl, refl))
  all_cases true true true false s m =
      (refused cdd_memory, _, refl, impossible, λ h. (refl, refl, refl, refl))
  all_cases true true true true false m =
      (refused cdd_memory, _, refl, impossible, λ h. (refl, refl, refl, refl))
  all_cases true true true true true false =
      (refused cdd_memory, _, refl, impossible, λ h. (refl, refl, refl, refl))
  all_cases true true true true true true =
      (started, _, refl, λ h. (refl, refl, refl, refl, refl), impossible')

init-Ends :
    (mem : Memory) (maxsize cs stacksize : ℕ) (k : Kernel)
    → k.running ≡ false
    → mem.for_bddmanager ≡ true
    → Ends mem maxsize cs stacksize k
init-Ends mem maxsize cs stacksize k stopped some_node =
    let same : record k { running = false } ≡ k = λ i. record k { running = sym stopped i } in
    let granted : record mem { for_bddmanager = true } ≡ mem =
      λ i. record mem { for_bddmanager = sym some_node i } in
    subst (λ m. Ends m maxsize cs stacksize k) granted
      (subst (λ x. Ends (record mem { for_bddmanager = true }) maxsize cs stacksize x) same
        (all_cases maxsize cs stacksize k mem.for_applycache mem.for_quantcache mem.for_replacecache
          mem.for_relaxcache mem.for_refstack mem.for_cddmanager))

-- From a kernel that is not running, when every allocation succeeds: `cdd_init` starts the library,
-- which then holds all memory, and `cdd_done` after it gives all back and stops the library.
pub done-init :
    (mem : Memory) (maxsize cs stacksize : ℕ) (k : Kernel)
    → k.running ≡ false
    → mem.for_bddmanager ≡ true
    → all_succeed mem ≡ true
    → (k' : Kernel) × (cdd_init mem maxsize cs stacksize k ≡ ok (started, k'))
      × (k'.running ≡ true)
      × (holds_all k' ≡ true)
      × (holds_some (cdd_done k') ≡ false)
      × ((cdd_done k').running ≡ false)
done-init mem maxsize cs stacksize k stopped some_node all =
    let (o, k', run, good, bad) = init-Ends mem maxsize cs stacksize k stopped some_node in
    let (same, runs, holds, gone, ended) = good all in
    (k', rw (← same) run, runs, holds, gone, ended)

-- From a kernel that is not running, when an allocation that the code tests fails and the one that it
-- does not test succeeds: `cdd_init` returns CDD_MEMORY and the library does not run; the memory for
-- the first cache is held if it was allocated, and `cdd_done` after it does nothing, so that no memory
-- is given back.
pub init_fails :
    (mem : Memory) (maxsize cs stacksize : ℕ) (k : Kernel)
    → k.running ≡ false
    → mem.for_bddmanager ≡ true
    → all_succeed mem ≡ false
    → (k' : Kernel) × (cdd_init mem maxsize cs stacksize k ≡ ok (refused cdd_memory, k'))
      × (k'.running ≡ false)
      × (k'.applycache ≡ mem.for_applycache)
      × (cdd_done k' ≡ k')
init_fails mem maxsize cs stacksize k stopped some_node some_fail =
    let (o, k', run, good, bad) = init-Ends mem maxsize cs stacksize k stopped some_node in
    let (same, rests, held, stays) = bad some_fail in (k', rw (← same) run, rests, held, stays)
