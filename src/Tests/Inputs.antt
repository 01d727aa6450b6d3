-- ===== src/Tests/Inputs.antt =====
-- The inputs of the runs: two levels of each type, a cache of four entries, and diagrams over them.
use ucdd.Base.{ℕ, ◌+◌, [], ◌∷◌, true, false, arith, some, pos, replicate, if◌then◌else◌, ltb}
use ucdd.Bounds.{infinity}
use ucdd.Dd.{Dd, Node, ptr, terminal, xterm, bdd_node, cdd_node, nil, elem, cddtrue, cddfalse}
use ucdd.Dd.Meaning.{Valuation}
use ucdd.Cache.{Cache, zeroed}
use ucdd.RelaxCache.{zeroed_relax}
use ucdd.Machine.{Config, State, LevelInfo, type_cdd, type_bdd}

-- Levels 0 and 1 are differences of clocks, all others Boolean variables.
abbrev pub levels : ℕ → LevelInfo
levels k = record {
  type = if ltb k 2 then type_cdd else type_bdd;
  clock1 = k + 1;
  clock2 = 0;
  diff = 0;
}

-- Addresses that only tell the type of the node and the negation bit.
abbrev pub addresses : Dd → ℕ
addresses (ptr m terminal) = 16 + (if m then 1 else 0)
addresses (ptr m (xterm id)) = 32 + (if m then 1 else 0)
addresses (ptr m (bdd_node k low high)) = 48 + (if m then 1 else 0)
addresses (ptr m (cdd_node k es)) = 64 + (if m then 1 else 0)

abbrev pub config : Config
config = record { info = levels; maxcddsize = 16; address = addresses }

abbrev pub empty_cache : Cache
empty_cache = replicate 4 zeroed

abbrev pub start : State
start = record {
  applycache = empty_cache;
  quantcache = empty_cache;
  replacecache = empty_cache;
  relaxcache = replicate 4 zeroed_relax;
  errorcond = pos 0;
  opid = 0;
}

-- The difference of level 0 is below 3 (strictly), and at least 1 (weakly).
abbrev pub below_three : Dd
below_three = ptr true (cdd_node 0 (elem cddfalse (pos 6) (elem cddtrue infinity nil)))

abbrev pub from_one : Dd
from_one = ptr false (cdd_node 0 (elem cddfalse (pos 2) (elem cddtrue infinity nil)))

abbrev pub variable_two : Dd
variable_two = ptr true (bdd_node 2 cddtrue cddfalse)

-- The node of `below_three` has no references left.
abbrev pub references : Node → ℕ
references terminal = 1
references (xterm id) = 1
references (bdd_node k low high) = 2
references (cdd_node k es) = 0

abbrev pub used_cache : Cache
used_cache =
    record { a = some below_three; b = some variable_two; res = some cddtrue; c = 1 }
    ∷ record { a = some variable_two; b = some cddtrue; res = some variable_two; c = 0 }
    ∷ zeroed
    ∷ []

abbrev pub all_false : Valuation
all_false = record {
  bools = λ k. false;
  diffs = λ k. pos 4;
  above = λ k. ground arith;
  in_range = λ k. ground arith;
}
