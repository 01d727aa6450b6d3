-- ===== src/Tests/ManagerExamples.antt =====
-- The theorems on the node managers at managers for nodes of two and three elements.
use ucdd.Base.{ℕ, zero, suc, ◌≡◌, refl, subst, arith, [], ◌∷◌, Option, none, some, length}
use mathlib.Core.Option.{some-injective}
use ucdd.Machine.{ok, fault, bad_read}
use ucdd.Store.{NodeManager}
use ucdd.Managers.{Managers, bare_manager, add_levels, find_manager, find_subtable}
use ucdd.Managers.Room.{
  HasLevels, AllHave, IsRoomy, FindsTables, add_levels-FindsTables, add_levels_overflow,
}

abbrev all_managers : Managers ℕ ℕ
all_managers = record {
  levelcnt = 2;
  maxcddsize = 3;
  maxcddused = 3;
  bddmanager = bare_manager 2;
  cddmanager = none ∷ none ∷ some (bare_manager 2) ∷ some (bare_manager 2) ∷ [];
}

abbrev unused : ℕ → ℕ
unused a = 0

one_manager :
    (man : NodeManager ℕ)
    → ◌≡◌ {A = Option (Option (NodeManager ℕ))} (some (some (bare_manager 2))) (some (some man))
    → HasLevels 2 man
one_manager man e = subst (HasLevels 2) (some-injective _ _ (some-injective _ _ e)) refl

no_manager :
    (man : NodeManager ℕ)
    → ◌≡◌ {A = Option (Option (NodeManager ℕ))} (some none) (some (some man))
    → HasLevels 2 man
no_manager man e = let gone : none ≡ some man = some-injective _ _ e in cc

all_managers-AllHave : AllHave 4 2 all_managers.cddmanager
all_managers-AllHave zero man lt e = no_manager man e
all_managers-AllHave (suc zero) man lt e = no_manager man e
all_managers-AllHave (suc (suc zero)) man lt e = one_manager man e
all_managers-AllHave (suc (suc (suc zero))) man lt e = one_manager man e
all_managers-AllHave (suc (suc (suc (suc i)))) man lt e = absurd (omega arith)

all_managers-IsRoomy : IsRoomy all_managers
all_managers-IsRoomy = record { arities = refl; variables = refl; nodes = all_managers-AllHave }

add_levels-FindsTables_example :
    (length (add_levels 5 all_managers).bddmanager.subtables ≡ 7)
    × FindsTables unused (64 ∷ 128 ∷ []) 10 (add_levels 5 all_managers)
add_levels-FindsTables_example =
    add_levels-FindsTables unused 64 (128 ∷ []) 10 5 all_managers all_managers-IsRoomy

add_levels_overflow_example :
    (find_manager unused [] 3 (add_levels 5 all_managers)
      ≡ ok (bare_manager 2, add_levels 5 all_managers))
    × (find_subtable {B = ℕ} 10 4 (bare_manager 2) ≡ fault bad_read)
unfolding add_levels
add_levels_overflow_example =
    add_levels_overflow unused [] 10 5 4 all_managers (bare_manager 2) all_managers-IsRoomy refl
      (omega arith) (omega arith)
