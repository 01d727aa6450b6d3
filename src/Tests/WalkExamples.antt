-- ===== src/Tests/WalkExamples.antt =====
-- The theorems on `cdd_replace` and `cdd_exist` at concrete diagrams.
use ucdd.Base.{◌≡◌, refl, arith, false, [], ◌∷◌, pos, get_or}
use ucdd.Bounds.{infinity}
use ucdd.Dd.{Dd, ptr, cdd_node, nil, elem, cddfalse}
use ucdd.Dd.Meaning.{Valuation, eval}
use ucdd.Dd.WellFormed.{IsWf, height}
use ucdd.Cache.{zeroed}
use ucdd.Machine.{Config, Returns, LevelInfo, type_bdd}
use ucdd.Apply.Spec.{IsSound, IsSoundEntry}
use ucdd.Levels.{Levels}
use ucdd.Levels.Grow.{Reachable-IsTable, at_start, with_clocks}
use ucdd.Walk.Room.{room}
use ucdd.Replace.{cdd_replace}
use ucdd.Replace.Room.{IsReplaceable}
use ucdd.Replace.Child.{renamed}
use ucdd.Replace.Correct.{replace_correct}
use ucdd.Exist.{cdd_exist}
use ucdd.Exist.Quantified.{quantified}
use ucdd.Exist.Occurs.{IsReadOnce, Avoids}
use ucdd.Exist.Correct.{exist_correct}
use ucdd.Levels.{cdd_add_clocks, no_levels, Contents}
use ucdd.Tests.Inputs.{start, levels, addresses, below_three, variable_two}

abbrev wide : Config
wide = record { info = levels; maxcddsize = 64; address = addresses }

sound : (cfg : Config) → IsSound cfg start
sound cfg = record {
  calm = refl;
  room = ground arith;
  entries = (entry, (entry, (entry, (entry, tt))));
}
  where
    entry : IsSoundEntry cfg zeroed
    entry = record { result = λ op w l r a b c one wl wr. cc }

abbrev mixed : Dd
mixed = ptr false (cdd_node 0 (elem cddfalse (pos 6) (elem variable_two infinity nil)))

mixed-IsReadOnce : IsReadOnce wide (2 ∷ []) mixed
unfolding IsReadOnce Avoids
mixed-IsReadOnce = (
  refl,
  ground arith,
  (ground arith, refl),
  ground arith,
  (tt, ((refl, ground arith, λ e. (tt, tt), tt, tt), tt)),
)

exist_correct_example : Returns (cdd_exist wide no_levels (2 ∷ []) [] 1 0 3 mixed start) (λ d s'.
    IsWf levels (room mixed) d
    × ((v : Valuation) → eval v d ≡ quantified (2 ∷ []) (λ u. eval u mixed) v))
unfolding height room
exist_correct_example =
    exist_correct wide no_levels (2 ∷ []) [] 3 mixed start mixed-IsReadOnce (omega arith)
      (omega arith) (sound wide) (ground arith) (ground arith)

abbrev unset : LevelInfo
unset = record { type = type_bdd; clock1 = 0; clock2 = 0; diff = 0 }

abbrev clock_table : Levels
clock_table = cdd_add_clocks (record { info = unset; level = 0 }) 3 no_levels

abbrev on_clocks : Config
on_clocks = record {
  info = λ k. get_or clock_table.levelinfo k unset;
  maxcddsize = 64;
  address = addresses;
}

below_three-IsReplaceable : IsReplaceable on_clocks clock_table [] (0 ∷ 2 ∷ 1 ∷ []) below_three
unfolding IsReplaceable cdd_add_clocks ucdd.Levels.add_rows ucdd.Levels.add_row ucdd.Levels.add_pair
    ucdd.Levels.realloc ucdd.Levels.cdd_difference_count ucdd.Levels.cdd_difference
below_three-IsReplaceable = (
  refl,
  ground arith,
  (2, 0, refl, refl, omega arith, omega arith, λ e. omega (arith, e)),
  (ground arith, refl),
  ground arith,
  (tt, (tt, tt)),
)

replace_correct_example :
    Returns (cdd_replace on_clocks clock_table [] (0 ∷ 2 ∷ 1 ∷ []) 2 below_three start) (λ d s'.
      IsWf on_clocks.info (room below_three) d
      × ((v : Valuation)
          → eval v d ≡ eval (renamed on_clocks clock_table [] (0 ∷ 2 ∷ 1 ∷ []) v) below_three))
unfolding height room cdd_add_clocks ucdd.Levels.add_rows ucdd.Levels.add_row ucdd.Levels.add_pair
    ucdd.Levels.realloc ucdd.Levels.cdd_difference_count ucdd.Levels.cdd_difference
replace_correct_example =
    replace_correct on_clocks clock_table [] (0 ∷ 2 ∷ 1 ∷ []) unset refl
      (Reachable-IsTable _ (with_clocks (record { info = unset; level = 0 }) 3 at_start))
      (omega arith) 2 below_three start below_three-IsReplaceable (omega arith) (omega arith)
      (sound on_clocks) (ground arith) (ground arith)
