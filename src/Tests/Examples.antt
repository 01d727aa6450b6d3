-- ===== src/Tests/Examples.antt =====
-- The theorems at concrete inputs.
use ucdd.Base.{
  ◌||◌, ◌+◌, ◌<◌, false, ◌&&◌, not, ◌≡◌, refl, arith, inl, pos, negsuc, ◌↔◌, ltb_ℤ, if◌then◌else◌,
  ◌+ℤ◌, neg_ℤ,
}
use ucdd.Bounds.{clear_low, infinity, minus_infinity, bnd_u2l, bnd_l2u, bnd_add}
use ucdd.Bounds.Laws.{Below, Above, Above-l2u, u2l-l2u, IsSumOf, add_sound}
use ucdd.Dd.{Dd, elem, nil, cddtrue, cddfalse}
use ucdd.Dd.Meaning.{Valuation, eval, eval_elems}
use ucdd.Dd.WellFormed.{IsWf, height}
use ucdd.Cache.{zeroed}
use ucdd.Machine.{State, ok, Returns}
use ucdd.Nodes.{cdd_make_bdd_node, cdd_make_cdd_node, cdd_interval_from_level}
use ucdd.Nodes.Laws.{eval-make_bdd, interval_meaning, make_cdd_meaning}
use ucdd.Apply.{cdd_apply, cddop_and}
use ucdd.Apply.Spec.{IsSound, IsSoundEntry, Result}
use ucdd.Apply.Correct.{apply_correct}
use ucdd.Ops.{cdd_or, cdd_ite}
use ucdd.Ops.Laws.{Stands, or_correct, ite_correct}
use ucdd.Tests.Inputs.{config, levels, start, below_three, from_one, all_false}

IsSoundEntry-zeroed : IsSoundEntry config zeroed
IsSoundEntry-zeroed = record { result = λ op w l r a b c one wl wr. cc }

IsSound-start : IsSound config start
IsSound-start = record {
  calm = refl;
  room = ground arith;
  entries = (
    IsSoundEntry-zeroed,
    (IsSoundEntry-zeroed, (IsSoundEntry-zeroed, (IsSoundEntry-zeroed, tt))),
  );
}

below_three-IsWf : IsWf levels 2 below_three
unfolding IsWf
below_three-IsWf = (refl, ground arith, ground arith, (ground arith, refl), (tt, (tt, tt)))

from_one-IsWf : IsWf levels 2 from_one
unfolding IsWf
from_one-IsWf = (refl, ground arith, ground arith, (ground arith, refl), (tt, (tt, tt)))

heights : height below_three + height from_one < 3
unfolding height
heights = ground arith

apply_correct_example :
    (d : Dd) × (s' : State) × (cdd_apply config 3 below_three from_one cddop_and start ≡ ok (d, s'))
    × Result config cddop_and 2 below_three from_one d s'
apply_correct_example =
    apply_correct config cddop_and 2 3 below_three from_one start (omega arith) (omega arith)
      below_three-IsWf from_one-IsWf heights IsSound-start

make_cdd_meaning_example :
    (d : Dd) × (cdd_make_cdd_node 16 0 (elem cddfalse (pos 6) (elem cddtrue infinity nil)) ≡ ok d)
    × IsWf levels 2 d
    × ((v : Valuation)
        → eval v d ≡ eval_elems v (v.diffs 0) (elem cddfalse (pos 6) (elem cddtrue infinity nil)))
unfolding IsWf
make_cdd_meaning_example =
    make_cdd_meaning levels 16 2 0 (elem cddfalse (pos 6) (elem cddtrue infinity nil)) refl
      (omega arith) (omega arith) (omega arith) (ground arith, refl) (tt, (tt, tt))

interval_meaning_example :
    (d : Dd) × (cdd_interval_from_level 16 1 (pos 2) (pos 6) ≡ ok d)
    × IsWf levels 3 d
    × ((v : Valuation)
        → eval v d ≡ (
            not (ltb_ℤ minus_infinity (pos 2) && ltb_ℤ (v.diffs 1) (pos 2))
            && ltb_ℤ (v.diffs 1) (pos 6)))
interval_meaning_example =
    interval_meaning levels 16 1 (pos 2) (pos 6) (omega arith) refl (omega arith) (ground arith)
      (ground arith) (inl (ground arith))

eval-make_bdd_example :
    eval all_false (cdd_make_bdd_node 2 cddtrue below_three)
    ≡ (if false then eval all_false below_three else eval all_false cddtrue)
eval-make_bdd_example = eval-make_bdd all_false 2 cddtrue below_three

Above-l2u_example : Above (pos 3) (pos 4) ↔ Below (bnd_l2u (pos 3)) (neg_ℤ (pos 4))
Above-l2u_example = Above-l2u (pos 3) (pos 4) (omega arith, omega arith)

u2l-l2u_example : bnd_u2l (bnd_l2u (negsuc 4)) ≡ negsuc 4
u2l-l2u_example = u2l-l2u (negsuc 4) (λ e. cc)

add_sound_example :
    IsSumOf (pos 7) (pos 4) (bnd_add (pos 7) (pos 4))
    × Below (bnd_add (pos 7) (pos 4)) (pos 6 +ℤ pos 3)
unfolding ◌+ℤ◌ clear_low
add_sound_example =
    add_sound (pos 7) (pos 4) (pos 6) (pos 3) (λ e f. (ground arith, ground arith)) (ground arith)
      (ground arith) (ground arith)

or_correct_example :
    Returns
      (cdd_or config below_three from_one start)
      (Stands config (2 + 2) (λ v. eval v below_three || eval v from_one))
or_correct_example =
    or_correct config 2 (omega arith) (omega arith) below_three from_one start below_three-IsWf
      from_one-IsWf IsSound-start

ite_correct_example : Returns (cdd_ite config below_three from_one cddtrue start) (
    Stands config
      ((2 + 2) + (2 + 2))
      (λ v. if eval v below_three then eval v from_one else eval v cddtrue))
unfolding IsWf
ite_correct_example =
    ite_correct config 2 below_three from_one cddtrue start (omega arith) (omega arith)
      below_three-IsWf from_one-IsWf tt IsSound-start
