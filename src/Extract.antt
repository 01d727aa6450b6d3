-- ===== src/Extract.antt =====
-- `cdd_extract_bdd` of src/cddop.c, which follows the first children that are not false down to the
-- first variable. The loop takes fuel. The assertions on the clocks and on the child, which a build
-- with NDEBUG leaves out, have no counterpart; Extract/Correct asks for first children that differ, so
-- that one of them is not false.
pub mod Child
pub mod Correct
use ucdd.Base.{ℕ, zero, suc, ◌<◌, ◌≡◌, refl, ◌⊎◌, inl, inr, arith, Bool, if◌then◌else◌, Bool-cases}
use ucdd.Dd.{
  Dd, Node, Elems, ptr, terminal, xterm, bdd_node, cdd_node, nil, elem, cdd_neg_cond, cddtrue,
  cdd_isterminal, cdd_eval_false, level_of, node_of, size,
}
use ucdd.Dd.WellFormed.{height, height_elems, height-neg_cond}
use ucdd.Machine.{Run, ok, fault, bad_read, out_of_fuel, LevelInfo, LevelType, type_cdd, type_bdd}
use ucdd.Reduce.Room.{IsReducible, IsReducibleElems, IsReducible-neg_cond}

-- The first child, or the second one if that is false.
unfoldable pub live_child : Bool → Elems → Run Dd
live_child neg nil = fault bad_read
live_child neg (elem c b nil) =
    if cdd_eval_false (cdd_neg_cond c neg) then fault bad_read else ok (cdd_neg_cond c neg)
live_child neg (elem c b (elem c' b' es)) =
    ok (if cdd_eval_false (cdd_neg_cond c neg) then cdd_neg_cond c' neg else cdd_neg_cond c neg)

abbrev pub go_on : Run Dd → (Dd → Run Dd) → Run Dd
go_on r f = elim r [ ok d ↦ f d | fault e ↦ fault e ]

-- The body of the loop, at a node that is not terminal.
unfoldable pub extract_level : (Dd → Run Dd) → LevelType → Bool → Node → Run Dd
unfolding live_child
extract_level rec type_bdd m n = ok (ptr m n)
extract_level rec type_cdd m (cdd_node k es) = go_on (live_child m es) rec
extract_level rec type_cdd m n = fault bad_read

unfoldable pub cdd_extract_bdd : (ℕ → LevelInfo) → ℕ → Dd → Run Dd
unfolding extract_level
cdd_extract_bdd info zero node = fault out_of_fuel
cdd_extract_bdd info (suc fuel) (ptr m n) =
    if cdd_isterminal (ptr m n)
    then ok cddtrue
    else extract_level (cdd_extract_bdd info fuel) (info (level_of n)).type m n
