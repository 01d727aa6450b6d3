-- ===== src/Reduce/Correct.antt =====
-- `cdd_bf_reduce` keeps what a diagram says of clocks.
use ucdd.Base.{
  ℕ, zero, suc, ◌*◌, ◌<◌, ◌≤◌, Bool, true, ◌≡◌, refl, sym, ap, subst, arith, Bool-cases, inl, inr,
  ℤ, length-replicate, replicate, pos,
}
use ucdd.Bounds.{infinity}
use ucdd.Dd.{Dd, Node, ptr, terminal, xterm, bdd_node, cdd_node, cdd_isterminal}
use ucdd.Dd.Meaning.{Valuation, eval}
use ucdd.Dd.WellFormed.{IsWf, height}
use ucdd.Machine.{ok, LevelInfo}
use ucdd.BellmanFord.{Graph, Constraint, no_distance, cdd_bf_init, cdd_bf_push, cdd_bf_pop}
use ucdd.Reduce.{result, cdd_bf_reduce_rec, cdd_bf_reduce}
use ucdd.Reduce.Room.{depth, IsReducible}
use ucdd.Reduce.Graphs.{Keeps-refl, IsReady}
use ucdd.Reduce.Clocks.{Clocks, IsClocked, IsRaw}
use ucdd.Reduce.Level.{IsRight, level-Reduced}

module _ (raw2bound : ℤ → ℤ) (raw_is_strict : ℤ → ℕ) (raw : IsRaw raw2bound raw_is_strict)
    (info : ℕ → LevelInfo) (w maxcddsize dim : ℕ) (le : w ≤ maxcddsize) where
  terminal-wf :
      (m : Bool) (node : Node)
      → IsReducible info w dim (ptr m node)
      → cdd_isterminal (ptr m node) ≡ true
      → IsWf info w (ptr m node)
  unfolding IsReducible IsWf cdd_isterminal
  terminal-wf m terminal good e = tt
  terminal-wf m (xterm id) good e = absurd good
  terminal-wf m (bdd_node k low high) good e = absurd (ground (arith, good))
  terminal-wf m (cdd_node k es) good e = absurd (ground (arith, good))

  rec-IsRight :
      (fuel : ℕ)
      → IsRight raw2bound raw_is_strict raw info w maxcddsize dim le fuel
          (cdd_bf_reduce_rec raw2bound raw_is_strict infinity info maxcddsize fuel)
  unfolding cdd_bf_reduce_rec
  rec-IsRight zero node g good small same ready = absurd (omega arith)
  rec-IsRight (suc fuel) (ptr m node) g good small same ready =
      elim (Bool-cases (cdd_isterminal (ptr m node))) [
        | inl e ↦ rw e (
          ptr m node,
          g,
          refl,
          Keeps-refl g,
          terminal-wf m node good e,
          λ v x clocked obeys. refl,
        )
        | inr e ↦ rw e (
            level-Reduced raw2bound raw_is_strict raw info w maxcddsize dim le fuel _
              (rec-IsRight fuel) m node g good small same ready e)
      ]

-- On a well-formed diagram each of whose CDD nodes has at least two children and tests clocks that
-- the graph has, where `dbm_LS_INFINITY` is INF, a raw bound is twice its limit and one more when it
-- is weak, no node is wider than the largest arity, the fuel is above the height, and the square of
-- the number of clocks has room for two edges for each CDD node of a path: `cdd_bf_reduce` returns a
-- well-formed diagram that is no wider and has the same value at every valuation whose differences
-- are those of clocks.
pub bf_reduce_correct :
    (raw2bound : ℤ → ℤ) (raw_is_strict : ℤ → ℕ) (ls_infinity : ℤ) (info : ℕ → LevelInfo)
    (w maxcddsize fuel clocknum : ℕ) (node : Dd)
    → IsRaw raw2bound raw_is_strict
    → ls_infinity ≡ infinity
    → w ≤ maxcddsize
    → IsReducible info w clocknum node
    → height node < fuel
    → 2 * depth node ≤ clocknum * clocknum
    → (d : Dd) × (cdd_bf_reduce raw2bound raw_is_strict ls_infinity info maxcddsize fuel clocknum
          node
        ≡ ok d)
      × IsWf info w d
      × ((v : Valuation) (x : Clocks) → IsClocked info v x → eval v d ≡ eval v node)
unfolding cdd_bf_reduce cdd_bf_init ucdd.BellmanFord.take
bf_reduce_correct raw2bound raw_is_strict ls_infinity info w maxcddsize fuel clocknum node raw top
      le good small fits =
    let unset : Constraint = record { i = 0; j = 0; value = pos 0 } in
    let start = cdd_bf_init clocknum (replicate (clocknum * clocknum) unset) in
    let ready : IsReady (2 * depth node) start = record {
      full = length-replicate clocknum no_distance;
      inside = tt;
      room = omega (arith, length-replicate (clocknum * clocknum) unset, fits);
    } in
    let (d, g, run, kept, wf, means) =
      rec-IsRight raw2bound raw_is_strict raw info w maxcddsize clocknum le fuel node start good
        small refl ready in
    (
      d,
      subst (λ l. cdd_bf_reduce raw2bound raw_is_strict l info maxcddsize fuel clocknum node ≡ ok d)
          (sym top) (ap result run),
      wf,
      λ v x clocked. means v x clocked tt,
    )
