-- ===== src/Reduce/Level.antt =====
-- The two cases of the `switch` of `cdd_bf_reduce_rec`, when the recursive calls are right.
use ucdd.Base.{
  ℕ, suc, ◌*◌, ◌<◌, ◌≤◌, Bool, true, false, xor, if◌then◌else◌, ◌≡◌, refl, sym, ap, ◌∙◌, arith, ℤ,
  ◌<ℤ◌, ltb_ℤ, ltb_ℤ→lt,
}
use Prim.Native.Nat.{max}
use ucdd.Bounds.{infinity}
use ucdd.Dd.{
  Dd, Node, Elems, ptr, terminal, xterm, bdd_node, cdd_node, nil, elem, size, cdd_mask,
  cdd_neg_cond, cdd_isterminal, max_level, level_of,
}
use ucdd.Dd.Meaning.{eval, eval_elems, eval-neg_cond}
use ucdd.Dd.WellFormed.{Bounded, IsWf, IsWf-neg_cond, height}
use ucdd.Machine.{Run, LevelInfo, type_cdd, type_bdd}
use ucdd.Nodes.{cdd_make_bdd_node}
use ucdd.Nodes.Laws.{eval-make_bdd, make_bdd-IsWf, make_cdd_meaning}
use ucdd.Apply.Step.{Bounded-le}
use ucdd.BellmanFord.{Graph, cdd_bf_push, cdd_bf_pop}
use ucdd.Reduce.{
  with_graph, Sought, last_child, first_consistent, reduce_rest, make_masked, reduce_from,
  reduce_level,
}
use ucdd.Reduce.Room.{depth_elems, depth, Every, IsReducible, Fits, elems-Fits, Fits-neg_cond}
use ucdd.Reduce.Find.{IsFound, find_child-Finds}
use ucdd.Reduce.Rest.{rest-Pushes}
use ucdd.Reduce.Graphs.{
  Keeps, Keeps-refl, Keeps-trans, push_dim, IsReady, IsReady-Keeps, IsReady-le, push-IsReady,
  pop-Keeps,
}
use ucdd.Reduce.Clocks.{AtClocks, Obeys-Keeps, push-Obeys, upper-Holds, Reduced, IsRaw}

-- The first bound of several is below INF.
below :
    (c : Dd) (b : ℤ) (es : Elems) → 1 < size (elem c b es) → Bounded (elem c b es) → b <ℤ infinity
below c b nil two h = absurd (omega arith)
below c b (elem c' b' es) two h = omega (arith, h.0, Bounded-le c' b' es h.1)

choose :
    (m lo : Bool) (p c e : Bool)
    → (lo ≡ true → p ≡ xor m c)
    → (if lo then p else xor m e) ≡ xor m (if lo then c else e)
choose m true p c e h = h refl
choose m false p c e h = refl

module _ (raw2bound : ℤ → ℤ) (raw_is_strict : ℤ → ℕ) (raw : IsRaw raw2bound raw_is_strict)
    (info : ℕ → LevelInfo) (w maxcddsize dim : ℕ) (le : w ≤ maxcddsize) where
  -- The recursive calls are right on nodes of at most this height.
  abbrev pub IsRight : ℕ → (Dd → Graph → Run (Dd × Graph)) → Type 0
  IsRight fuel rec =
      (node : Dd) (g : Graph)
      → IsReducible info w dim node
      → height node < fuel
      → g.dim ≡ dim
      → IsReady (2 * depth node) g
      → Reduced raw2bound raw_is_strict info w g node (rec node g)

  module _ (fuel : ℕ) (rec : Dd → Graph → Run (Dd × Graph)) (ih : IsRight fuel rec) where
    Fits-Reduced :
        (n : ℕ) (c : Dd) (g : Graph)
        → Fits info w dim fuel n c
        → g.dim ≡ dim
        → IsReady n g
        → Reduced raw2bound raw_is_strict info w g c (rec c g)
    Fits-Reduced n c g (good, small, room) same ready =
        ih c g good small same (IsReady-le _ n g room ready)

    bdd-Reduced :
        (m : Bool) (k : ℕ) (low high : Dd) (g : Graph)
        → (info k).type ≡ type_bdd
        → k < max_level
        → IsReducible info w dim low
        → IsReducible info w dim high
        → max (height low) (height high) < fuel
        → g.dim ≡ dim
        → IsReady (2 * max (depth low) (depth high)) g
        → Reduced raw2bound raw_is_strict info w g (ptr m (bdd_node k low high)) (
            reduce_level raw2bound raw_is_strict infinity info maxcddsize rec type_bdd m
              (bdd_node k low high)
              g)
    unfolding reduce_level eval
    bdd-Reduced m k low high g t lt gl gh small same ready =
        let n = 2 * max (depth low) (depth high) in
        let (d, h, run, kept, wf, means) =
          Fits-Reduced n (cdd_neg_cond low m) g
            (Fits-neg_cond info w dim fuel n low m (gl, omega arith, omega arith)) same ready in
        let (d', h', run', kept', wf', means') =
          Fits-Reduced n (cdd_neg_cond high m) h
            (Fits-neg_cond info w dim fuel n high m (gh, omega arith, omega arith))
            (kept.dim ∙ same) (IsReady-Keeps n g h kept ready) in
        (
          cdd_make_bdd_node k d d',
          h',
          rw (run, run') refl,
          Keeps-trans g h h' kept kept',
          make_bdd-IsWf info w k d d' t lt wf wf',
          λ v x clocked obeys.
              rw
                (
                  eval-make_bdd v k d d',
                  means v x clocked obeys,
                  means' v x clocked (Obeys-Keeps raw2bound raw_is_strict x g h kept obeys),
                  eval-neg_cond v low m,
                  eval-neg_cond v high m,
                )
                (ground arith),
        )

    module _ (m : Bool) (k : ℕ) (all : Elems) (g : Graph) (n : ℕ) (t : (info k).type ≡ type_cdd)
        (lt : k < max_level) (in1 : (info k).clock1 < dim) (in2 : (info k).clock2 < dim)
        (wide : size all ≤ w) (same : g.dim ≡ dim) (ready : IsReady (suc (suc n)) g) where
      abbrev Good : Dd → Type 0
      Good = Fits info w dim fuel n

      in1' : (info k).clock1 < g.dim
      in1' = rw same in1

      in2' : (info k).clock2 < g.dim
      in2' = rw same in2

      child_ih :
          (c : Dd) (h : Graph)
          → Good c
          → h.dim ≡ g.dim
          → IsReady n h
          → Reduced raw2bound raw_is_strict info w h c (rec c h)
      child_ih c h good dim_h r = Fits-Reduced n c h good (dim_h ∙ same) r

      -- The node of the elements that were pushed.
      masked_node :
          (c : Dd) (b : ℤ) (rest : Elems) (prev : Dd) (after : Graph)
          → Bounded (elem c b rest)
          → Every Good rest
          → size (elem c b rest) ≤ size all
          → IsWf info w prev
          → Keeps g (cdd_bf_pop after)
          → AtClocks raw2bound raw_is_strict info g
              (λ v. ltb_ℤ (v.diffs k) b ≡ true → eval v prev ≡ xor m (eval v c))
          → Reduced raw2bound raw_is_strict info w g (ptr m (cdd_node k (elem c b rest))) (
              with_graph
                (reduce_rest raw2bound raw_is_strict infinity rec
                  (info k).clock1
                  (info k).clock2
                  m
                  (cdd_mask prev)
                  b
                  rest
                  prev
                  after)
                (make_masked raw2bound raw_is_strict infinity info maxcddsize k (cdd_mask prev)))
      unfolding make_masked eval
      masked_node c b rest prev after bounded good small wf kept first =
          let (out, h, run, kept', r) =
            rest-Pushes raw2bound raw_is_strict raw info w Good (Fits-neg_cond info w dim fuel n) n
              rec k g ready in1' in2' child_ih m (cdd_mask prev) c b rest prev after bounded good wf
              kept in
          let (d, made, wd, means) =
            make_cdd_meaning info maxcddsize w k out t lt (omega (arith, r.small, small, wide)) le
              r.bounded r.wf in
          (
            cdd_neg_cond d (cdd_mask prev),
            h,
            rw (run, with_graph, make_masked, made) refl,
            kept',
            IsWf-neg_cond info w d (cdd_mask prev) wd,
            λ v x clocked obeys.
                eval-neg_cond v d (cdd_mask prev)
                ∙ ap (xor (cdd_mask prev)) (means v)
                ∙ r.means v x clocked obeys
                ∙ choose m (ltb_ℤ (v.diffs k) b) (eval v prev) (eval v c)
                    (eval_elems v (v.diffs k) rest) (first v x clocked obeys),
          )

      from-Reduced :
          (s : Sought) (h : Graph)
          → IsFound raw2bound raw_is_strict raw info Good (suc n) k g ready in1' in2' all s h
          → Reduced raw2bound raw_is_strict info w g
              (ptr m (cdd_node k all))
              (reduce_from raw2bound raw_is_strict infinity info maxcddsize rec k m s h)
      unfolding reduce_from eval
      from-Reduced (last_child c) h (kept, good, means) =
          let (d, h', run, kept', wf, means') =
            Fits-Reduced n (cdd_neg_cond c m) h (Fits-neg_cond info w dim fuel n c m good)
              (kept.dim ∙ same) (IsReady-le n _ h (omega arith) (IsReady-Keeps _ g h kept ready)) in
          (
            d,
            h',
            run,
            Keeps-trans g h h' kept kept',
            wf,
            λ v x clocked obeys.
                means' v x clocked (Obeys-Keeps raw2bound raw_is_strict x g h kept obeys)
                ∙ eval-neg_cond v c m
                ∙ ap (xor m) (sym (means v x clocked obeys)),
          )
      from-Reduced (first_consistent c b rest) h (kept, bounded, good, small, means) =
          let pushed = cdd_bf_push g (info k).clock1 (info k).clock2 b in
          let ready' = push-IsReady (suc n) g _ _ b in1' in2' ready in
          let (prev, after, run, kept', wf, means') =
            Fits-Reduced n (cdd_neg_cond c m) h (Fits-neg_cond info w dim fuel n c m good.0)
              (kept.dim ∙ push_dim g _ _ b ∙ same)
              (IsReady-le n (suc n) h (omega arith) (IsReady-Keeps (suc n) pushed h kept ready')) in
          let back =
            pop-Keeps (suc n) g after _ _ b ready (Keeps-trans pushed h after kept kept') in
          let (d, h', run', kept'', wd, means'') =
            masked_node c b rest prev after bounded good.1 small wf back λ v x clocked obeys below.
              let edge =
                upper-Holds raw2bound raw_is_strict raw info v x clocked k b
                  (ltb_ℤ→lt (v.diffs k) b below) in
              let more = push-Obeys raw2bound raw_is_strict (suc n) x g _ _ b ready obeys edge in
              means' v x clocked (Obeys-Keeps raw2bound raw_is_strict x pushed h kept more)
              ∙ eval-neg_cond v c m in
          (
            d,
            h',
            rw run run',
            kept'',
            wd,
            λ v x clocked obeys.
                means'' v x clocked obeys ∙ ap (xor m) (sym (means v x clocked obeys)),
          )

    cdd-Reduced :
        (m : Bool) (k : ℕ) (c : Dd) (b : ℤ) (es : Elems) (g : Graph)
        → IsReducible info w dim (ptr m (cdd_node k (elem c b es)))
        → height (ptr m (cdd_node k (elem c b es))) < suc fuel
        → g.dim ≡ dim
        → IsReady (2 * depth (ptr m (cdd_node k (elem c b es)))) g
        → Reduced raw2bound raw_is_strict info w g (ptr m (cdd_node k (elem c b es))) (
            reduce_level raw2bound raw_is_strict infinity info maxcddsize rec type_cdd m
              (cdd_node k (elem c b es))
              g)
    unfolding reduce_level IsReducible height depth
    cdd-Reduced m k c b es g (t, lt, in1, in2, wide, two, bounded, good) small same ready =
        let n = 2 * max (depth c) (depth_elems es) in
        let ready' = IsReady-le (suc (suc n)) _ g (omega arith) ready in
        let pushed = cdd_bf_push g (info k).clock1 (info k).clock2 b in
        let children : Every (Fits info w dim fuel n) (elem c b es) =
          elems-Fits info w dim fuel n (elem c b es) good (omega arith) (omega arith) in
        let (s, h, run, found) =
          find_child-Finds raw2bound raw_is_strict raw info (Fits info w dim fuel n) (suc n) k g
            ready' (rw same in1) (rw same in2) c b es pushed (below c b es two bounded) bounded
            children (Keeps-refl pushed) in
        let (d, h', run', kept, wf, means) =
          from-Reduced m k (elem c b es) g n t lt in1 in2 wide same ready' s h found in
        (d, h', rw run run', kept, wf, means)

    -- The two cases of the `switch`.
    pub level-Reduced :
        (m : Bool) (node : Node) (g : Graph)
        → IsReducible info w dim (ptr m node)
        → height (ptr m node) < suc fuel
        → g.dim ≡ dim
        → IsReady (2 * depth (ptr m node)) g
        → cdd_isterminal (ptr m node) ≡ false
        → Reduced raw2bound raw_is_strict info w g (ptr m node) (
            reduce_level raw2bound raw_is_strict infinity info maxcddsize rec
              (info (level_of node)).type
              m
              node
              g)
    unfolding IsReducible height depth cdd_isterminal
    level-Reduced m terminal g good small same ready inner = absurd (ground arith)
    level-Reduced m (xterm id) g good small same ready inner = absurd good
    level-Reduced m (bdd_node k low high) g (t, lt, gl, gh) small same ready inner =
        rw t (bdd-Reduced m k low high g t lt gl gh (omega arith) same ready)
    level-Reduced m (cdd_node k nil) g (t, lt, in1, in2, wide, two, bounded, good) small same ready
          inner =
        absurd bounded
    level-Reduced m (cdd_node k (elem c b es)) g good small same ready inner =
        rw good.0 (cdd-Reduced m k c b es g good small same ready)
