-- ===== src/Apply/Descend.antt =====
-- The recursive part of `cdd_apply_rec` on two nodes combines them.
use ucdd.Base.{
  ℕ, ◌+◌, ◌≤◌, ◌<◌, Bool, true, false, xor, ◌≡◌, refl, ◌∙◌, arith, leb, if◌then◌else◌, ℤ,
}
use Prim.Native.Nat.{min}
use ucdd.Dd.{Dd, Node, Elems, elem, size, cdd_mask, cdd_neg_cond, level_of, max_level}
use ucdd.Dd.Meaning.{Valuation, eval, eval_node, eval-neg_cond}
use ucdd.Dd.WellFormed.{IsWf, IsWfNode, IsWf-neg_cond, height, height_node, height-neg_cond}
use ucdd.Machine.{Config, State, Returns, ok, ◌>>=◌, LevelType, type_cdd, type_bdd}
use ucdd.Nodes.{cdd_make_cdd_node, cdd_make_bdd_node, map_ok}
use ucdd.Nodes.Laws.{make_cdd_meaning, eval-make_bdd, make_bdd-IsWf}
use ucdd.Apply.{Op, Recursion, merge_loop, apply_cdd, apply_bdd, apply_level, apply_nodes}
use ucdd.Apply.Spec.{op_bool, IsSound, Keeps}
use ucdd.Apply.Merge.{merge_loop-Merged}
use ucdd.Apply.Sight.{Seen, seen, Split, split, down}

module _ (cfg : Config) (op : Op) (w h : ℕ) (rec : Recursion) (keeps : Keeps cfg op w h rec)
    (room : w + w ≤ cfg.maxcddsize) (lmask rmask : Bool) where
  -- What the recursive part returns for two nodes, whose meanings are `f` and `g`.
  pub record Combined (f g : Valuation → Bool) (d : Dd) (s : State) : Type 0 where
    pub wf : IsWf cfg.info (w + w) d
    pub meaning : (v : Valuation) → eval v d ≡ op_bool op (xor lmask (f v)) (xor rmask (g v))
    pub sound : IsSound cfg s

  cdd_run :
      (lc rc : Dd) (lb rb : ℤ) (ls rs : Elems) (level : ℕ) (s : State) (prev : Dd) (s' : State)
      (es : Elems) (s'' : State) (d : Dd)
      → rec (cdd_neg_cond lc lmask) (cdd_neg_cond rc rmask) s ≡ ok (prev, s')
      → merge_loop rec lmask rmask
          (cdd_mask prev)
          (size (elem lc lb ls) + size (elem rc rb rs))
          (elem lc lb ls)
          (elem rc rb rs)
          prev
          s'
        ≡ ok (es, s'')
      → cdd_make_cdd_node cfg.maxcddsize level es ≡ ok d
      → apply_cdd cfg rec lmask rmask level (elem lc lb ls) (elem rc rb rs) s
        ≡ ok (cdd_neg_cond d (cdd_mask prev), s'')
  unfolding apply_cdd map_ok
  cdd_run lc rc lb rb ls rs level s prev s' es s'' d e f g = rw (◌>>=◌, e, f, g)

  module _ (level : ℕ) (lt : level < max_level) (t : (cfg.info level).type ≡ type_cdd) (a b : Bool)
      (l r : Node) (hl hr : ℕ) (sl : Seen cfg.info w level a l hl)
      (sr : Seen cfg.info w level b r hr) (low : hl + hr < h) (s : State)
      (sound : IsSound cfg s) where
    abbrev lp : Elems
    lp = elem sl.child sl.bound sl.rest

    abbrev rp : Elems
    rp = elem sr.child sr.bound sr.rest

    apply_cdd-Combined :
        Returns
          (apply_cdd cfg rec lmask rmask level lp rp s)
          (Combined (λ v. eval_node v l) (λ v. eval_node v r))
    unfolding IsWf height
    apply_cdd-Combined =
        let (prev, s', run, p) =
          keeps (cdd_neg_cond sl.child lmask) (cdd_neg_cond sr.child rmask) s
            (IsWf-neg_cond cfg.info w sl.child lmask sl.wf.0)
            (IsWf-neg_cond cfg.info w sr.child rmask sr.wf.0)
            (rw (height-neg_cond, height-neg_cond) (omega (arith, sl.low, sr.low))) sound in
        let mask = cdd_mask prev in
        let (es, s'', run', m) =
          merge_loop-Merged cfg op w h rec keeps lmask rmask mask (size lp + size rp) sl.child
            sr.child sl.bound sr.bound sl.rest sr.rest prev s' sl.bounded sr.bounded sl.wf sr.wf
            (omega (arith, sl.low, sr.low)) (omega arith) p.wf
            (λ v. p.meaning v ∙ rw (eval-neg_cond v sl.child lmask, eval-neg_cond v sr.child rmask))
            p.sound in
        let (d, made, wf, means) =
          make_cdd_meaning cfg.info cfg.maxcddsize (w + w) level es t lt
            (omega (arith, m.small, sl.small, sr.small)) room m.bounded m.wf in
        (
          cdd_neg_cond d mask,
          s'',
          cdd_run sl.child sr.child sl.bound sr.bound sl.rest sr.rest level s prev s' es s'' d run
              run' made,
          record {
            wf = IsWf-neg_cond cfg.info (w + w) d mask wf;
            meaning = λ v. rw (
              eval-neg_cond v d mask,
              means v,
              m.meaning v (v.diffs level) (v.in_range level),
              sl.meaning v,
              sr.meaning v,
            );
            sound = m.sound;
          },
        )

  bdd_run :
      (level : ℕ) (ll lh rl rh : Dd) (s : State) (low : Dd) (s' : State) (high : Dd) (s'' : State)
      → rec (cdd_neg_cond ll lmask) (cdd_neg_cond rl rmask) s ≡ ok (low, s')
      → rec (cdd_neg_cond lh lmask) (cdd_neg_cond rh rmask) s' ≡ ok (high, s'')
      → apply_bdd rec lmask rmask level ll lh rl rh s ≡ ok (cdd_make_bdd_node level low high, s'')
  unfolding apply_bdd
  bdd_run level ll lh rl rh s low s' high s'' e f = rw (◌>>=◌, e, f)

  choice :
      (c : Bool) (a b x y : Bool)
      → (if c
          then op_bool op (xor lmask a) (xor rmask b)
          else op_bool op (xor lmask x) (xor rmask y))
        ≡ op_bool op (xor lmask (if c then a else x)) (xor rmask (if c then b else y))
  choice true a b x y = refl
  choice false a b x y = refl

  module _ (level : ℕ) (lt : level < max_level) (t : (cfg.info level).type ≡ type_bdd) (a b : Bool)
      (l r : Node) (hl hr : ℕ) (sl : Split cfg.info w level a l hl)
      (sr : Split cfg.info w level b r hr) (small : hl + hr < h) (s : State)
      (sound : IsSound cfg s) where
    apply_bdd-Combined :
        Returns
          (apply_bdd rec lmask rmask level sl.low sl.high sr.low sr.high s)
          (Combined (λ v. eval_node v l) (λ v. eval_node v r))
    apply_bdd-Combined =
        let (low, s', run, p) =
          keeps (cdd_neg_cond sl.low lmask) (cdd_neg_cond sr.low rmask) s
            (IsWf-neg_cond cfg.info w sl.low lmask sl.low_wf)
            (IsWf-neg_cond cfg.info w sr.low rmask sr.low_wf)
            (rw (height-neg_cond, height-neg_cond) (omega (arith, sl.low_height, sr.low_height)))
            sound in
        let (high, s'', run', q) =
          keeps (cdd_neg_cond sl.high lmask) (cdd_neg_cond sr.high rmask) s'
            (IsWf-neg_cond cfg.info w sl.high lmask sl.high_wf)
            (IsWf-neg_cond cfg.info w sr.high rmask sr.high_wf)
            (rw (height-neg_cond, height-neg_cond) (omega (arith, sl.high_height, sr.high_height)))
            p.sound in
        (
          cdd_make_bdd_node level low high,
          s'',
          bdd_run level sl.low sl.high sr.low sr.high s low s' high s'' run run',
          record {
            wf = make_bdd-IsWf cfg.info (w + w) level low high t lt p.wf q.wf;
            meaning = λ v.
                rw
                  (
                    eval-make_bdd v level low high,
                    p.meaning v,
                    q.meaning v,
                    eval-neg_cond v sl.low lmask,
                    eval-neg_cond v sr.low rmask,
                    eval-neg_cond v sl.high lmask,
                    eval-neg_cond v sr.high rmask,
                    sl.meaning v,
                    sr.meaning v,
                  )
                  (choice (v.bools level) (eval v sl.high) (eval v sr.high) (eval v sl.low)
                    (eval v sr.low));
            sound = q.sound;
          },
        )

  module _ (l r : Node) (k : ℕ) (least : min (level_of l) (level_of r) ≡ k) (lt : k < max_level)
      (wl : IsWfNode cfg.info w l) (wr : IsWfNode cfg.info w r) (one : 1 ≤ w)
      (small : height_node l + height_node r ≤ h) (s : State) (sound : IsSound cfg s) where
    abbrev a : Bool
    a = leb (level_of l) (level_of r)

    abbrev b : Bool
    b = leb (level_of r) (level_of l)

    at_left : a ≡ true → level_of l ≡ k
    at_left e = ground arith

    at_right : b ≡ true → level_of r ≡ k
    at_right e = ground arith

    one_down : 0 < down a + down b
    one_down = ground arith

    apply_level-Combined :
        (type : LevelType)
        → (cfg.info k).type ≡ type
        → Returns
            (apply_level cfg rec lmask rmask type k l r s)
            (Combined (λ v. eval_node v l) (λ v. eval_node v r))
    unfolding apply_level
    apply_level-Combined type_cdd t =
        let (hl, dl, sl) = seen cfg.info w k one lt t a l wl at_left in
        let (hr, dr, sr) = seen cfg.info w k one lt t b r wr at_right in
        rw (sl.found, sr.found)
          (apply_cdd-Combined k lt t a b l r hl hr sl sr (omega (arith, one_down)) s sound)
    apply_level-Combined type_bdd t =
        let (hl, dl, sl) = split cfg.info w k lt t a l wl at_left in
        let (hr, dr, sr) = split cfg.info w k lt t b r wr at_right in
        rw (◌>>=◌, sl.found_low, sl.found_high, sr.found_low, sr.found_high)
          (apply_bdd-Combined k lt t a b l r hl hr sl sr (omega (arith, one_down)) s sound)

  pub apply_nodes-Combined :
      (l r : Node) (s : State)
      → min (level_of l) (level_of r) < max_level
      → IsWfNode cfg.info w l
      → IsWfNode cfg.info w r
      → 1 ≤ w
      → height_node l + height_node r ≤ h
      → IsSound cfg s
      → Returns
          (apply_nodes cfg rec lmask rmask l r s)
          (Combined (λ v. eval_node v l) (λ v. eval_node v r))
  unfolding apply_nodes
  apply_nodes-Combined l r s lt wl wr one small sound =
      apply_level-Combined l r (min (level_of l) (level_of r)) refl lt wl wr one small s sound
        (cfg.info (min (level_of l) (level_of r))).type refl
