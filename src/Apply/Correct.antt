-- ===== src/Apply/Correct.antt =====
-- `cdd_apply` returns the operation on its arguments, and keeps the cache sound.
use ucdd.Base.{
  ℕ, zero, suc, ◌+◌, ◌≤◌, ◌<◌, ◌%◌, Bool, true, false, ◌&&◌, ◌≡◌, ◌∙◌, arith, Bool-cases,
  Option-cases, inl, inr, if◌then◌else◌, pos, some, none, length, ltb,
}
use Prim.Native.Nat.{min}
use ucdd.Dd.{Dd, Node, ptr, cdd_mask, level_of, node_of, max_level, cdd_isterminal}
use ucdd.Dd.Meaning.{eval}
use ucdd.Dd.WellFormed.{IsWf, IsWfNode, IsWf-widen, IsWf-fit, width-le, height}
use ucdd.Cache.{Entry, lookup}
use ucdd.Cache.Laws.{All-get}
use ucdd.Machine.{Config, State, Returns, ok, ◌>>=◌}
use ucdd.Apply.{
  Op, op_code, Recursion, terminate, apply_hash, apply_nodes, apply_ordered, apply_step,
  cdd_apply_rec, cdd_apply, store_apply, is_hit,
}
use ucdd.Apply.Spec.{IsOp, IsSound, IsSoundEntry, Result, KeepsAll}
use ucdd.Apply.Descend.{apply_nodes-Combined}
use ucdd.Apply.Terminate.{
  terminate-IsOp, terminate-Picked, Picked-IsWf, terminate_nodes, op_bool_comm,
}
use ucdd.Apply.Hit.{lookup_found, get_some, needed, new-IsSound, store-IsSound, hit-Result}

module _ (cfg : Config) (op : Op) (h : ℕ) (rec : Recursion) (keeps : KeepsAll cfg op h rec) where
  hit_run :
      (l r d : Dd) (s : State) (i : ℕ) (e : Entry)
      → cdd_isterminal l && cdd_isterminal r ≡ false
      → lookup s.applycache (apply_hash cfg op l r) ≡ some (i, e)
      → is_hit e l r (op_code op) ≡ true
      → e.res ≡ some d
      → apply_ordered cfg op rec l r s ≡ ok (d, s)
  unfolding apply_ordered
  hit_run l r d s i e t found hit res = simp (t, found, hit, res)

  miss_run :
      (l r d : Dd) (s s' : State) (i : ℕ) (e : Entry)
      → cdd_isterminal l && cdd_isterminal r ≡ false
      → lookup s.applycache (apply_hash cfg op l r) ≡ some (i, e)
      → is_hit e l r (op_code op) ≡ false
      → apply_nodes cfg rec (cdd_mask l) (cdd_mask r) (node_of l) (node_of r) s ≡ ok (d, s')
      → apply_ordered cfg op rec l r s
        ≡ ok (d, store_apply i (record { a = some l; b = some r; res = some d; c = op_code op }) s')
  unfolding apply_ordered
  miss_run l r d s s' i e t found miss run = simp (t, found, miss, run)

  step_done :
      (l r d : Dd) (s : State)
      → s.errorcond ≡ pos 0
      → terminate op l r ≡ some d
      → apply_step cfg op rec l r s ≡ ok (d, s)
  unfolding apply_step
  step_done l r d s calm e = simp (calm, e)

  step_ordered :
      (l r : Dd) (s : State)
      → s.errorcond ≡ pos 0
      → terminate op l r ≡ none
      → apply_step cfg op rec l r s ≡ (
          if ltb (cfg.address r) (cfg.address l)
          then apply_ordered cfg op rec r l s
          else apply_ordered cfg op rec l r s)
  unfolding apply_step
  step_ordered l r s calm e = simp (calm, e)

  module _ (w : ℕ) (room : w + w ≤ cfg.maxcddsize) (one : 1 ≤ w) where
    apply_ordered-Result :
        (m m' : Bool) (n n' : Node) (s : State)
        → min (level_of n) (level_of n') < max_level
        → IsWfNode cfg.info w n
        → IsWfNode cfg.info w n'
        → height (ptr m n) + height (ptr m' n') ≤ h
        → IsSound cfg s
        → Returns
            (apply_ordered cfg op rec (ptr m n) (ptr m' n') s)
            (λ d s'. Result cfg op w (ptr m n) (ptr m' n') d s')
    unfolding height eval cdd_isterminal IsWf
    apply_ordered-Result m m' n n' s lt wl wr low sound =
        let l = ptr m n in
        let r = ptr m' n' in
        let hash = apply_hash cfg op l r in
        let c = s.applycache in
        let t : cdd_isterminal l && cdd_isterminal r ≡ false = ground arith in
        let (e, at) = get_some c (hash % length c) (ground arith) in
        let found = lookup_found c hash e at in
        let q = needed cfg op l r in
        let le : q ≤ w = omega (arith, width-le cfg.info w l wl, width-le cfg.info w r wr) in
        let small : q + q ≤ cfg.maxcddsize = omega arith in
        let positive : 1 ≤ q = omega arith in
        elim (Bool-cases (is_hit e l r (op_code op))) [
          | inl hit ↦
              let (d, res, good) =
                hit-Result cfg op w l r s e one wl wr sound
                  (All-get (IsSoundEntry cfg) c _ e sound.entries at) hit in
              (d, s, hit_run l r d s _ e t found hit res, good)
          | inr miss ↦
              let (d, s', run, p) =
                apply_nodes-Combined cfg op q h rec (keeps q small positive) small m m' n n' s lt
                  (IsWf-fit cfg.info w q l wl (omega arith))
                  (IsWf-fit cfg.info w q r wr (omega arith)) positive low sound in
              let means : IsOp op l r d = p.meaning in
              (
                d,
                store_apply _ _ s',
                miss_run l r d s s' _ e t found miss run,
                record {
                  wf = IsWf-widen cfg.info (q + q) (w + w) (omega arith) d p.wf;
                  meaning = means;
                  sound = store-IsSound cfg op _ _ s' (new-IsSound cfg op l r d p.wf means) p.sound;
                },
              )
        ]

    -- Both operations are symmetric, so the order of the addresses does not matter.
    Result-swap : (l r d : Dd) (s : State) → Result cfg op w r l d s → Result cfg op w l r d s
    Result-swap l r d s g = record {
      wf = g.wf;
      meaning = λ v. g.meaning v ∙ op_bool_comm op (eval v r) (eval v l);
      sound = g.sound;
    }

    apply_step-Result :
        (m m' : Bool) (n n' : Node) (s : State)
        → IsWfNode cfg.info w n
        → IsWfNode cfg.info w n'
        → height (ptr m n) + height (ptr m' n') ≤ h
        → IsSound cfg s
        → Returns
            (apply_step cfg op rec (ptr m n) (ptr m' n') s)
            (λ d s'. Result cfg op w (ptr m n) (ptr m' n') d s')
    unfolding IsWf
    apply_step-Result m m' n n' s wl wr low sound =
        let l = ptr m n in
        let r = ptr m' n' in
        elim (Option-cases (terminate op l r)) [
          | inr (d, e) ↦ (
            d,
            s,
            step_done l r d s sound.calm e,
            record {
              wf =
                  IsWf-widen cfg.info w (w + w) (omega arith) d
                    (Picked-IsWf cfg.info w l r d (terminate-Picked op l r d e) wl wr);
              meaning = terminate-IsOp op l r d e;
              sound = sound;
            },
          )
          | inl e ↦
              let lt = terminate_nodes cfg.info w op m m' n n' e wl wr in
              elim (Bool-cases (ltb (cfg.address r) (cfg.address l))) [
                | inl above ↦
                    let (d, s', run, g) =
                      apply_ordered-Result m' m n' n s (omega arith) wr wl (omega arith) sound in
                    (d, s', step_ordered l r s sound.calm e ∙ rw above run, Result-swap l r d s' g)
                | inr below ↦
                    let (d, s', run, g) = apply_ordered-Result m m' n n' s lt wl wr low sound in
                    (d, s', step_ordered l r s sound.calm e ∙ rw below run, g)
              ]
        ]

apply_rec-Keeps :
    (cfg : Config) (op : Op) (fuel : ℕ) → KeepsAll cfg op fuel (cdd_apply_rec cfg op fuel)
unfolding cdd_apply_rec IsWf
apply_rec-Keeps cfg op zero w room one l r s wl wr low sound = absurd (omega arith)
apply_rec-Keeps cfg op (suc fuel) w room one (ptr m n) (ptr m' n') s wl wr low sound =
    apply_step-Result cfg op fuel (cdd_apply_rec cfg op fuel) (apply_rec-Keeps cfg op fuel) w room
      one m m' n n' s wl wr (omega arith) sound

-- On well-formed diagrams of width at most `w`, where nodes of width `w + w` are allowed and the
-- cache is sound, `cdd_apply` with fuel above the sum of the heights returns a well-formed diagram
-- of width at most `w + w` that is the conjunction or the exclusive or of its arguments on every valuation, and leaves the
-- cache sound and no error pending.
pub apply_correct :
    (cfg : Config) (op : Op) (w fuel : ℕ) (l r : Dd) (s : State)
    → w + w ≤ cfg.maxcddsize
    → 1 ≤ w
    → IsWf cfg.info w l
    → IsWf cfg.info w r
    → height l + height r < fuel
    → IsSound cfg s
    → (d : Dd) × (s' : State) × (cdd_apply cfg fuel l r op s ≡ ok (d, s'))
      × Result cfg op w l r d s'
unfolding cdd_apply
apply_correct cfg op w fuel l r s room one wl wr low sound =
    let (d, s', run, g) = apply_rec-Keeps cfg op fuel w room one l r s wl wr low sound in
    (d, s', rw (◌>>=◌, run, g.sound.calm), g)
