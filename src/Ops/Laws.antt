-- ===== src/Ops/Laws.antt =====
-- The operations built on `cdd_apply` compute the Boolean functions they are named for.
use ucdd.Base.{ℕ, ◌+◌, ◌≤◌, Bool, true, ◌||◌, if◌then◌else◌, ◌≡◌, refl, arith}
use ucdd.Dd.{Dd, cdd_neg}
use ucdd.Dd.Meaning.{Valuation, eval, eval-neg}
use ucdd.Dd.WellFormed.{IsWf, IsWf-neg_cond}
use ucdd.Machine.{Config, State, Returns, ◌>>=◌, >>=-Returns}
use ucdd.Apply.{Op, cddop_and}
use ucdd.Apply.Spec.{IsSound, op_bool}
use ucdd.Apply.Correct.{apply_correct}
use ucdd.Ops.{apply_fuelled, cdd_and, cdd_or, cdd_ite}

-- The diagram is well formed at the width, stands for the function, and the state is sound.
pub record Stands (cfg : Config) (w : ℕ) (f : Valuation → Bool) (d : Dd) (s : State) : Type 0 where
  pub wf : IsWf cfg.info w d
  pub meaning : (v : Valuation) → eval v d ≡ f v
  pub sound : IsSound cfg s

module _ (cfg : Config) (w : ℕ) (room : w + w ≤ cfg.maxcddsize) (one : 1 ≤ w) where
  pub fuelled_correct :
      (op : Op) (l r : Dd) (s : State)
      → IsWf cfg.info w l
      → IsWf cfg.info w r
      → IsSound cfg s
      → Returns
          (apply_fuelled cfg op l r s)
          (Stands cfg (w + w) (λ v. op_bool op (eval v l) (eval v r)))
  unfolding apply_fuelled
  fuelled_correct op l r s wl wr sound =
      let (d, s', run, g) = apply_correct cfg op w _ l r s room one wl wr (omega arith) sound in
      (d, s', run, record { wf = g.wf; meaning = g.meaning; sound = g.sound })

  -- On well-formed diagrams of width at most `w` (at least one), where nodes of twice the width are
  -- allowed and the cache is sound, `cdd_or` returns a well-formed diagram of at most twice the width
  -- that is the disjunction of its arguments, and leaves the cache sound.
  pub or_correct :
      (l r : Dd) (s : State)
      → IsWf cfg.info w l
      → IsWf cfg.info w r
      → IsSound cfg s
      → Returns (cdd_or cfg l r s) (Stands cfg (w + w) (λ v. eval v l || eval v r))
  unfolding cdd_or cdd_and
  or_correct l r s wl wr sound =
      >>=-Returns (cdd_and cfg (cdd_neg l) (cdd_neg r)) _ s _ _
        (fuelled_correct cddop_and (cdd_neg l) (cdd_neg r) s (IsWf-neg_cond cfg.info w l true wl)
          (IsWf-neg_cond cfg.info w r true wr) sound)
        (λ d s' g. (
          cdd_neg d,
          s',
          refl,
          record {
            wf = IsWf-neg_cond cfg.info (w + w) d true g.wf;
            meaning =
                λ v. rw (eval-neg v d, g.meaning v, eval-neg v l, eval-neg v r) (ground arith);
            sound = g.sound;
          },
        ))

-- On well-formed diagrams of width at most `w` (at least one), where nodes of four times the width
-- are allowed and the cache is sound, `cdd_ite` returns a well-formed diagram of at most four times
-- the width that chooses between its second and third argument by the first, and leaves the cache
-- sound.
pub ite_correct :
    (cfg : Config) (w : ℕ) (f g h : Dd) (s : State)
    → (w + w) + (w + w) ≤ cfg.maxcddsize
    → 1 ≤ w
    → IsWf cfg.info w f
    → IsWf cfg.info w g
    → IsWf cfg.info w h
    → IsSound cfg s
    → Returns
        (cdd_ite cfg f g h s)
        (Stands cfg ((w + w) + (w + w)) (λ v. if eval v f then eval v g else eval v h))
unfolding cdd_ite cdd_and
ite_correct cfg w f g h s room one wf wg wh sound =
    let (g', s₁, run₁, p) = fuelled_correct cfg w (omega arith) one cddop_and f g s wf wg sound in
    let (h', s₂, run₂, q) =
      fuelled_correct cfg w (omega arith) one cddop_and (cdd_neg f) h s₁
        (IsWf-neg_cond cfg.info w f true wf) wh p.sound in
    let (d, s₃, run₃, r) = or_correct cfg (w + w) room (omega arith) g' h' s₂ p.wf q.wf q.sound in
    (
      d,
      s₃,
      rw (◌>>=◌, run₁, run₂) run₃,
      record {
        wf = r.wf;
        meaning = λ v. rw (r.meaning v, p.meaning v, q.meaning v, eval-neg v f) (ground arith);
        sound = r.sound;
      },
    )
