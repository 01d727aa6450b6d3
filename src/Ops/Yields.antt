-- ===== src/Ops/Yields.antt =====
-- A logic of commands that return a diagram: which function it stands for, how wide it is, and what
-- is kept of the parts of the state that `cdd_apply` does not touch.
use ucdd.Base.{ℕ, ◌+◌, ◌≤◌, Bool, ◌||◌, ◌≡◌, refl, sym, ◌∙◌, subst, if◌then◌else◌}
use ucdd.Dd.{Dd, cdd_neg}
use ucdd.Dd.Meaning.{Valuation, eval}
use ucdd.Dd.WellFormed.{IsWf, IsWf-widen}
use ucdd.Machine.{Config, State, M, Run, ok, Returns, ◌>>=◌, return, rest, Rest, IsLocal}
use ucdd.Apply.{Op, lift}
use ucdd.Apply.Spec.{IsSound, op_bool}
use ucdd.Apply.Frame.{apply-IsLocal, >>=-IsLocal, return-IsLocal}
use ucdd.Ops.{apply_fuelled, cdd_and, cdd_or, cdd_ite}
use ucdd.Ops.Laws.{Stands, fuelled_correct, or_correct, ite_correct}

fuelled-IsLocal : (cfg : Config) (op : Op) (l r : Dd) → IsLocal (apply_fuelled cfg op l r)
unfolding apply_fuelled
fuelled-IsLocal cfg op l r = apply-IsLocal cfg _ l r op

or-IsLocal : (cfg : Config) (l r : Dd) → IsLocal (cdd_or cfg l r)
unfolding cdd_or cdd_and
or-IsLocal cfg l r = >>=-IsLocal _ _ (fuelled-IsLocal cfg _ _ _) λ d. return-IsLocal (cdd_neg d)

ite-IsLocal : (cfg : Config) (f g h : Dd) → IsLocal (cdd_ite cfg f g h)
unfolding cdd_ite cdd_and
ite-IsLocal cfg f g h =
    >>=-IsLocal _ _ (fuelled-IsLocal cfg _ _ _)
      λ a. >>=-IsLocal _ _ (fuelled-IsLocal cfg _ _ _) λ b. or-IsLocal cfg a b

module _ (cfg : Config) (E : Rest → Type 0) where
  -- From a sound state where `E` holds of the rest, the command returns a diagram of the width that
  -- stands for the function, and leaves the state sound and `E` true.
  abbrev pub Yields : ℕ → (Valuation → Bool) → M Dd → Type 0
  Yields w f m =
      (s : State)
      → IsSound cfg s
      → E (rest s)
      → Returns (m s) (λ d s'. Stands cfg w f d s' × E (rest s'))

  local-Yields :
      (w : ℕ) (f : Valuation → Bool) (m : M Dd)
      → IsLocal m
      → ((s : State) → IsSound cfg s → Returns (m s) (Stands cfg w f))
      → Yields w f m
  local-Yields w f m local h s sound e =
      let (d, s', run, g) = h s sound in (d, s', run, (g, subst E (sym (local s d s' run)) e))

  pub apply-Yields :
      (w : ℕ) (op : Op) (l r : Dd)
      → w + w ≤ cfg.maxcddsize
      → 1 ≤ w
      → IsWf cfg.info w l
      → IsWf cfg.info w r
      → Yields (w + w) (λ v. op_bool op (eval v l) (eval v r)) (apply_fuelled cfg op l r)
  apply-Yields w op l r room one wl wr =
      local-Yields _ _ _ (fuelled-IsLocal cfg op l r)
        (λ s sound. fuelled_correct cfg w room one op l r s wl wr sound)

  pub or-Yields :
      (w : ℕ) (l r : Dd)
      → w + w ≤ cfg.maxcddsize
      → 1 ≤ w
      → IsWf cfg.info w l
      → IsWf cfg.info w r
      → Yields (w + w) (λ v. eval v l || eval v r) (cdd_or cfg l r)
  or-Yields w l r room one wl wr =
      local-Yields _ _ _ (or-IsLocal cfg l r)
        (λ s sound. or_correct cfg w room one l r s wl wr sound)

  pub ite-Yields :
      (w : ℕ) (f g h : Dd)
      → (w + w) + (w + w) ≤ cfg.maxcddsize
      → 1 ≤ w
      → IsWf cfg.info w f
      → IsWf cfg.info w g
      → IsWf cfg.info w h
      → Yields
          ((w + w) + (w + w))
          (λ v. if eval v f then eval v g else eval v h)
          (cdd_ite cfg f g h)
  ite-Yields w f g h room one wf wg wh =
      local-Yields _ _ _ (ite-IsLocal cfg f g h)
        (λ s sound. ite_correct cfg w f g h s room one wf wg wh sound)

  pub bind-Yields :
      (w w' : ℕ) (f g : Valuation → Bool) (m : M Dd) (k : Dd → M Dd)
      → Yields w f m
      → ((d : Dd) → IsWf cfg.info w d → ((v : Valuation) → eval v d ≡ f v) → Yields w' g (k d))
      → Yields w' g (m >>= k)
  bind-Yields w w' f g m k h next s sound e =
      let (d, s', run, (p, e')) = h s sound e in
      let (d', s'', run', q) = next d p.wf p.meaning s' p.sound e' in
      (d', s'', rw (◌>>=◌, run) run', q)

  pub lift-Yields :
      (w : ℕ) (f : Valuation → Bool) (r : Run Dd) (d : Dd)
      → r ≡ ok d
      → IsWf cfg.info w d
      → ((v : Valuation) → eval v d ≡ f v)
      → Yields w f (lift r)
  unfolding lift
  lift-Yields w f r d e wf means s sound h =
      (d, s, rw e refl, (record { wf = wf; meaning = means; sound = sound }, h))

  pub return-Yields :
      (w : ℕ) (f : Valuation → Bool) (d : Dd)
      → IsWf cfg.info w d
      → ((v : Valuation) → eval v d ≡ f v)
      → Yields w f (return d)
  return-Yields w f d wf means s sound h =
      (d, s, refl, (record { wf = wf; meaning = means; sound = sound }, h))

  -- A wider result and another name of the function.
  pub as-Yields :
      (w w' : ℕ) (f g : Valuation → Bool) (m : M Dd)
      → w ≤ w'
      → ((v : Valuation) → f v ≡ g v)
      → Yields w f m
      → Yields w' g m
  as-Yields w w' f g m le same h s sound e =
      let (d, s', run, (p, e')) = h s sound e in
      (
        d,
        s',
        run,
        (
          record {
            wf = IsWf-widen cfg.info w w' le d p.wf;
            meaning = λ v. p.meaning v ∙ same v;
            sound = p.sound;
          },
          e',
        ),
      )

  -- A computation that does not touch the state comes first.
  pub known-Yields :
      {A : Type 0} (w : ℕ) (f : Valuation → Bool) (r : Run A) (a : A) (k : A → M Dd)
      → r ≡ ok a
      → Yields w f (k a)
      → Yields w f (lift r >>= k)
  unfolding lift
  known-Yields w f r a k e h s sound x = rw e (h s sound x)
