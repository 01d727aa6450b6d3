-- ===== src/Apply/Merge.antt =====
-- The loop of `cdd_apply_rec` over two arrays of elements builds the array of the operation.
use ucdd.Base.{
  ℕ, zero, suc, ◌+◌, ◌≤◌, ◌<◌, Bool, xor, ◌≡◌, refl, sym, ◌∙◌, arith, Bool-cases, inl, inr, ap,
  if◌then◌else◌, ℤ, ltb_ℤ, ◌<ℤ◌, ◌≤ℤ◌, ltb_ℤ→lt, ltb_ℤ→ge,
}
use ucdd.Bounds.{infinity}
use ucdd.Dd.{Dd, Elems, nil, elem, size, same, cdd_neg_cond}
use ucdd.Dd.Equality.{same→eq}
use ucdd.Dd.Meaning.{Valuation, eval, eval_elems, eval-neg_cond}
use ucdd.Dd.WellFormed.{Bounded, IsWf, IsWfElems, IsWf-neg_cond, height_elems, height-neg_cond}
use ucdd.Machine.{Config, State, Returns}
use ucdd.Apply.{Op, Recursion, minimum, advance, merge_loop}
use ucdd.Apply.Spec.{op_bool, IsOp, IsSound, Keeps}
use ucdd.Apply.Step.{Bounded-le, eval-head, eval-tail, eval-advance, Advanced, advance-Advanced}
use ucdd.Apply.Rounds.{minimum-cases, xor_twice, next-eq, merge_loop-end, merge_loop-round}

module _ (cfg : Config) (op : Op) (w h : ℕ) (rec : Recursion) (keeps : Keeps cfg op w h rec)
    (lmask rmask mask : Bool) where
  -- The operation on the children that two arrays lead to.
  abbrev pub at : Valuation → ℤ → Elems → Elems → Bool
  at v q lp rp = op_bool op (xor lmask (eval_elems v q lp)) (xor rmask (eval_elems v q rp))

  -- The elements pushed for the part of the arrays from the bounds of their heads on.
  pub record Merged (lp rp : Elems) (bnd : ℤ) (es : Elems) (s : State) : Type 0 where
    pub child : Dd
    pub bound : ℤ
    pub rest : Elems
    pub eq : es ≡ elem child bound rest
    pub above : bnd ≤ℤ bound
    pub bounded : Bounded es
    pub wf : IsWfElems cfg.info (w + w) es
    pub small : size es < size lp + size rp
    pub meaning :
        (v : Valuation) (q : ℤ) → q <ℤ infinity → xor mask (eval_elems v q es) ≡ at v q lp rp
    pub sound : IsSound cfg s

  at_head :
      (v : Valuation) (q : ℤ) (lc rc : Dd) (lb rb : ℤ) (ls rs : Elems)
      → q <ℤ lb
      → q <ℤ rb
      → at v q (elem lc lb ls) (elem rc rb rs)
        ≡ op_bool op (xor lmask (eval v lc)) (xor rmask (eval v rc))
  at_head v q lc rc lb rb ls rs hl hr = rw (eval-head v q lc lb ls hl, eval-head v q rc rb rs hr)

  end-Merged :
      (lc rc prev : Dd) (lb rb : ℤ) (ls rs : Elems) (s : State)
      → IsWf cfg.info (w + w) prev
      → ((v : Valuation) → eval v prev ≡ op_bool op (xor lmask (eval v lc)) (xor rmask (eval v rc)))
      → IsSound cfg s
      → Bounded (elem lc lb ls)
      → Bounded (elem rc rb rs)
      → infinity ≤ℤ minimum lb rb
      → Merged
          (elem lc lb ls)
          (elem rc rb rs)
          (minimum lb rb)
          (elem (cdd_neg_cond prev mask) infinity nil)
          s
  unfolding IsWf
  end-Merged lc rc prev lb rb ls rs s wp mp sound bl br top =
      let (x, y, _) = minimum-cases lb rb in
      record {
        child = cdd_neg_cond prev mask;
        bound = infinity;
        rest = nil;
        eq = refl;
        above = omega (arith, Bounded-le lc lb ls bl);
        bounded = refl;
        wf = (IsWf-neg_cond cfg.info (w + w) prev mask wp, tt);
        small = omega arith;
        meaning = λ v q fin.
            rw (eval-head v q (cdd_neg_cond prev mask) infinity nil fin, eval-neg_cond v prev mask)
              (xor_twice mask (eval v prev)
                ∙ (mp v ∙ sym (at_head v q lc rc lb rb ls rs (omega arith) (omega arith))));
        sound = sound;
      }

  module _ (lc rc : Dd) (lb rb : ℤ) (ls rs : Elems) where
    abbrev lp : Elems
    lp = elem lc lb ls

    abbrev rp : Elems
    rp = elem rc rb rs

    abbrev bnd : ℤ
    bnd = minimum lb rb

    module _ (al : Advanced cfg.info w bnd lb lp (advance bnd lp))
        (ar : Advanced cfg.info w bnd rb rp (advance bnd rp)) where
      abbrev lp' : Elems
      lp' = elem al.child al.bound al.rest

      abbrev rp' : Elems
      rp' = elem ar.child ar.bound ar.rest

      at_pass : (v : Valuation) (q : ℤ) → bnd ≤ℤ q → at v q lp' rp' ≡ at v q lp rp
      at_pass v q le = rw (← al.eq, ← ar.eq, eval-advance v q bnd lp le, eval-advance v q bnd rp le)

      smaller : size lp' + size rp' < size lp + size rp
      smaller = elim ((minimum-cases lb rb).2) [
        | inl e ↦ omega (arith, al.passes e, al.small, ar.small)
        | inr e ↦ omega (arith, ar.passes e, al.small, ar.small)
      ]

      module _ (prev n : Dd)
          (mp : (v : Valuation)
            → eval v prev ≡ op_bool op (xor lmask (eval v lc)) (xor rmask (eval v rc)))
          (mn : IsOp op (cdd_neg_cond al.child lmask) (cdd_neg_cond ar.child rmask) n) (es : Elems)
          (s : State) (m : Merged lp' rp' (minimum al.bound ar.bound) es s) where
        bounds_below : (bnd ≤ℤ lb) × (bnd ≤ℤ rb)
        bounds_below = let (x, y, _) = minimum-cases lb rb in (x, y)

        -- Below the bound both arrays lead to their heads, which `prev` combines.
        at_prev : (v : Valuation) (q : ℤ) → q <ℤ bnd → at v q lp rp ≡ eval v prev
        at_prev v q h =
            let (x, y) = bounds_below in
            at_head v q lc rc lb rb ls rs (omega arith) (omega arith) ∙ sym (mp v)

        -- There the next elements lead to their heads, which `n` combines.
        at_next : (v : Valuation) (q : ℤ) → q <ℤ bnd → at v q lp' rp' ≡ eval v n
        at_next v q h =
            at_head v q al.child ar.child al.bound ar.bound al.rest ar.rest
              (omega (arith, al.above)) (omega (arith, ar.above))
            ∙ sym (mn v ∙ rw (eval-neg_cond v al.child lmask, eval-neg_cond v ar.child rmask))

        next_above : bnd <ℤ m.bound
        next_above =
            let (x, y, z) = minimum-cases al.bound ar.bound in
            ground (arith, m.above, al.above, ar.above)

        meaning_joined :
            n ≡ prev
            → (v : Valuation) (q : ℤ) → q <ℤ infinity
            → xor mask (eval_elems v q es) ≡ at v q lp rp
        meaning_joined same v q fin = elim (Bool-cases (ltb_ℤ q bnd)) [
          | inl lt ↦
              let h = ltb_ℤ→lt q bnd lt in
              m.meaning v q fin ∙ (at_next v q h ∙ (ap (eval v) same ∙ sym (at_prev v q h)))
          | inr ge ↦ m.meaning v q fin ∙ at_pass v q (ltb_ℤ→ge q bnd ge)
        ]

        meaning_pushed :
            (v : Valuation) (q : ℤ)
            → q <ℤ infinity
            → xor mask (eval_elems v q (elem (cdd_neg_cond prev mask) bnd es)) ≡ at v q lp rp
        meaning_pushed v q fin = elim (Bool-cases (ltb_ℤ q bnd)) [
          | inl lt ↦
              let h = ltb_ℤ→lt q bnd lt in
              rw (eval-head v q (cdd_neg_cond prev mask) bnd es h, eval-neg_cond v prev mask)
                (xor_twice mask (eval v prev) ∙ sym (at_prev v q h))
          | inr ge ↦
              rw (eval-tail v q (cdd_neg_cond prev mask) bnd es (ltb_ℤ→ge q bnd ge))
                (m.meaning v q fin ∙ at_pass v q (ltb_ℤ→ge q bnd ge))
        ]

        round-Merged :
            IsWf cfg.info (w + w) prev
            → Merged lp rp bnd (if same n prev then es else elem (cdd_neg_cond prev mask) bnd es) s
        unfolding IsWf
        round-Merged wp = elim (Bool-cases (same n prev)) [
          | inl e ↦ rw e (record {
            child = m.child;
            bound = m.bound;
            rest = m.rest;
            eq = m.eq;
            above = omega (arith, next_above);
            bounded = m.bounded;
            wf = m.wf;
            small = omega (arith, smaller, m.small);
            meaning = meaning_joined (same→eq n prev e);
            sound = m.sound;
          })
          | inr e ↦ rw e (record {
            child = cdd_neg_cond prev mask;
            bound = bnd;
            rest = es;
            eq = refl;
            above = omega arith;
            bounded = rw m.eq (next_above, rw m.eq at m.bounded);
            wf = (IsWf-neg_cond cfg.info (w + w) prev mask wp, m.wf);
            small = omega (arith, smaller, m.small);
            meaning = meaning_pushed;
            sound = m.sound;
          })
        ]

  pub merge_loop-Merged :
      (k : ℕ) (lc rc : Dd) (lb rb : ℤ) (ls rs : Elems) (prev : Dd) (s : State)
      → Bounded (elem lc lb ls)
      → Bounded (elem rc rb rs)
      → IsWfElems cfg.info w (elem lc lb ls)
      → IsWfElems cfg.info w (elem rc rb rs)
      → height_elems (elem lc lb ls) + height_elems (elem rc rb rs) < h
      → size (elem lc lb ls) + size (elem rc rb rs) ≤ k
      → IsWf cfg.info (w + w) prev
      → ((v : Valuation) → eval v prev ≡ op_bool op (xor lmask (eval v lc)) (xor rmask (eval v rc)))
      → IsSound cfg s
      → Returns
          (merge_loop rec lmask rmask mask k (elem lc lb ls) (elem rc rb rs) prev s)
          (Merged (elem lc lb ls) (elem rc rb rs) (minimum lb rb))
  merge_loop-Merged zero lc rc lb rb ls rs prev s bl br wl wr low small wp mp sound =
      absurd (omega arith)
  merge_loop-Merged (suc k) lc rc lb rb ls rs prev s bl br wl wr low small wp mp sound =
      elim (Bool-cases (ltb_ℤ (minimum lb rb) infinity)) [
        | inr e ↦ (
          elem (cdd_neg_cond prev mask) infinity nil,
          s,
          merge_loop-end rec lmask rmask mask k lc rc prev lb rb ls rs s e,
          end-Merged lc rc prev lb rb ls rs s wp mp sound bl br
              (ltb_ℤ→ge (minimum lb rb) infinity e),
        )
        | inl e ↦
            let (x, y, _) = minimum-cases lb rb in
            let fin = ltb_ℤ→lt (minimum lb rb) infinity e in
            let al = advance-Advanced cfg.info w (minimum lb rb) lc lb ls fin x bl wl in
            let ar = advance-Advanced cfg.info w (minimum lb rb) rc rb rs fin y br wr in
            let (n, s', run, r) =
              keeps (cdd_neg_cond al.child lmask) (cdd_neg_cond ar.child rmask) s
                (IsWf-neg_cond cfg.info w al.child lmask al.child_wf)
                (IsWf-neg_cond cfg.info w ar.child rmask ar.child_wf)
                (rw (height-neg_cond, height-neg_cond) (omega (arith, al.child_low, ar.child_low)))
                sound in
            let next = if same n prev then prev else n in
            let (es, s'', run', m) =
              merge_loop-Merged k al.child ar.child al.bound ar.bound al.rest ar.rest next s'
                al.bounded ar.bounded al.wf ar.wf (omega (arith, al.low, ar.low))
                (omega (arith, smaller lc rc lb rb ls rs al ar)) (rw (next-eq n prev) r.wf)
                (λ v. rw (next-eq n prev) (
                  r.meaning v
                  ∙ rw (eval-neg_cond v al.child lmask, eval-neg_cond v ar.child rmask)))
                r.sound in
            (
              if same n prev then es else elem (cdd_neg_cond prev mask) (minimum lb rb) es,
              s'',
              merge_loop-round rec lmask rmask mask k lc rc prev lb rb ls rs s al.child ar.child
                  al.bound ar.bound al.rest ar.rest n s' es s'' e al.eq ar.eq run run',
              round-Merged lc rc lb rb ls rs al ar prev n mp r.meaning es s'' m wp,
            )
      ]
