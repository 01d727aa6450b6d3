-- ===== src/Apply/Frame.antt =====
-- `cdd_apply` touches no part of the state but its own cache.
use ucdd.Base.{
  ℕ, zero, suc, Bool, true, false, ◌&&◌, ◌≡◌, refl, ◌∙◌, arith, Bool-cases, inl, inr, pos, ltb_ℤ,
  ◌==ℤ◌, if◌then◌else◌, Option, none, some, ltb, leb,
}
use ucdd.Bounds.{infinity}
use ucdd.Dd.{Dd, Node, Elems, cdd_mask, node_of, level_of, cdd_isterminal}
use ucdd.Machine.{
  Config, State, M, Run, Fault, ok, fault, bad_read, backed_off, ◌>>=◌, >>=-inv, return, stop, rest,
  IsLocal, LevelType, type_cdd, type_bdd,
}
use ucdd.Cache.{Entry, lookup}
use ucdd.Apply.{
  Op, Recursion, elems_at, low_at, high_at, minimum, advance, head_of, lift, merge_loop, apply_cdd,
  apply_bdd, apply_level, apply_nodes, apply_ordered, apply_step, cdd_apply_rec, cdd_apply,
  terminate, is_hit, op_code, apply_hash, store_apply,
}

pub >>=-IsLocal :
    {A B : Type 0} (m : M A) (f : A → M B)
    → IsLocal m
    → ((a : A) → IsLocal (f a))
    → IsLocal (m >>= f)
>>=-IsLocal m f h k s b t e = let (a, s', p, q) = >>=-inv m f s t b e in k a s' b t q ∙ h s a s' p

ok_state : {A : Type 0} (a b : A) (s t : State) → return a s ≡ ok (b, t) → rest t ≡ rest s
ok_state a b s t e = let same : s ≡ t = ground (arith, e) in rw same refl

pub return-IsLocal : {A : Type 0} (a : A) → IsLocal (return a)
return-IsLocal a s b t e = ok_state a b s t e

pub stop-IsLocal : {A : Type 0} (x : Fault) → IsLocal {A = A} (stop x)
stop-IsLocal x s b t e = cc

pub lift-IsLocal : {A : Type 0} (r : Run A) → IsLocal (lift r)
unfolding lift
lift-IsLocal (ok a) s b t e = ok_state a b s t e
lift-IsLocal (fault x) s b t e = cc

pub if-IsLocal :
    {A : Type 0} (c : Bool) (m n : M A) → IsLocal m → IsLocal n → IsLocal (if c then m else n)
if-IsLocal true m n h k = h
if-IsLocal false m n h k = k

module _ (rec : Recursion) (local : (l r : Dd) → IsLocal (rec l r)) (lmask rmask : Bool) where
  merge_loop-IsLocal :
      (mask : Bool) (k : ℕ) (lp rp : Elems) (prev : Dd)
      → IsLocal (merge_loop rec lmask rmask mask k lp rp prev)
  unfolding merge_loop
  merge_loop-IsLocal mask zero lp rp prev = stop-IsLocal _
  merge_loop-IsLocal mask (suc k) lp rp prev =
      >>=-IsLocal _ _ (lift-IsLocal (head_of lp)) λ (lc, lb).
        >>=-IsLocal _ _ (lift-IsLocal (head_of rp)) λ (rc, rb).
          if-IsLocal (ltb_ℤ (minimum lb rb) infinity) _ _
            (>>=-IsLocal _ _ (lift-IsLocal (head_of (advance (minimum lb rb) lp))) λ (lc', lb').
              >>=-IsLocal _ _ (lift-IsLocal (head_of (advance (minimum lb rb) rp))) λ (rc', rb').
                >>=-IsLocal _ _ (local _ _)
                  λ n. >>=-IsLocal _ _ (merge_loop-IsLocal mask k _ _ _) λ es. return-IsLocal _)
            (return-IsLocal _)

  apply_cdd-IsLocal :
      (cfg : Config) (level : ℕ) (lp rp : Elems)
      → IsLocal (apply_cdd cfg rec lmask rmask level lp rp)
  unfolding apply_cdd
  apply_cdd-IsLocal cfg level lp rp = >>=-IsLocal _ _ (lift-IsLocal (head_of lp)) λ (lc, lb).
      >>=-IsLocal _ _ (lift-IsLocal (head_of rp)) λ (rc, rb).
        >>=-IsLocal _ _ (local _ _)
          λ prev. >>=-IsLocal _ _ (merge_loop-IsLocal _ _ _ _ _) λ es. lift-IsLocal _

  apply_bdd-IsLocal :
      (level : ℕ) (ll lh rl rh : Dd) → IsLocal (apply_bdd rec lmask rmask level ll lh rl rh)
  unfolding apply_bdd
  apply_bdd-IsLocal level ll lh rl rh =
      >>=-IsLocal _ _ (local _ _) λ low. >>=-IsLocal _ _ (local _ _) λ high. return-IsLocal _

  apply_level-IsLocal :
      (cfg : Config) (t : LevelType) (level : ℕ) (l r : Node)
      → IsLocal (apply_level cfg rec lmask rmask t level l r)
  unfolding apply_level
  apply_level-IsLocal cfg type_cdd level l r =
      >>=-IsLocal _ _ (lift-IsLocal (elems_at (leb (level_of l) (level_of r)) l)) λ lp.
        >>=-IsLocal _ _ (lift-IsLocal (elems_at (leb (level_of r) (level_of l)) r))
          λ rp. apply_cdd-IsLocal cfg level lp rp
  apply_level-IsLocal cfg type_bdd level l r =
      >>=-IsLocal _ _ (lift-IsLocal (low_at (leb (level_of l) (level_of r)) l)) λ ll.
        >>=-IsLocal _ _ (lift-IsLocal (high_at (leb (level_of l) (level_of r)) l)) λ lh.
          >>=-IsLocal _ _ (lift-IsLocal (low_at (leb (level_of r) (level_of l)) r)) λ rl.
            >>=-IsLocal _ _ (lift-IsLocal (high_at (leb (level_of r) (level_of l)) r))
              λ rh. apply_bdd-IsLocal level ll lh rl rh

  apply_nodes-IsLocal : (cfg : Config) (l r : Node) → IsLocal (apply_nodes cfg rec lmask rmask l r)
  unfolding apply_nodes
  apply_nodes-IsLocal cfg l r = apply_level-IsLocal cfg _ _ l r

-- A miss runs the recursion and writes the entry.
stored-IsLocal :
    (i : ℕ) (f : Dd → Entry) (m : M Dd)
    → IsLocal m
    → IsLocal {A = Dd}
        (λ s. elim (m s) [ fault x ↦ fault x | ok (d, s') ↦ ok (d, store_apply i (f d) s') ])
unfolding store_apply
stored-IsLocal i f m h s b t e =
    >>=-IsLocal m (λ d s'. ok (d, store_apply i (f d) s')) h (stored f) s b t e
  where
    stored : (g : Dd → Entry) (d : Dd) → IsLocal {A = Dd} (λ s'. ok (d, store_apply i (g d) s'))
    stored g d s b t e = ok_state d b (store_apply i (g d) s) t e

hit-IsLocal : (o : Option Dd) → IsLocal (λ s. elim o [ none ↦ fault bad_read | some d ↦ ok (d, s) ])
hit-IsLocal none s b t e = cc
hit-IsLocal (some d) s b t e = ok_state d b s t e

module _ (cfg : Config) (op : Op) (rec : Recursion) (local : (l r : Dd) → IsLocal (rec l r)) where
  found-IsLocal :
      (l r : Dd) (o : Option (ℕ × Entry))
      → IsLocal (λ s. elim o [
        | none ↦ fault bad_read
        | some (i, e) ↦
            if is_hit e l r (op_code op)
            then elim e.res [ none ↦ fault bad_read | some d ↦ ok (d, s) ]
            else (elim (apply_nodes cfg rec (cdd_mask l) (cdd_mask r) (node_of l) (node_of r) s) [
              | fault f ↦ fault f
              | ok (d, s') ↦ ok (
                d,
                store_apply i (record { a = some l; b = some r; res = some d; c = op_code op }) s',
              )
            ])
      ])
  found-IsLocal l r none s b t e = cc
  found-IsLocal l r (some (i, entry)) s b t e = elim (Bool-cases (is_hit entry l r (op_code op))) [
    | inl h ↦ hit-IsLocal entry.res s b t (rw h at e)
    | inr h ↦
        stored-IsLocal i (λ d. record { a = some l; b = some r; res = some d; c = op_code op })
          (apply_nodes cfg rec (cdd_mask l) (cdd_mask r) (node_of l) (node_of r))
          (apply_nodes-IsLocal rec local (cdd_mask l) (cdd_mask r) cfg (node_of l) (node_of r)) s b
          t (rw h at e)
  ]

  apply_ordered-IsLocal : (l r : Dd) → IsLocal (apply_ordered cfg op rec l r)
  unfolding apply_ordered
  apply_ordered-IsLocal l r s b t e = elim (Bool-cases (cdd_isterminal l && cdd_isterminal r)) [
    | inl h ↦ ok_state l b s t (rw h at e)
    | inr h ↦ found-IsLocal l r (lookup s.applycache (apply_hash cfg op l r)) s b t (rw h at e)
  ]

  apply_step-IsLocal : (l r : Dd) → IsLocal (apply_step cfg op rec l r)
  unfolding apply_step
  apply_step-IsLocal l r s b t e = elim (Bool-cases (s.errorcond ==ℤ pos 0)) [
    | inl h ↦ ended (terminate op l r) (rw h at e)
    | inr h ↦ let e' : fault backed_off ≡ ok (b, t) = rw h at e in cc
  ]
    where
      ordered :
          (c : Bool)
          → (if c then apply_ordered cfg op rec r l s else apply_ordered cfg op rec l r s)
            ≡ ok (b, t)
          → rest t ≡ rest s
      ordered true = apply_ordered-IsLocal r l s b t
      ordered false = apply_ordered-IsLocal l r s b t

      ended :
          (o : Option Dd)
          → (elim o [
            | some d ↦ ok (d, s)
            | none ↦
                if ltb (cfg.address r) (cfg.address l)
                then apply_ordered cfg op rec r l s
                else apply_ordered cfg op rec l r s
          ])
            ≡ ok (b, t)
          → rest t ≡ rest s
      ended none q = ordered (ltb (cfg.address r) (cfg.address l)) q
      ended (some d) q = ok_state d b s t q

apply_rec-IsLocal :
    (cfg : Config) (op : Op) (fuel : ℕ) (l r : Dd) → IsLocal (cdd_apply_rec cfg op fuel l r)
unfolding cdd_apply_rec
apply_rec-IsLocal cfg op zero l r = stop-IsLocal _
apply_rec-IsLocal cfg op (suc fuel) l r =
    apply_step-IsLocal cfg op (cdd_apply_rec cfg op fuel) (apply_rec-IsLocal cfg op fuel) l r

checked-IsLocal :
    (d : Dd) → IsLocal (λ s. if s.errorcond ==ℤ pos 0 then ok (d, s) else fault backed_off)
checked-IsLocal d s b t e = elim (Bool-cases (s.errorcond ==ℤ pos 0)) [
  | inl h ↦ ok_state d b s t (rw h at e)
  | inr h ↦ let e' : fault backed_off ≡ ok (b, t) = rw h at e in cc
]

-- `cdd_apply` leaves the other caches and the number of the operation as they were.
pub apply-IsLocal :
    (cfg : Config) (fuel : ℕ) (l r : Dd) (op : Op) → IsLocal (cdd_apply cfg fuel l r op)
unfolding cdd_apply
apply-IsLocal cfg fuel l r op =
    >>=-IsLocal _ _ (apply_rec-IsLocal cfg op fuel l r) λ d. checked-IsLocal d
