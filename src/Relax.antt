-- ===== src/Relax.antt =====
-- `relax` of src/cddop.c: the constraint `lower`, `upper` on the difference of `clock1` and `clock2`
-- is about to be forgotten, and what follows from it with the other constraints of a diagram is added.
use ucdd.Base.{
  ℕ, zero, suc, ◌+◌, ◌-◌, ◌*◌, ◌/◌, ◌%◌, Bool, ◌&&◌, ◌||◌, ◌==◌, if◌then◌else◌, List, Option, none,
  some, ℤ, pos, negsuc, ◌+ℤ◌, ltb_ℤ, ◌==ℤ◌, length, set, get_elem?,
}
use ucdd.Bounds.{minus_infinity, bnd_l2u, bnd_u2l, bnd_add}
use ucdd.Dd.{
  Dd, Node, bdd_node, cdd_node, cdd_isterminal, cdd_mask, cdd_neg_cond, node_of, level_of, cddfalse,
}
use ucdd.Cache.{holds}
use ucdd.RelaxCache.{RelaxEntry}
use ucdd.Machine.{
  Config, M, Run, ok, fault, bad_read, out_of_fuel, ◌>>=◌, return, stop, LevelInfo, LevelType,
  type_cdd, type_bdd,
}
use ucdd.Nodes.{cdd_bddvar, cdd_interval_from_level}
use ucdd.Apply.{lift, minimum}
use ucdd.Levels.{Levels, and_then, cdd_interval}
use ucdd.Ops.{cdd_and, cdd_or, cdd_ite}
use ucdd.Walk.{iterate}

abbrev pub maximum : ℤ → ℤ → ℤ
maximum a b = if ltb_ℤ b a then a else b

-- 2 ^ 64, the values of `uintptr_t`.
abbrev pub word : ℕ
word = 0x10000000000000000

-- The conversion to `uintptr_t`.
unfoldable pub to_word : ℤ → ℕ
to_word (pos n) = n % word
to_word (negsuc n) = word - 1 - n % word

-- `n * (n + 1) / 2`, which is the same for `n` and `- n - 1`.
unfoldable pub half_product : ℤ → ℕ
half_product (pos n) = n * (n + 1) / 2
half_product (negsuc n) = n * (n + 1) / 2

-- `cdd_pair` on two numbers of type `int32_t`, if nothing overflows.
unfoldable pub cdd_pair : ℤ → ℤ → ℕ
unfolding to_word half_product
cdd_pair a b = to_word (pos (half_product (a +ℤ b)) +ℤ a)

-- `cdd_pair` on two words.
unfoldable pub pair_words : ℕ → ℕ → ℕ
pair_words a b = let sum = (a + b) % word in (sum * ((sum + 1) % word) % word / 2 + a) % word

-- `RELAXHASH`, with `cdd_triple`; the first argument is the address.
unfoldable pub relax_hash : ℕ → ℤ → ℕ → ℕ → ℤ → ℕ
unfolding pair_words cdd_pair
relax_hash node lower clock1 clock2 upper =
    pair_words (pair_words node (cdd_pair lower (pos clock1))) (cdd_pair (pos clock2) upper)

-- The clocks `pos` and `neg` and the bounds `l` and `u` of a consequence.
pub record Consequence : Type 0 where
  pub positive : ℕ
  pub negative : ℕ
  pub l : ℤ
  pub u : ℤ

-- An element of an array.
unfoldable pub read : {A : Type 0} → List A → ℕ → Run A
read xs i = elim (get_elem? xs i) [ none ↦ fault bad_read | some x ↦ ok x ]

module _ (cfg : Config) (table : Levels) (clocks : List ℕ) (rc : List ℤ) where
  -- `if (test && clocks[c])`: the array is read only after the test.
  unfoldable pub if_reset :
      Bool → ℕ → Consequence → Run (Option Consequence) → Run (Option Consequence)
  unfolding read and_then
  if_reset test c found rest =
      if test
      then and_then (read clocks c) (λ x. if x == 0 then rest else ok (some found))
      else rest

  -- The consequence of the constraint with the bounds `low` and `up` of a level; `none` is the
  -- value -1 of `pos`.
  unfoldable pub consequence : LevelInfo → ℤ → ℕ → ℕ → ℤ → ℤ → ℤ → Run (Option Consequence)
  unfolding if_reset
  consequence info lower clock1 clock2 upper low up =
      if_reset (info.clock1 == clock1) clock1
        (record {
          positive = info.clock2;
          negative = clock2;
          l = bnd_u2l (bnd_add up (bnd_l2u lower));
          u = bnd_add upper (bnd_l2u low);
        })
        (if_reset (info.clock1 == clock2) clock2
          (record {
            positive = clock1;
            negative = info.clock2;
            l = bnd_u2l (bnd_add (bnd_l2u lower) (bnd_l2u low));
            u = bnd_add upper up;
          })
          (if_reset (info.clock2 == clock1) clock1
            (record {
              positive = info.clock1;
              negative = clock2;
              l = bnd_u2l (bnd_add (bnd_l2u lower) (bnd_l2u low));
              u = bnd_add upper up;
            })
            (if_reset (info.clock2 == clock2) clock2
              (record {
                positive = info.clock1;
                negative = clock1;
                l = bnd_u2l (bnd_add upper (bnd_l2u low));
                u = bnd_add up (bnd_l2u lower);
              })
              (ok none))))

  -- The consequence is added if it is tighter than the constraints in `rc`.
  unfoldable pub tighten : Option Consequence → Dd → M Dd
  unfolding read
  tighten none d = return d
  tighten (some c) d = do
    a ← lift (read rc (c.negative * table.clocknum + c.positive))
    b ← lift (read rc (c.positive * table.clocknum + c.negative))
    if ltb_ℤ (bnd_u2l a) c.l || ltb_ℤ c.u b
        then (do
          tmp3 ← lift (
              cdd_interval cfg.maxcddsize table c.positive c.negative (maximum c.l (bnd_u2l a))
                (minimum c.u b))
          cdd_and cfg d tmp3)
        else return d

  -- The body of the loop of the case TYPE_CDD.
  unfoldable pub relax_child : (Dd → M Dd) → ℕ → LevelInfo → ℤ → ℕ → ℕ → ℤ → ℤ → ℤ → Dd → Dd → M Dd
  unfolding consequence tighten
  relax_child rec level info lower clock1 clock2 upper low up child res = do
    found ← lift (consequence info lower clock1 clock2 upper low up)
    relaxed ← rec child
    tmp2 ← tighten found relaxed
    tmp3 ← lift (cdd_interval_from_level cfg.maxcddsize level low up)
    tmp4 ← cdd_and cfg tmp2 tmp3
    cdd_or cfg res tmp4

  unfoldable pub relax_level :
      (Dd → M Dd) → LevelInfo → ℤ → ℕ → ℕ → ℤ → LevelType → Bool → Node → M Dd
  unfolding relax_child
  relax_level rec info lower clock1 clock2 upper type_bdd neg (bdd_node k low high) = do
    tmp1 ← rec (cdd_neg_cond low neg)
    tmp2 ← rec (cdd_neg_cond high neg)
    cdd_ite cfg (cdd_bddvar k) tmp2 tmp1
  relax_level rec info lower clock1 clock2 upper type_cdd neg (cdd_node k es) =
      iterate (relax_child rec k info lower clock1 clock2 upper) neg minus_infinity es cddfalse
  relax_level rec info lower clock1 clock2 upper _ neg _ = stop bad_read

  -- The test of the entry.
  unfoldable pub is_entry : RelaxEntry → Dd → ℤ → ℕ → ℕ → ℤ → ℕ → Bool
  is_entry e node lower clock1 clock2 upper opid =
      holds e.node node
      && e.lower ==ℤ lower
      && e.upper ==ℤ upper
      && e.clock1 == clock1
      && e.clock2 == clock2
      && e.op == opid

  -- The lookup before, and the update of the entry after the recursion `m`.
  unfoldable pub relax_memo : Dd → ℤ → ℕ → ℕ → ℤ → M Dd → M Dd
  unfolding is_entry relax_hash
  relax_memo node lower clock1 clock2 upper m s =
      let i = relax_hash (cfg.address node) lower clock1 clock2 upper % length s.relaxcache in
      elim (get_elem? s.relaxcache i) [
        | none ↦ fault bad_read
        | some e ↦
            if is_entry e node lower clock1 clock2 upper s.opid
            then elim e.res [ none ↦ fault bad_read | some d ↦ ok (d, s) ]
            else elim (m s) [
              | fault f ↦ fault f
              | ok (d, s') ↦ ok (
                d,
                record s' {
                  relaxcache = set s'.relaxcache i (record {
                    res = some d;
                    node = some node;
                    lower = lower;
                    upper = upper;
                    clock1 = clock1;
                    clock2 = clock2;
                    op = s'.opid;
                  });
                },
              )
            ]
      ]

  unfoldable pub relax : ℕ → Dd → ℤ → ℕ → ℕ → ℤ → M Dd
  unfolding relax_memo relax_level
  relax zero node lower clock1 clock2 upper = stop out_of_fuel
  relax (suc fuel) node lower clock1 clock2 upper =
      let info = cfg.info (level_of (node_of node)) in
      let rec : Dd → M Dd = λ d. relax fuel d lower clock1 clock2 upper in
      if cdd_isterminal node
      then return node
      else relax_memo node lower clock1 clock2 upper
          (relax_level rec info lower clock1 clock2 upper info.type (cdd_mask node) (node_of node))
