-- ===== src/Dd/Equality.antt =====
-- Equality of pointers is decided by `same`.
use ucdd.Base.{true, ◌≡◌, refl, ==ℤ_iff, arith}
use ucdd.Dd.{
  Dd, Node, Elems, ptr, terminal, xterm, bdd_node, cdd_node, nil, elem, same, same_node, same_elems,
}

mutual
  unfolding same

  same_sound : (a b : Dd) → same a b ≡ true → a ≡ b
  same_sound (ptr m n) (ptr m' n') h = ground (arith, same_node_sound n n')

  same_node_sound : (a b : Node) → same_node a b ≡ true → a ≡ b
  same_node_sound terminal terminal h = refl
  same_node_sound (xterm i) (xterm j) h = ground arith
  same_node_sound (bdd_node k l u) (bdd_node k' l' u') h =
      ground (arith, same_sound l l', same_sound u u')
  same_node_sound (cdd_node k es) (cdd_node k' es') h = ground (arith, same_elems_sound es es')
  same_node_sound _ _ h = ground arith

  same_elems_sound : (a b : Elems) → same_elems a b ≡ true → a ≡ b
  same_elems_sound nil nil h = refl
  same_elems_sound (elem c b es) (elem c' b' es') h =
      ground (arith, same_sound c c', same_elems_sound es es', ==ℤ_iff b b')
  same_elems_sound _ _ h = ground arith

mutual
  unfolding same

  same_refl : (a : Dd) → same a a ≡ true
  same_refl (ptr m n) = ground (arith, same_node_refl n)

  same_node_refl : (a : Node) → same_node a a ≡ true
  same_node_refl terminal = refl
  same_node_refl (xterm i) = ground arith
  same_node_refl (bdd_node k l u) = ground (arith, same_refl l, same_refl u)
  same_node_refl (cdd_node k es) = ground (arith, same_elems_refl es)

  same_elems_refl : (a : Elems) → same_elems a a ≡ true
  same_elems_refl nil = refl
  same_elems_refl (elem c b es) = ground (arith, same_refl c, same_elems_refl es)

pub same→eq : (a b : Dd) → same a b ≡ true → a ≡ b
same→eq a b h = same_sound a b h

pub same_self : (a : Dd) → same a a ≡ true
same_self a = same_refl a
