-- ===== src/Tests/Control.antt =====
-- Control dependence at an `if` without `else`.
use icsa_dswp.Prelude.{
  ◌≡◌, ◌↔◌, refl, Bool, true, false, inl, inr, arith, ◌==◌, contains, Bool-cases,
}
use icsa_dswp.Std.{Ptr}
use icsa_dswp.Outcome.{ok}
use icsa_dswp.Dependence.{DependenceGraph, empty, has_edge}
use icsa_dswp.Cdg
use icsa_dswp.Cdg.Frontier.{blocks}
use icsa_dswp.Cdg.Ancestors.{above}
use icsa_dswp.Cdg.Control.{
  Escapes, at_exit, along, PostDominates, IsPostDominatorTree, Controlled, control_lem,
}
use icsa_dswp.Tests.Samples.{triangle}

abbrev is_exit : Ptr → Bool
is_exit b = b == 3

-- Every path runs through the exit, and through where it starts.
stuck : (y z : Ptr) → above triangle.root y z ≡ true → PostDominates triangle is_exit y z
stuck y z a (at_exit e apart) = ground (arith, a, e, apart)
stuck y z a (along {x = _} {z = w} apart edge rest) =
    stuck y w (ground (arith, a, apart, edge)) rest

-- A block other than the exit is avoided from any other block.
escape :
    (y z : Ptr)
    → contains (blocks triangle.root) z ≡ true
    → y == z ≡ false
    → y == 3 ≡ false
    → Escapes triangle is_exit y z
escape y z i differ apart = elim (Bool-cases (z == 3)) [
  | inl exit ↦ at_exit exit differ
  | inr inner ↦ along {z = 3} differ (ground (arith, i, inner)) (at_exit refl apart)
]

dominance :
    (y z : Ptr)
    → contains (blocks triangle.root) y ≡ true
    → contains (blocks triangle.root) z ≡ true
    → (above triangle.root y z ≡ true) ↔ PostDominates triangle is_exit y z
dominance y z iy iz = elim (Bool-cases (above triangle.root y z)) [
  | inl is_above ↦ (stuck y z, λ p. is_above)
  | inr is_not ↦ (
    stuck y z,
    λ p.
        absurd
          (p (escape y z iz (ground (arith, iy, iz, is_not)) (ground (arith, iy, iz, is_not)))),
  )
]

triangle-IsPostDominatorTree : IsPostDominatorTree triangle is_exit
triangle-IsPostDominatorTree = record {
  unique = (refl, (refl, (refl, tt)));
  rooted = refl;
  nodes_unique = (refl, (refl, (refl, tt)));
  nodes_real = refl;
  parents = (refl, tt, (refl, tt, tt));
  top = refl;
  virtual = refl;
  dominance = λ y z iy iz ry rz. dominance y z iy iz;
}

control_lem_example :
    (cdg : DependenceGraph) × (Cdg.run_on_function triangle empty ≡ ok cdg)
    × ((has_edge cdg 1 2 ≡ true) ↔ Controlled triangle is_exit 1 2)
control_lem_example =
    control_lem triangle is_exit triangle-IsPostDominatorTree 1 2 refl refl refl refl
