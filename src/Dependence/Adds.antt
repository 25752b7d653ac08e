-- ===== src/Dependence/Adds.antt =====
-- Loops that add edges to a dependence graph, described by the relation that they add.
use icsa_dswp.Prelude.{◌≡◌, ◌⊎◌, inl, inr, Bool, true, false, ◌&&◌, ◌||◌, arith, ◌==◌, Bool-cases}
use icsa_dswp.Std.{Ptr}
use icsa_dswp.Dependence.{DependenceGraph, add_edge, has_node, has_edge}
use icsa_dswp.Dependence.Laws.{has_node-add_edge, has_edge-add_edge}
use icsa_dswp.Dependence.Order.{IsOrdered, add_edge-IsOrdered}

-- What a loop does: it adds the edges of a relation, whose sources it makes nodes, and it keeps
-- the order of the containers.
pub record Adds (g g' : DependenceGraph) (new : Ptr → Ptr → Bool) : Type 0 where
  pub edges : (x y : Ptr) → has_edge g' x y ≡ (has_edge g x y || new x y)
  pub kept : (n : Ptr) → has_node g n ≡ true → has_node g' n ≡ true
  pub sources :
      (n : Ptr) → has_node g' n ≡ true → (has_node g n ≡ true) ⊎ ((y : Ptr) × (new n y ≡ true))
  pub ordered : IsOrdered g → IsOrdered g'

abbrev pub none_new : Ptr → Ptr → Bool
none_new x y = false

pub Adds-nil : (g : DependenceGraph) → Adds g g none_new
Adds-nil g = record {
  edges = λ x y. ground arith;
  kept = λ n h. h;
  sources = λ n h. inl h;
  ordered = λ o. o;
}

pub Adds-edge :
    (a b : Ptr) (g : DependenceGraph) → Adds g (add_edge a b g) (λ x y. a == x && b == y)
Adds-edge a b g = record {
  edges = λ x y. ground (arith, has_edge-add_edge a b g x y);
  kept = λ n h. ground (arith, has_node-add_edge a b g n);
  sources = λ n h. elim (Bool-cases (a == n)) [
    | inl same ↦ inr (b, ground arith)
    | inr other ↦ inl (ground (arith, has_node-add_edge a b g n))
  ];
  ordered = add_edge-IsOrdered a b g;
}

pub Adds-trans :
    {g h k : DependenceGraph} {p q r : Ptr → Ptr → Bool}
    → Adds g h p
    → Adds h k q
    → ((x y : Ptr) → r x y ≡ (p x y || q x y))
    → Adds g k r
Adds-trans {p = p} {q = q} first second both = record {
  edges = λ x y. ground (arith, first.edges x y, second.edges x y, both x y);
  kept = λ n h. second.kept n (first.kept n h);
  sources = λ n h. elim (second.sources n h) [
    | inr (y, new) ↦ inr (y, ground (arith, both n y))
    | inl old ↦ elim (first.sources n old) [
      | inl older ↦ inl older
      | inr (y, new) ↦ inr (y, ground (arith, both n y))
    ]
  ];
  ordered = λ o. second.ordered (first.ordered o);
}
