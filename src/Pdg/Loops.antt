-- ===== src/Pdg/Loops.antt =====
-- What each loop of the program dependence pass adds, as a test on the edges.
use icsa_dswp.Prelude.{
  ◌≡◌, refl, ◌∙◌, Bool, false, not, ◌&&◌, ◌||◌, Option, none, some, List, [], ◌∷◌, arith, ◌==◌,
  ==_iff, contains, inl, inr, Bool-cases,
}
use icsa_dswp.Std.{Ptr}
use icsa_dswp.Std.PtrSet.{PtrSet}
use icsa_dswp.Std.PtrMap
use icsa_dswp.Std.PtrMap.{PtrMap}
use icsa_dswp.Dependence.{DependenceGraph, add_node, add_edge, has_node, has_edge}
use icsa_dswp.Dependence.Laws.{has_node-add_node, has_edge-add_node}
use icsa_dswp.Dependence.Order.{IsOrdered, add_node-IsOrdered}
use icsa_dswp.Dependence.Adds.{Adds, Adds-nil, Adds-edge, Adds-trans}
use icsa_dswp.Ir.{Incoming, Function}
use icsa_dswp.GraphUtils.Transpose.{edge_in}
use icsa_dswp.Pdg.{
  copy_nodes, add_targets, copy_edges, add_blocks, add_control, add_incoming, add_phis,
}

add_targets-Adds :
    (a : Ptr) (ts : List Ptr) (g : DependenceGraph)
    → Adds g (add_targets a ts g) (λ x y. a == x && contains ts y)
unfolding add_targets
add_targets-Adds a [] g = Adds-trans (Adds-nil g) (Adds-nil g) (λ x y. ground arith)
add_targets-Adds a (t ∷ ts) g =
    Adds-trans (Adds-edge a t g) (add_targets-Adds a ts (add_edge a t g)) (λ x y. ground arith)

pub copy_edges-Adds :
    (m : PtrMap PtrSet) (g : DependenceGraph) → Adds g (copy_edges m g) (edge_in m)
unfolding copy_edges
copy_edges-Adds [] g = Adds-nil g
copy_edges-Adds ((k, s) ∷ m) g =
    Adds-trans (add_targets-Adds k s g) (copy_edges-Adds m (add_targets k s g)) (λ x y. refl)

module _ (f : Function) where
  -- Some block of the set has the instruction.
  abbrev pub in_blocks : PtrSet → Ptr → Bool
  in_blocks [] y = false
  in_blocks (b ∷ bs) y = contains (f.block_insts b) y || in_blocks bs y

  abbrev pub control_in : PtrMap PtrSet → Ptr → Ptr → Bool
  control_in [] x y = false
  control_in ((b, s) ∷ m) x y = f.back b == x && in_blocks s y || control_in m x y

  -- A constant comes in from the block that ends with the instruction.
  abbrev pub constant_from : List Incoming → Ptr → Bool
  constant_from [] x = false
  constant_from (v ∷ vs) x = v.is_constant && f.back v.block == x || constant_from vs x

  abbrev pub phi_constant : Ptr → Ptr → Bool
  phi_constant x y = elim (f.phi y) [ none ↦ false | some vs ↦ constant_from vs x ]

  add_blocks-Adds :
      (a : Ptr) (s : PtrSet) (g : DependenceGraph)
      → Adds g (add_blocks f a s g) (λ x y. a == x && in_blocks s y)
  unfolding add_blocks
  add_blocks-Adds a [] g = Adds-trans (Adds-nil g) (Adds-nil g) (λ x y. ground arith)
  add_blocks-Adds a (b ∷ bs) g =
      Adds-trans (add_targets-Adds a (f.block_insts b) g)
        (add_blocks-Adds a bs (add_targets a (f.block_insts b) g)) (λ x y. ground arith)

  pub add_control-Adds :
      (m : PtrMap PtrSet) (g : DependenceGraph) → Adds g (add_control f m g) (control_in m)
  unfolding add_control
  add_control-Adds [] g = Adds-nil g
  add_control-Adds ((b, s) ∷ m) g =
      Adds-trans (add_blocks-Adds (f.back b) s g) (add_control-Adds m (add_blocks f (f.back b) s g))
        (λ x y. refl)

  add_incoming-Adds :
      (t : Ptr) (vs : List Incoming) (g : DependenceGraph)
      → Adds g (add_incoming f t vs g) (λ x y. t == y && constant_from vs x)
  unfolding add_incoming
  add_incoming-Adds t [] g = Adds-trans (Adds-nil g) (Adds-nil g) (λ x y. ground arith)
  add_incoming-Adds t (v ∷ vs) g = elim (Bool-cases v.is_constant) [
    | inl is ↦ rw is (
        Adds-trans (Adds-edge (f.back v.block) t g)
          (add_incoming-Adds t vs (add_edge (f.back v.block) t g)) (λ x y. ground arith))
    | inr not ↦ rw not (Adds-trans (Adds-nil g) (add_incoming-Adds t vs g) (λ x y. ground arith))
  ]

  -- the body of the last loop, by what `dyn_cast` returned
  abbrev add_phi : Ptr → Option (List Incoming) → DependenceGraph → DependenceGraph
  add_phi t o g = elim o [ none ↦ g | some vs ↦ add_incoming f t vs g ]

  add_phi-Adds :
      (t : Ptr) (o : Option (List Incoming)) (g : DependenceGraph)
      → f.phi t ≡ o
      → Adds g (add_phi t o g) (λ x y. t == y && phi_constant x y)
  add_phi-Adds t none g e =
      Adds-trans (Adds-nil g) (Adds-nil g) (λ x y. ground (arith, ==_iff t y, e))
  add_phi-Adds t (some vs) g e =
      Adds-trans (add_incoming-Adds t vs g) (Adds-nil _) (λ x y. ground (arith, ==_iff t y, e))

  pub add_phis-Adds :
      (m : PtrMap PtrSet) (g : DependenceGraph)
      → Adds g (add_phis f m g) (λ x y. contains (PtrMap.keys m) y && phi_constant x y)
  unfolding add_phis
  add_phis-Adds [] g = Adds-nil g
  add_phis-Adds ((t, s) ∷ m) g =
      Adds-trans (add_phi-Adds t (f.phi t) g refl) (add_phis-Adds m (add_phi t (f.phi t) g))
        (λ x y. ground (arith, ==_iff t y))

pub copy_nodes_lem :
    (m : PtrMap PtrSet) (g : DependenceGraph)
    → ((n : Ptr) → has_node (copy_nodes m g) n ≡ (has_node g n || contains (PtrMap.keys m) n))
      × ((x y : Ptr) → has_edge (copy_nodes m g) x y ≡ has_edge g x y)
      × (IsOrdered g → IsOrdered (copy_nodes m g))
unfolding copy_nodes
copy_nodes_lem [] g = (λ n. ground arith, λ x y. refl, λ o. o)
copy_nodes_lem ((k, s) ∷ m) g =
    let (nodes, edges, ordered) = copy_nodes_lem m (add_node k g) in
    (
      λ n. ground (arith, nodes n, has_node-add_node k g n),
      λ x y. edges x y ∙ has_edge-add_node k g x y,
      λ o. ordered (add_node-IsOrdered k g o),
    )
