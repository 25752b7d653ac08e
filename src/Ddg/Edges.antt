-- ===== src/Ddg/Edges.antt =====
-- The nodes and edges of the data dependence graph.
use icsa_dswp.Prelude.{
  ◌≡◌, refl, ◌∙◌, true, ◌&&◌, ◌||◌, List, [], ◌∷◌, arith, ◌==◌, ==_iff, contains,
}
use icsa_dswp.Std.{Ptr}
use icsa_dswp.Std.PtrMap
use icsa_dswp.Dependence.{DependenceGraph, empty, add_node, add_edge, has_node, has_edge, IsClosed}
use icsa_dswp.Dependence.Laws.{
  has_node-add_node, has_edge-add_node, has_node-add_edge, has_edge-add_edge,
}
use icsa_dswp.Dependence.Order.{IsOrdered, add_node-IsOrdered, add_edge-IsOrdered, empty-IsOrdered}
use icsa_dswp.Ir.{User, instruction, other, Function, has_user}
use icsa_dswp.Ddg.{add_insts, add_users, add_uses, run_on_function}

pub has_node-add_insts :
    (is : List Ptr) (g : DependenceGraph) (n : Ptr)
    → has_node (add_insts is g) n ≡ (has_node g n || contains is n)
unfolding add_insts
has_node-add_insts [] g n = ground arith
has_node-add_insts (i ∷ is) g n =
    ground (arith, has_node-add_insts is (add_node i g) n, has_node-add_node i g n)

pub has_edge-add_insts :
    (is : List Ptr) (g : DependenceGraph) (x y : Ptr)
    → has_edge (add_insts is g) x y ≡ has_edge g x y
unfolding add_insts
has_edge-add_insts [] g x y = refl
has_edge-add_insts (i ∷ is) g x y =
    has_edge-add_insts is (add_node i g) x y ∙ has_edge-add_node i g x y

pub add_insts-IsOrdered :
    (is : List Ptr) (g : DependenceGraph) → IsOrdered g → IsOrdered (add_insts is g)
unfolding add_insts
add_insts-IsOrdered [] g h = h
add_insts-IsOrdered (i ∷ is) g h = add_insts-IsOrdered is (add_node i g) (add_node-IsOrdered i g h)

has_node-add_users :
    (i : Ptr) (us : List User) (g : DependenceGraph) (n : Ptr)
    → has_node g i ≡ true
    → has_node (add_users i us g) n ≡ has_node g n
unfolding add_users
has_node-add_users i [] g n h = refl
has_node-add_users i (instruction u ∷ us) g n h = ground (
  arith,
  has_node-add_users i us (add_edge i u g) n,
  has_node-add_edge i u g n,
  has_node-add_edge i u g i,
)
has_node-add_users i (other ∷ us) g n h = has_node-add_users i us g n h

has_edge-add_users :
    (i : Ptr) (us : List User) (g : DependenceGraph) (x y : Ptr)
    → has_edge (add_users i us g) x y ≡ (has_edge g x y || i == x && has_user us y)
unfolding add_users
has_edge-add_users i [] g x y = ground arith
has_edge-add_users i (instruction u ∷ us) g x y =
    ground (arith, has_edge-add_users i us (add_edge i u g) x y, has_edge-add_edge i u g x y)
has_edge-add_users i (other ∷ us) g x y = ground (arith, has_edge-add_users i us g x y)

add_users-IsOrdered :
    (i : Ptr) (us : List User) (g : DependenceGraph) → IsOrdered g → IsOrdered (add_users i us g)
unfolding add_users
add_users-IsOrdered i [] g h = h
add_users-IsOrdered i (instruction u ∷ us) g h =
    add_users-IsOrdered i us (add_edge i u g) (add_edge-IsOrdered i u g h)
add_users-IsOrdered i (other ∷ us) g h = add_users-IsOrdered i us g h

module _ (f : Function) where
  has_node-add_uses :
      (is : List Ptr) (g : DependenceGraph) (n : Ptr)
      → ((i : Ptr) → contains is i ≡ true → has_node g i ≡ true)
      → has_node (add_uses f is g) n ≡ has_node g n
  unfolding add_uses
  has_node-add_uses [] g n h = refl
  has_node-add_uses (i ∷ is) g n h =
      has_node-add_uses is (add_users i (f.users i) g) n
        (λ j m. has_node-add_users i (f.users i) g j (h i (ground arith)) ∙ h j (ground arith))
      ∙ has_node-add_users i (f.users i) g n (h i (ground arith))

  has_edge-add_uses :
      (is : List Ptr) (g : DependenceGraph) (x y : Ptr)
      → has_edge (add_uses f is g) x y ≡ (has_edge g x y || contains is x && has_user (f.users x) y)
  unfolding add_uses
  has_edge-add_uses [] g x y = ground arith
  has_edge-add_uses (i ∷ is) g x y = ground (
    arith,
    has_edge-add_uses is (add_users i (f.users i) g) x y,
    has_edge-add_users i (f.users i) g x y,
    ==_iff i x,
  )

  add_uses-IsOrdered :
      (is : List Ptr) (g : DependenceGraph) → IsOrdered g → IsOrdered (add_uses f is g)
  unfolding add_uses
  add_uses-IsOrdered [] g h = h
  add_uses-IsOrdered (i ∷ is) g h =
      add_uses-IsOrdered is (add_users i (f.users i) g) (add_users-IsOrdered i (f.users i) g h)

  abbrev pub ddg : DependenceGraph
  ddg = run_on_function f empty

  pub has_node-run : (n : Ptr) → has_node ddg n ≡ contains f.insts n
  unfolding run_on_function PtrMap.find
  has_node-run n = ground (
    arith,
    has_node-add_uses f.insts (add_insts f.insts empty) n listed,
    has_node-add_insts f.insts empty n,
  )
    where
      listed : (i : Ptr) → contains f.insts i ≡ true → has_node (add_insts f.insts empty) i ≡ true
      listed i m = ground (arith, has_node-add_insts f.insts empty i)

  pub has_edge-run : (x y : Ptr) → has_edge ddg x y ≡ (contains f.insts x && has_user (f.users x) y)
  unfolding run_on_function PtrMap.find
  has_edge-run x y = ground (
    arith,
    has_edge-add_uses f.insts (add_insts f.insts empty) x y,
    has_edge-add_insts f.insts empty x y,
  )

  pub run-IsOrdered : IsOrdered ddg
  unfolding run_on_function
  run-IsOrdered =
      add_uses-IsOrdered f.insts (add_insts f.insts empty)
        (add_insts-IsOrdered f.insts empty empty-IsOrdered)

  -- Starting from a released graph, `runOnFunction` of the data dependence pass builds the graph
  -- whose nodes are the instructions of the function and whose edges lead from an instruction of
  -- the function to each instruction among its users. If the instructions among those users are
  -- all in the function, every dependant is a node.
  pub ddg_lem :
      ((x y : Ptr)
        → contains f.insts x ≡ true
        → has_user (f.users x) y ≡ true
        → contains f.insts y ≡ true)
      → ((n : Ptr) → has_node ddg n ≡ contains f.insts n)
        × ((x y : Ptr) → has_edge ddg x y ≡ (contains f.insts x && has_user (f.users x) y))
        × IsOrdered ddg
        × IsClosed ddg
  ddg_lem inside = (
    has_node-run,
    has_edge-run,
    run-IsOrdered,
    λ x y e. ground (arith, has_edge-run x y, has_node-run y, inside x y),
  )
