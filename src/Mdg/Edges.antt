-- ===== src/Mdg/Edges.antt =====
-- The nodes and edges of the memory dependence graph.
use icsa_dswp.Prelude.{
  ◌≡◌, refl, ◌∙◌, Bool, true, not, ◌&&◌, ◌||◌, List, [], ◌∷◌, arith, ◌==◌, ==_iff, contains, if_ind,
}
use icsa_dswp.Std.{Ptr, nullptr}
use icsa_dswp.Std.PtrMap
use icsa_dswp.Dependence.{DependenceGraph, empty, has_node, has_edge, IsClosed}
use icsa_dswp.Dependence.Laws.{has_node-add_edge, has_edge-add_edge}
use icsa_dswp.Dependence.Order.{IsOrdered, add_edge-IsOrdered, empty-IsOrdered}
use icsa_dswp.Ir.{Function}
use icsa_dswp.Ddg.{add_insts}
use icsa_dswp.Ddg.Edges.{has_node-add_insts, has_edge-add_insts, add_insts-IsOrdered}
use icsa_dswp.Mdg.{add_dependency, add_dependencies, run_on_function}

module _ (f : Function) where
  -- `y` accesses memory that `x` defines, as LLVM answers.
  abbrev pub defines : Ptr → Ptr → Bool
  defines x y =
      f.may_access_memory y
      && ((f.dependency y).inst == x && not (x == nullptr) && (f.dependency y).is_def)

  has_edge-add_dependency :
      (i : Ptr) (g : DependenceGraph) (x y : Ptr)
      → has_edge (add_dependency f i g) x y ≡ (has_edge g x y || i == y && defines x i)
  unfolding add_dependency
  has_edge-add_dependency i g x y = ground (arith, has_edge-add_edge (f.dependency i).inst i g x y)

  -- The source of an added edge is a node already.
  abbrev Anchored : Ptr → DependenceGraph → Type 0
  Anchored i g = defines (f.dependency i).inst i ≡ true → has_node g (f.dependency i).inst ≡ true

  has_node-add_dependency :
      (i : Ptr) (g : DependenceGraph) (n : Ptr)
      → Anchored i g
      → has_node (add_dependency f i g) n ≡ has_node g n
  unfolding add_dependency
  has_node-add_dependency i g n h =
      ground
        (arith, has_node-add_edge (f.dependency i).inst i g n, h, ==_iff (f.dependency i).inst n)

  add_dependency-IsOrdered :
      (i : Ptr) (g : DependenceGraph) → IsOrdered g → IsOrdered (add_dependency f i g)
  unfolding add_dependency
  add_dependency-IsOrdered i g h = if_ind IsOrdered (not (f.may_access_memory i)) h (
      if_ind IsOrdered (not ((f.dependency i).inst == nullptr) && (f.dependency i).is_def)
        (add_edge-IsOrdered (f.dependency i).inst i g h) h)

  has_edge-add_dependencies :
      (is : List Ptr) (g : DependenceGraph) (x y : Ptr)
      → has_edge (add_dependencies f is g) x y ≡ (has_edge g x y || contains is y && defines x y)
  unfolding add_dependencies
  has_edge-add_dependencies [] g x y = ground arith
  has_edge-add_dependencies (i ∷ is) g x y = ground (
    arith,
    has_edge-add_dependencies is (add_dependency f i g) x y,
    has_edge-add_dependency i g x y,
    ==_iff i y,
  )

  has_node-add_dependencies :
      (is : List Ptr) (g : DependenceGraph) (n : Ptr)
      → ((i : Ptr) → contains is i ≡ true → Anchored i g)
      → has_node (add_dependencies f is g) n ≡ has_node g n
  unfolding add_dependencies
  has_node-add_dependencies [] g n h = refl
  has_node-add_dependencies (i ∷ is) g n h =
      has_node-add_dependencies is (add_dependency f i g) n (λ j m d.
        has_node-add_dependency i g (f.dependency j).inst (h i (ground arith))
        ∙ h j (ground arith) d)
      ∙ has_node-add_dependency i g n (h i (ground arith))

  add_dependencies-IsOrdered :
      (is : List Ptr) (g : DependenceGraph) → IsOrdered g → IsOrdered (add_dependencies f is g)
  unfolding add_dependencies
  add_dependencies-IsOrdered [] g h = h
  add_dependencies-IsOrdered (i ∷ is) g h =
      add_dependencies-IsOrdered is (add_dependency f i g) (add_dependency-IsOrdered i g h)

  abbrev pub mdg : DependenceGraph
  mdg = run_on_function f empty

  pub has_edge-run : (x y : Ptr) → has_edge mdg x y ≡ (contains f.insts y && defines x y)
  unfolding run_on_function PtrMap.find
  has_edge-run x y = ground (
    arith,
    has_edge-add_dependencies f.insts (add_insts f.insts empty) x y,
    has_edge-add_insts f.insts empty x y,
  )

  pub has_node-run :
      ((x y : Ptr) → contains f.insts y ≡ true → defines x y ≡ true → contains f.insts x ≡ true)
      → (n : Ptr) → has_node mdg n ≡ contains f.insts n
  unfolding run_on_function PtrMap.find
  has_node-run inside n = ground (
    arith,
    has_node-add_dependencies f.insts (add_insts f.insts empty) n anchored,
    has_node-add_insts f.insts empty n,
  )
    where
      anchored : (i : Ptr) → contains f.insts i ≡ true → Anchored i (add_insts f.insts empty)
      anchored i m d =
          has_node-add_insts f.insts empty (f.dependency i).inst
          ∙ inside (f.dependency i).inst i m d

  pub run-IsOrdered : IsOrdered mdg
  unfolding run_on_function
  run-IsOrdered =
      add_dependencies-IsOrdered f.insts (add_insts f.insts empty)
        (add_insts-IsOrdered f.insts empty empty-IsOrdered)

  -- Starting from a released graph, `runOnFunction` of the memory dependence pass adds an edge
  -- exactly from the instruction that LLVM names as the dependency to each instruction of the
  -- function that may access memory, if that dependency is not null and is a definition. If the
  -- named instructions are all in the function, the nodes are the instructions of the function and
  -- every dependant is a node.
  pub mdg_lem :
      ((x y : Ptr) → contains f.insts y ≡ true → defines x y ≡ true → contains f.insts x ≡ true)
      → ((n : Ptr) → has_node mdg n ≡ contains f.insts n)
        × ((x y : Ptr) → has_edge mdg x y ≡ (contains f.insts y && defines x y))
        × IsOrdered mdg
        × IsClosed mdg
  mdg_lem inside =
      (nodes, has_edge-run, run-IsOrdered, λ x y e. ground (arith, has_edge-run x y, nodes y))
    where
      nodes : (n : Ptr) → has_node mdg n ≡ contains f.insts n
      nodes = has_node-run inside
