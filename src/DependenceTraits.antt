-- ===== src/DependenceTraits.antt =====
-- pass/include/DependenceTraits.h: the wrapper of a dependence graph with which LLVM's graph writer
-- walks through it. A `unique_ptr` is an optional node, null as `none`. A node keeps the set that
-- it points to in the graph as a value: the printers do not change the graph while its wrapper
-- lives.
pub mod NodeIterator
pub mod ChildIterator
pub mod Walk
pub mod Wrapped
pub mod ReadBack
pub mod Steps
use Prim.Native.String.{String}
use icsa_dswp.Prelude.{Bool, true, false, Option, none, some, List, [], ◌∷◌, ◌++◌, if◌then◌else◌}
use icsa_dswp.Std.{Ptr}
use icsa_dswp.Std.PtrSet.{PtrSet}
use icsa_dswp.Std.PtrMap
use icsa_dswp.Std.PtrMap.{PtrMap}
use icsa_dswp.Std.Cursor
use icsa_dswp.Std.Cursor.{Cursor}
use icsa_dswp.Dependence.{DependenceGraph}
use icsa_dswp.Outcome.{Outcome, ok, err, bad_dereference, ◌>>=◌}
use icsa_dswp.Output.{Piece, text, Stream}

-- `DepNodeTraitsWrapper`
pub record Node : Type 0 where
  pub value : Ptr
  pub children : PtrSet

-- `DepGraphTraitsWrapper`
pub record Wrapper : Type 0 where
  pub nodes : PtrMap (Option Node)

-- the loop of the constructor
unfoldable pub wrap_nodes : PtrMap PtrSet → PtrMap (Option Node) → PtrMap (Option Node)
unfolding PtrMap.assign
wrap_nodes [] nodes = nodes
wrap_nodes ((value, s) ∷ m) nodes =
    wrap_nodes m (PtrMap.assign value (some (record { value = value; children = s })) nodes)

unfoldable pub wrap : DependenceGraph → Wrapper
unfolding wrap_nodes
wrap g = record { nodes = wrap_nodes g.nodes [] }

abbrev pub nodes_begin : Wrapper → Cursor
nodes_begin w = Cursor.first (PtrMap.keys w.nodes)

abbrev pub nodes_end : Wrapper → Cursor
nodes_end w = none

abbrev pub child_begin : Node → Cursor
child_begin n = Cursor.first n.children

abbrev pub child_end : Node → Cursor
child_end n = none

-- `operator[]`: `Nodes[Value].get()`, which inserts a null pointer under a missing value.
unfoldable pub lookup : Ptr → Wrapper → Wrapper × Option Node
unfolding PtrMap.touch PtrMap.find
lookup value w =
    let nodes = PtrMap.touch value none w.nodes in
    (record { nodes = nodes }, PtrMap.get_or nodes value none)

-- `N->getValue()` through a pointer that may be null
abbrev pub get_value : Option Node → Outcome Ptr
get_value none = err bad_dereference
get_value (some n) = ok n.value

-- `DOTGraphTraits` of a wrapper, which LLVM's `WriteGraph` calls
pub record DotTraits : Type 0 where
  pub get_graph_name : Wrapper → Outcome String
  pub get_node_label : Node → Outcome String

-- What `writeToFile` leaves: the messages in `errs()`, and the file, if it was opened.
pub record Written : Type 0 where
  pub errs : Stream
  pub file : Option (String × Stream)

-- `writeToFile`. Whether the file can be opened is up to the system, and what goes into it is up to
-- LLVM's `WriteGraph`, which is called with the traits of the nodes.
unfoldable pub write_to_file :
    (can_open : String → Bool) (write_graph : Wrapper → Outcome Stream) (filename : String)
    → Wrapper
    → Outcome Written
write_to_file can_open write_graph filename w =
    let start = text "Writing '" ∷ text filename ∷ text "'..." ∷ [] in
    elim (can_open filename) [
      | true ↦ do
        s ← write_graph w
        ok (record { errs = start ++ text "\n" ∷ []; file = some (filename, s) })
      | false ↦ ok (record {
        errs = start ++ text "  error opening file for writing!" ∷ text "\n" ∷ [];
        file = none;
      })
    ]
