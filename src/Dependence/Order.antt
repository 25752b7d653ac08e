-- ===== src/Dependence/Order.antt =====
-- The containers of a dependence graph stay in ascending order under every operation.
use icsa_dswp.Prelude.{◌≡◌, subst, inl, inr, [], ◌∷◌, arith, Option-cases}
use icsa_dswp.Std.{Ptr}
use icsa_dswp.Std.PtrSet
use icsa_dswp.Std.PtrSet.{PtrSet, insert, erase, insert-IsAscending, erase-IsAscending}
use icsa_dswp.Std.PtrMap
use icsa_dswp.Std.PtrMap.{PtrMap}
use icsa_dswp.Outcome.{ok}
use icsa_dswp.Dependence.{
  DependenceGraph, empty, add_node, add_edge, erase_everywhere, remove_node, remove_edge,
  depends_on, dependants,
}

abbrev pub SetsAscending : PtrMap PtrSet → Type 0
SetsAscending [] = Unit
SetsAscending ((k, s) ∷ m) = PtrSet.IsAscending s × SetsAscending m

-- The well-formedness of the containers, on which the iteration order and the lookups rest.
pub record IsOrdered (g : DependenceGraph) : Type 0 where
  pub keys : PtrMap.IsAscending g.nodes
  pub sets : SetsAscending g.nodes

SetsAscending-assign :
    (k : Ptr) (s : PtrSet) (m : PtrMap PtrSet)
    → PtrSet.IsAscending s
    → SetsAscending m
    → SetsAscending (PtrMap.assign k s m)
unfolding PtrMap.assign
SetsAscending-assign k s [] h hs = (h, tt)
SetsAscending-assign k s ((j, t) ∷ m) h hs = ground (arith, SetsAscending-assign k s m)

pub SetsAscending-get_or :
    (k : Ptr) (m : PtrMap PtrSet) → SetsAscending m → PtrSet.IsAscending (PtrMap.get_or m k [])
unfolding PtrMap.find
SetsAscending-get_or k [] hs = tt
SetsAscending-get_or k ((j, t) ∷ m) hs = ground (arith, SetsAscending-get_or k m)

SetsAscending-erase :
    (k : Ptr) (m : PtrMap PtrSet) → SetsAscending m → SetsAscending (PtrMap.erase k m)
unfolding PtrMap.erase
SetsAscending-erase k [] hs = tt
SetsAscending-erase k ((j, t) ∷ m) hs = ground (arith, SetsAscending-erase k m)

Above-erase_everywhere :
    (j v : Ptr) (m : PtrMap PtrSet) → PtrMap.Above j m → PtrMap.Above j (erase_everywhere v m)
unfolding erase_everywhere
Above-erase_everywhere j v [] a = tt
Above-erase_everywhere j v ((k, s) ∷ m) a = (a.0, Above-erase_everywhere j v m a.1)

IsAscending-erase_everywhere :
    (v : Ptr) (m : PtrMap PtrSet) → PtrMap.IsAscending m → PtrMap.IsAscending (erase_everywhere v m)
unfolding erase_everywhere
IsAscending-erase_everywhere v [] h = tt
IsAscending-erase_everywhere v ((k, s) ∷ m) h =
    (Above-erase_everywhere k v m h.0, IsAscending-erase_everywhere v m h.1)

SetsAscending-erase_everywhere :
    (v : Ptr) (m : PtrMap PtrSet) → SetsAscending m → SetsAscending (erase_everywhere v m)
unfolding erase_everywhere
SetsAscending-erase_everywhere v [] hs = tt
SetsAscending-erase_everywhere v ((k, s) ∷ m) hs =
    (erase-IsAscending v s hs.0, SetsAscending-erase_everywhere v m hs.1)

pub add_node-IsOrdered : (a : Ptr) (g : DependenceGraph) → IsOrdered g → IsOrdered (add_node a g)
unfolding add_node
add_node-IsOrdered a g h = record {
  keys = PtrMap.touch-IsAscending a [] g.nodes h.keys;
  sets = ground (arith, SetsAscending-assign a [] g.nodes);
}

pub add_edge-IsOrdered :
    (a b : Ptr) (g : DependenceGraph) → IsOrdered g → IsOrdered (add_edge a b g)
unfolding add_edge
add_edge-IsOrdered a b g h = record {
  keys = PtrMap.assign-IsAscending a (insert b (dependants g a)) g.nodes h.keys;
  sets =
      SetsAscending-assign a (insert b (dependants g a)) g.nodes
        (insert-IsAscending b (dependants g a) (SetsAscending-get_or a g.nodes h.sets)) h.sets;
}

pub remove_node-IsOrdered :
    (a : Ptr) (g : DependenceGraph) → IsOrdered g → IsOrdered (remove_node a g)
unfolding remove_node
remove_node-IsOrdered a g h = record {
  keys =
      PtrMap.erase-IsAscending a (erase_everywhere a g.nodes)
        (IsAscending-erase_everywhere a g.nodes h.keys);
  sets =
      SetsAscending-erase a (erase_everywhere a g.nodes)
        (SetsAscending-erase_everywhere a g.nodes h.sets);
}

pub remove_edge-IsOrdered :
    (a b : Ptr) (g g' : DependenceGraph) → IsOrdered g → remove_edge a b g ≡ ok g' → IsOrdered g'
unfolding remove_edge
remove_edge-IsOrdered a b g g' h e = elim (Option-cases (PtrMap.find g.nodes a)) [
  | inl missing ↦ ground arith
  | inr (s, found) ↦
      subst IsOrdered
        (let same : record { nodes = PtrMap.assign a (erase b (dependants g a)) g.nodes } ≡ g' =
            ground arith in
          same)
        (record {
          keys = PtrMap.assign-IsAscending a (erase b (dependants g a)) g.nodes h.keys;
          sets =
              SetsAscending-assign a (erase b (dependants g a)) g.nodes
                (erase-IsAscending b (dependants g a) (SetsAscending-get_or a g.nodes h.sets))
                h.sets;
        })
]

pub depends_on-IsOrdered :
    (a b : Ptr) (g : DependenceGraph) → IsOrdered g → IsOrdered (depends_on a b g).0
unfolding depends_on add_node
depends_on-IsOrdered a b g h = add_node-IsOrdered a g h

pub empty-IsOrdered : IsOrdered empty
empty-IsOrdered = record { keys = tt; sets = tt }
