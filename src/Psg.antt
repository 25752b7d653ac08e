-- ===== src/Psg.antt =====
-- pass/src/PSG.cpp and pass/include/PSG.h: the graph of the strongly connected components of the
-- program dependence graph. A component is a set that lives in the map `SCCs` under its root, and
-- it is referred to by its address there. Where the map puts it is up to the allocator, so the
-- address of the entry of a root is a parameter.
pub mod Sets
pub mod Links
pub mod Roots
pub mod Condensation
pub mod Acyclic
pub mod Release
use icsa_dswp.Prelude.{List, [], ◌∷◌, true, false, ◌==◌, if◌then◌else◌}
use icsa_dswp.Std.{Ptr}
use icsa_dswp.Std.PtrSet.{PtrSet, insert}
use icsa_dswp.Std.PtrMap
use icsa_dswp.Std.PtrMap.{PtrMap}
use icsa_dswp.Outcome.{Outcome, ok, ◌>>=◌, for_each}
use icsa_dswp.Dependence.{DependenceGraph, empty, add_node, add_edge, get_dependants, clear}
use icsa_dswp.GraphUtils.{find_scc}

-- the data members of `PDGSCCGraphPass`
pub record Pass : Type 0 where
  pub sccs : PtrMap PtrSet
  pub psg : DependenceGraph
  pub inst_to_scc : PtrMap Ptr

-- `SCCs[pair.second]; SCCs[pair.second].insert(pair.first);` for each pair
unfoldable pub collect : PtrMap Ptr → PtrMap PtrSet → PtrMap PtrSet
unfolding PtrMap.assign PtrMap.find insert
collect [] sccs = sccs
collect ((inst, root) ∷ m) sccs =
    collect m (PtrMap.assign root (insert inst (PtrMap.get_or sccs root [])) sccs)

-- `getSCC`
unfoldable pub get_scc : Pass → Ptr → Outcome Ptr
unfolding PtrMap.at
get_scc p inst = PtrMap.at p.inst_to_scc inst

unfoldable pub release_memory : Pass → Pass
unfolding clear
release_memory p = record p { psg = clear p.psg; sccs = [] }

module _ (address : Ptr → Ptr) where
  -- the second loop: `&SCCs.at(root)` throws if the set is missing
  unfoldable pub register : PtrMap Ptr → Pass → Outcome Pass
  unfolding PtrMap.at PtrMap.assign add_node
  register [] p = ok p
  register ((inst, root) ∷ m) p = do
    set ← PtrMap.at p.sccs root
    register m (record p {
      inst_to_scc = PtrMap.assign inst (address root) p.inst_to_scc;
      psg = add_node (address root) p.psg;
    })

  -- the body of the third loop, for the dependence of `j` on `i`
  unfoldable pub connect : PtrMap Ptr → Ptr → Ptr → Pass → Outcome Pass
  unfolding PtrMap.at PtrMap.touch add_edge
  connect component i j p = do
    root₁ ← PtrMap.at component i
    root₂ ← PtrMap.at component j
    let sccs' = PtrMap.touch root₂ [] (PtrMap.touch root₁ [] p.sccs)
    ok (record p {
      sccs = sccs';
      psg =
          if address root₁ == address root₂
          then p.psg
          else add_edge (address root₁) (address root₂) p.psg;
    })

  unfoldable pub connect_all : DependenceGraph → PtrMap Ptr → List Ptr → Pass → Outcome Pass
  unfolding get_dependants for_each connect
  connect_all pdg component =
      for_each λ i p. do deps ← get_dependants pdg i; for_each (connect component i) deps p

  -- `PDGSCCGraphPass::runOnFunction`
  unfoldable pub run_on_function : DependenceGraph → Pass → Outcome Pass
  unfolding find_scc collect register connect_all
  run_on_function pdg p = do
    component ← find_scc pdg
    p' ← register component (record p { sccs = collect component p.sccs })
    connect_all pdg component (PtrMap.keys pdg.nodes) p'
