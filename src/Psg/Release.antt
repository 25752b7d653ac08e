-- ===== src/Psg/Release.antt =====
-- `releaseMemory` and the pointers that survive it.
use icsa_dswp.Prelude.{◌≡◌, refl, false, contains, []}
use icsa_dswp.Std.{Ptr}
use icsa_dswp.Std.PtrMap
use icsa_dswp.Dependence.{has_node}
use icsa_dswp.Psg.{Pass, get_scc, release_memory}

-- After `releaseMemory` no set is left and the graph has no node, but `getSCC` still returns for
-- each instruction the address that it returned before.
release_memory_stale :
    (p : Pass) (n r : Ptr)
    → (get_scc (release_memory p) n ≡ get_scc p n)
      × (contains (PtrMap.get_or (release_memory p).sccs r []) n ≡ false)
      × (has_node (release_memory p).psg r ≡ false)
unfolding release_memory get_scc PtrMap.find
release_memory_stale p n r = (refl, refl, refl)
