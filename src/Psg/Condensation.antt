-- ===== src/Psg/Condensation.antt =====
-- The pass returns, and its graph is the condensation of the program dependence graph.
use icsa_dswp.Prelude.{
  ◌≡◌, ◌≢◌, ◌↔◌, sym, ap, subst, ◌∙◌, true, false, ◌&&◌, some, [], arith, ◌==◌, ==_iff, contains,
  inl, inr, or_right, or_other,
}
use icsa_dswp.Std.{Ptr, nullptr}
use icsa_dswp.Std.PtrSet.{PtrSet}
use icsa_dswp.Std.PtrMap
use icsa_dswp.Std.PtrMap.{PtrMap}
use icsa_dswp.Outcome.{ok}
use icsa_dswp.Dependence.{DependenceGraph, empty, has_node, has_edge, IsClosed}
use icsa_dswp.Dependence.Laws.{edge_source}
use icsa_dswp.Dependence.Order.{IsOrdered, empty-IsOrdered}
use icsa_dswp.GraphUtils.{root_of, find_scc}
use icsa_dswp.GraphUtils.Kosaraju.{IsComponents, find_scc_lem}
use icsa_dswp.Psg.{Pass, collect, run_on_function}
use icsa_dswp.Psg.Sets.{collect_lem, collect_keys, has_address, Registered, register_lem}
use icsa_dswp.Psg.Links.{scc_of, links, Connected, Known, connect_all_lem}
use icsa_dswp.Psg.Roots.{maps-find, has_root-find, has_address-find, node_at, links_iff}

-- The graph of the components of a program dependence graph, as the pass leaves it.
pub record IsCondensation (address : Ptr → Ptr) (pdg : DependenceGraph) (component : PtrMap Ptr)
    (q : Pass) : Type 0 where
  pub sccs :
      (r n : Ptr)
      → contains (PtrMap.get_or q.sccs r []) n ≡ (has_node pdg n && root_of component n == r)
  pub insts :
      (n : Ptr)
      → has_node pdg n ≡ true
      → PtrMap.find q.inst_to_scc n ≡ some (scc_of address component n)
  pub nodes :
      (s : Ptr)
      → (has_node q.psg s ≡ true)
        ↔ ((n : Ptr) × (has_node pdg n ≡ true) × (scc_of address component n ≡ s))
  pub edges :
      (s t : Ptr)
      → (has_edge q.psg s t ≡ true) ↔ (
          (a b : Ptr) × (has_edge pdg a b ≡ true)
          × (scc_of address component a ≡ s)
          × (scc_of address component b ≡ t)
          × (s ≢ t))
  pub ordered : IsOrdered q.psg

-- The state after `releaseMemory`, which leaves `InstToSCC` as it was.
abbrev pub released : PtrMap Ptr → Pass
released stale = record { sccs = []; psg = empty; inst_to_scc = stale }

module _ (address : Ptr → Ptr) (pdg : DependenceGraph) (ordered : IsOrdered pdg)
    (closed : IsClosed pdg) (proper : has_node pdg nullptr ≡ false) (stale : PtrMap Ptr) where
  abbrev collected : PtrMap Ptr → Pass
  collected component = record (released stale) { sccs = collect component [] }

  condense :
      (m : PtrMap Ptr) (p q : Pass)
      → IsComponents pdg m
      → Registered address m (collected m) p
      → Connected address m p q (links address m pdg (PtrMap.keys pdg.nodes))
      → IsCondensation address pdg m q
  unfolding PtrMap.find
  condense m p q comps reg con = record {
    sccs = λ r n.
        rw (con.sccs ∙ reg.sccs)
          (ground (arith, collect_lem m [] r n, maps-find m n r comps.ascending, comps.keyed n));
    insts =
        λ n node. ap (λ c. PtrMap.find c n) con.insts ∙ ground (arith, reg.insts n, comps.keyed n);
    nodes = λ s. (
      λ h. elim (con.adds.sources s h) [
        | inl old ↦
            let (n, key, at_s) = node_at address m s comps.ascending (sym (reg.nodes s) ∙ old) in
            (n, sym (comps.keyed n) ∙ key, at_s)
        | inr (t, new) ↦
            let (i, j, there, e, l) = (links_iff address m pdg (PtrMap.keys pdg.nodes) s t).0 new in
            (i, edge_source pdg i j e, (==_iff (scc_of address m i) s).0 (ground arith))
      ],
      λ (n, node, at_s). con.adds.kept s (
          reg.nodes s
          ∙ subst (λ x. has_address address m x ≡ true) at_s
              (has_address-find address m n (comps.keyed n ∙ node))),
    );
    edges = λ s t. (
      λ h.
          let (i, j, there, e, l) =
            (links_iff address m pdg (PtrMap.keys pdg.nodes) s t).0
              (or_other (reg.edges s t) (sym (con.adds.edges s t) ∙ h)) in
          (
            i,
            j,
            e,
            (==_iff (scc_of address m i) s).0 (ground arith),
            (==_iff (scc_of address m j) t).0 (ground arith),
            λ same. ground (arith, same),
          ),
      λ (a, b, e, at_s, at_t, differ).
          con.adds.edges s t
          ∙ or_right _ (
              (links_iff address m pdg (PtrMap.keys pdg.nodes) s t).1 (
                a,
                b,
                PtrMap.contains-keys pdg.nodes a ∙ edge_source pdg a b e,
                e,
                ground (arith, at_s, at_t, differ),
              )),
    );
    ordered = con.adds.ordered (reg.ordered empty-IsOrdered);
  }

  known :
      (m : PtrMap Ptr) (p : Pass)
      → IsComponents pdg m
      → Registered address m (collected m) p
      → (n : Ptr) → has_node pdg n ≡ true
      → Known address m p n
  known m p comps reg n node =
      let key = comps.keyed n ∙ node in
      (
        key,
        subst (λ c. PtrMap.has_key c (root_of m n) ≡ true) (sym reg.sccs)
            (collect_keys m [] (root_of m n) ∙ or_right _ (has_root-find m n key)),
      )

  -- On a well-formed program dependence graph, and from a released state, whatever it kept of
  -- earlier functions, the pass returns, and leaves the condensation of the graph: each set holds
  -- the nodes with its root, each node is mapped to the address of the set of its component, the
  -- nodes of the new graph are the addresses of these sets, and its edges are the dependences
  -- between nodes whose sets have different addresses.
  pub psg_lem :
      (component : PtrMap Ptr) × (q : Pass) × (find_scc pdg ≡ ok component)
      × IsComponents pdg component
      × (run_on_function address pdg (released stale) ≡ ok q)
      × IsCondensation address pdg component q
  unfolding run_on_function
  psg_lem =
      let (m, ran, comps) = find_scc_lem pdg ordered closed proper in
      let (p, ran₁, reg) =
        register_lem address m (collected m) comps.ascending
          (λ r h. collect_keys m [] r ∙ or_right (PtrMap.has_key {V = PtrSet} [] r) h) in
      let (q, ran₂, con) =
        connect_all_lem address m pdg (PtrMap.keys pdg.nodes) p closed
          (λ n h. known m p comps reg n h) (λ i h. sym (PtrMap.contains-keys pdg.nodes i) ∙ h) in
      (m, q, ran, comps, rw ran (rw ran₁ ran₂), condense m p q comps reg con)
