-- ===== src/Passes/Whole.antt =====
-- A run of all analyses on one function, from LLVM's function to the work of its loops.
use icsa_dswp.Prelude.{
  ◌≡◌, refl, sym, ◌∙◌, subst, Bool, true, false, inl, inr, Bool-cases, contains, not_both,
}
use icsa_dswp.Std.{Ptr, nullptr}
use icsa_dswp.Outcome.{ok}
use icsa_dswp.Dependence.{DependenceGraph, has_node, has_edge, IsClosed}
use icsa_dswp.Dependence.Order.{IsOrdered}
use icsa_dswp.Ir.{Function, LoopInfo}
use icsa_dswp.Cdg.{PostDominatorTree}
use icsa_dswp.Cdg.Edges
use icsa_dswp.Cdg.Control.{graph_control}
use icsa_dswp.Cdg.Frontier.{blocks, located-outside}
use icsa_dswp.Ddg.Edges.{ddg, ddg_lem}
use icsa_dswp.Mdg.Edges.{mdg, mdg_lem}
use icsa_dswp.Pdg.Edges.{pdg, run-IsOrdered, pdg_lem}
use icsa_dswp.Pdg.Nodes.{AreInside, pdg_nodes}
use icsa_dswp.Psg
use icsa_dswp.Psg.{get_scc}
use icsa_dswp.Psg.Condensation.{psg_lem, released}
use icsa_dswp.Psg.Acyclic.{AreDistinct, psg_acyclic, get_scc_lem, psg-IsClosed}
use icsa_dswp.DecoupleLoops
use icsa_dswp.DecoupleLoops.Homes.{home}
use icsa_dswp.DecoupleLoops.Decoupled.{IsDecoupled, decouple_lem}
use icsa_dswp.DecoupleLoops.Pipeline.{insts-AreKnown}
use icsa_dswp.Passes.{Analyses, release_memory, run}
use icsa_dswp.Passes.Blocks.{located_block}
use icsa_dswp.Passes.Contract.{IsFunction, IsAnalysed}

module _ (address : Ptr → Ptr) (distinct : AreDistinct address) (value : Ptr) (f : Function)
    (at_f at_psg at_li : Ptr) (pdt : PostDominatorTree) (loops : LoopInfo)
    (is_block is_exit : Ptr → Bool) (fun : IsFunction f pdt loops is_block is_exit) where
  abbrev pub cdg : DependenceGraph
  cdg = Edges.graph pdt

  target_block : (x y : Ptr) → has_edge cdg x y ≡ true → is_block y ≡ true
  target_block x y e =
      let (real, l) = Edges.graph_edge pdt fun.post.unique fun.post.rooted x y e in
      elim (Bool-cases (contains (blocks pdt.root) y)) [
        | inl there ↦ fun.tree y there real
        | inr out ↦ absurd (not_both l (located-outside pdt pdt.root y x out))
      ]

  source_block : (x y : Ptr) → has_edge cdg x y ≡ true → is_block x ≡ true
  source_block x y e =
      located_block pdt is_block pdt.root y x fun.preds
        (Edges.graph_edge pdt fun.post.unique fun.post.rooted x y e).1

  insts_ddg : (n : Ptr) → has_node (ddg f) n ≡ contains f.insts n
  insts_ddg = (ddg_lem f fun.users).0

  insts_mdg : (n : Ptr) → has_node (mdg f) n ≡ contains f.insts n
  insts_mdg = (mdg_lem f fun.dependencies).0

  inside : AreInside f cdg (mdg f) (ddg f)
  inside = record {
    ddg_closed = (ddg_lem f fun.users).3;
    mdg_closed = (mdg_lem f fun.dependencies).3;
    same_nodes = λ n. insts_mdg n ∙ sym (insts_ddg n);
    branches = λ x y c.
        insts_ddg x
        ∙ subst (λ i. contains f.insts i ≡ true) c.branch
            (fun.backs c.from (source_block c.from c.to c.edge));
    members = λ x y c. insts_ddg y ∙ fun.members c.to y (target_block c.from c.to c.edge) c.member;
    constants = λ x y p. insts_ddg x ∙ fun.constants x y p;
  }

  abbrev pub whole_pdg : DependenceGraph
  whole_pdg =
      pdg f cdg (mdg f) (ddg f) (Edges.graph-IsOrdered pdt) (mdg_lem f fun.dependencies).2
        (ddg_lem f fun.users).2

  pub has_node-pdg : (n : Ptr) → has_node whole_pdg n ≡ contains f.insts n
  has_node-pdg n =
      (pdg_nodes f cdg (mdg f) (ddg f) (Edges.graph-IsOrdered pdt) (mdg_lem f fun.dependencies).2
          (ddg_lem f fun.users).2 inside).0
        n
      ∙ insts_ddg n

  pub pdg-IsClosed : IsClosed whole_pdg
  pdg-IsClosed =
      (pdg_nodes f cdg (mdg f) (ddg f) (Edges.graph-IsOrdered pdt) (mdg_lem f fun.dependencies).2
        (ddg_lem f fun.users).2 inside).1

  pub pdg-IsOrdered : IsOrdered whole_pdg
  pdg-IsOrdered =
      run-IsOrdered f cdg (mdg f) (ddg f) (Edges.graph-IsOrdered pdt) (mdg_lem f fun.dependencies).2
        (ddg_lem f fun.users).2

  pub pdg_proper : has_node whole_pdg nullptr ≡ false
  pdg_proper = has_node-pdg nullptr ∙ fun.proper

  loops_inside :
      (l b i : Ptr)
      → contains loops.loops l ≡ true
      → contains (loops.blocks l) b ≡ true
      → contains (f.block_insts b) i ≡ true
      → has_node whole_pdg i ≡ true
  loops_inside l b i hl hb hi = has_node-pdg i ∙ fun.members b i (fun.in_loops l b hl hb) hi

  module _ (a : Analyses) where
    analysed :
        (psg : Psg.Pass) (d : DecoupleLoops.Pass)
        → Psg.run_on_function address whole_pdg (released a.psg.inst_to_scc) ≡ ok psg
        → IsDecoupled psg.psg (home f psg loops) d
        → IsAnalysed f pdt is_exit loops
            (record { ddg = ddg f; mdg = mdg f; cdg = cdg; pdg = whole_pdg; psg = psg; loops = d })
    analysed psg d ran done = record {
      nodes = has_node-pdg;
      edges =
          pdg_lem f cdg (mdg f) (ddg f) (Edges.graph-IsOrdered pdt) (mdg_lem f fun.dependencies).2
            (ddg_lem f fun.users).2;
      control = graph_control pdt is_exit fun.post;
      components = λ x y hx hy.
          get_scc_lem address whole_pdg pdg-IsOrdered pdg-IsClosed pdg_proper a.psg.inst_to_scc psg
            distinct ran x y (has_node-pdg x ∙ hx) (has_node-pdg y ∙ hy);
      acyclic =
          psg_acyclic address whole_pdg pdg-IsOrdered pdg-IsClosed pdg_proper a.psg.inst_to_scc psg
            distinct ran;
      decoupled = done;
    }

    -- The states that a run leaves.
    abbrev pub results : Psg.Pass → DecoupleLoops.Pass → Analyses
    results psg d = record {
      ddg = ddg f;
      mdg = mdg f;
      cdg = cdg;
      pdg = whole_pdg;
      psg = psg;
      loops = d;
    }

    pub run_parts :
        (psg : Psg.Pass) × (d : DecoupleLoops.Pass) × (Psg.run_on_function address whole_pdg
            (released a.psg.inst_to_scc)
          ≡ ok psg)
        × IsDecoupled psg.psg (home f psg loops) d
        × (run address (ok value) f at_f at_psg at_li pdt loops (release_memory a)
            ≡ ok (results psg d))
    unfolding run release_memory
    run_parts =
        let (m, psg, _, _, ran, cond) =
          psg_lem address whole_pdg pdg-IsOrdered pdg-IsClosed pdg_proper a.psg.inst_to_scc in
        let closed =
          psg-IsClosed address whole_pdg pdg-IsOrdered pdg-IsClosed pdg_proper a.psg.inst_to_scc psg
            distinct ran in
        let known =
          insts-AreKnown address whole_pdg pdg-IsOrdered pdg-IsClosed pdg_proper a.psg.inst_to_scc
            psg distinct ran f at_f at_psg at_li loops loops_inside a.loops in
        let (d, ran', done, _, _) =
          decouple_lem (ok value) f at_f at_psg at_li psg loops cond.ordered closed known
            (λ s node out. (value, refl)) a.loops in
        (psg, d, ran, done, rw (Edges.run-graph pdt) (rw ran (rw ran')))

    -- On a function of which LLVM's promises hold, with distinct addresses for distinct sets,
    -- whatever the analyses have kept of earlier functions, and whatever value the read through the
    -- end iterator has, a run of all of them after `releaseMemory` returns. The program dependence
    -- graph then has the instructions as nodes and the dependences as edges, the control dependence
    -- graph is that of the paths of the CFG, `getSCC` tells its strongly connected components
    -- apart, their graph has no cycle through two nodes, and the loops' components are split into
    -- work and iterators.
    pub run_lem :
        (r : Analyses) × (run address (ok value) f at_f at_psg at_li pdt loops (release_memory a)
          ≡ ok r)
        × IsAnalysed f pdt is_exit loops r
    run_lem =
        let (psg, d, ran, done, runs) = run_parts in (results psg d, runs, analysed psg d ran done)
