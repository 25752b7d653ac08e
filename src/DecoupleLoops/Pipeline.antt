-- ===== src/DecoupleLoops/Pipeline.antt =====
-- The component graph pass and the loop decoupling pass together, in terms of the program
-- dependence graph.
use icsa_dswp.Prelude.{
  ◌≡◌, ◌↔◌, refl, sym, ap, ◌∙◌, subst, true, false, Option, some, arith, contains,
}
use icsa_dswp.Std.{Ptr, nullptr}
use icsa_dswp.Std.PtrMap
use icsa_dswp.Std.PtrMap.{PtrMap}
use icsa_dswp.Outcome.{Outcome, ok}
use icsa_dswp.Dependence.{DependenceGraph, has_node, has_edge, IsClosed}
use icsa_dswp.Dependence.Laws.{edge_source}
use icsa_dswp.Dependence.Order.{IsOrdered}
use icsa_dswp.GraphUtils.Walk.{Strong}
use icsa_dswp.Ir.{Function, LoopInfo}
use icsa_dswp.Psg
use icsa_dswp.Psg.{get_scc}
use icsa_dswp.Psg.Links.{scc_of}
use icsa_dswp.Psg.Condensation.{IsCondensation, released}
use icsa_dswp.Psg.Acyclic
use icsa_dswp.Psg.Acyclic.{AreDistinct, get_scc_lem}
use icsa_dswp.DecoupleLoops.{Pass, Memory, run_on_function, release_memory, is_work}
use icsa_dswp.DecoupleLoops.Homes.{AreKnown, home}
use icsa_dswp.DecoupleLoops.Decoupled.{AreRead, IsWork, decouple_lem}
use icsa_dswp.DecoupleLoops.Queries.{queries_lem}

-- A dependence of the program that enters the component of `a` from outside, and from a component
-- whose home is the loop.
pub record Feeds (pdg : DependenceGraph) (psgp : Psg.Pass) (home_of : Ptr → Option Ptr) (l a : Ptr)
    : Type 0 where
  pub from : Ptr
  pub to : Ptr
  pub edge : has_edge pdg from to ≡ true
  pub joined : Strong pdg to a
  pub apart : ¬ Strong pdg from a
  pub scc : Ptr
  pub at : get_scc psgp from ≡ ok scc
  pub source_inside : home_of scc ≡ some l

ok_eq : {A : Type 0} {x y : A} → ok x ≡ ok y → x ≡ y
ok_eq e = cc

module _ (address : Ptr → Ptr) (pdg : DependenceGraph) (ordered : IsOrdered pdg)
    (closed : IsClosed pdg) (proper : has_node pdg nullptr ≡ false) (stale : PtrMap Ptr)
    (psgp : Psg.Pass) (distinct : AreDistinct address)
    (ran : Psg.run_on_function address pdg (released stale) ≡ ok psgp) (f : Function)
    (at_f at_psg at_li : Ptr) (loops : LoopInfo)
    (inside : (l b i : Ptr)
      → contains loops.loops l ≡ true
      → contains (loops.blocks l) b ≡ true
      → contains (f.block_insts b) i ≡ true
      → has_node pdg i ≡ true)
    (p : Pass) where
  abbrev component : PtrMap Ptr
  component = Acyclic.component address pdg ordered closed proper stale psgp distinct ran

  condensed : IsCondensation address pdg component psgp
  condensed = Acyclic.condensed address pdg ordered closed proper stale psgp distinct ran

  psg-IsClosed : IsClosed psgp.psg
  psg-IsClosed = Acyclic.psg-IsClosed address pdg ordered closed proper stale psgp distinct ran

  pub insts-AreKnown : AreKnown f psgp loops
  insts-AreKnown l b i hl hb hi = ground (arith, condensed.insts i (inside l b i hl hb hi))

  get_scc_runs :
      (n : Ptr) → has_node pdg n ≡ true → get_scc psgp n ≡ ok (scc_of address component n)
  get_scc_runs = Acyclic.get_scc_runs address pdg ordered closed proper stale psgp distinct ran

  asked :
      (now : Psg.Pass) (n : Ptr)
      → now.inst_to_scc ≡ psgp.inst_to_scc
      → get_scc now n ≡ get_scc psgp n
  unfolding get_scc
  asked now n kept = ap (λ m. PtrMap.at m n) kept

  Strong-iff :
      (a b : Ptr)
      → has_node pdg a ≡ true
      → has_node pdg b ≡ true
      → (get_scc psgp a ≡ get_scc psgp b) ↔ Strong pdg a b
  Strong-iff = get_scc_lem address pdg ordered closed proper stale psgp distinct ran

  module _ (l a : Ptr) (node : has_node pdg a ≡ true) where
    Feeds-of_work :
        IsWork psgp.psg (home f psgp loops) l (scc_of address component a)
        → Feeds pdg psgp (home f psgp loops) l a
    Feeds-of_work w =
        let (x, y, dep, at_t, at_s, differ) =
          (condensed.edges w.source (scc_of address component a)).0 w.edge in
        let x_node = edge_source pdg x y dep in
        record {
          from = x;
          to = y;
          edge = dep;
          joined =
              (Strong-iff y a (closed x y dep) node).0
                (get_scc_runs y (closed x y dep) ∙ ap ok at_s ∙ sym (get_scc_runs a node));
          apart = λ s. differ (
              sym at_t
              ∙ ok_eq (
                  sym (get_scc_runs x x_node)
                  ∙ (Strong-iff x a x_node node).1 s
                  ∙ get_scc_runs a node));
          scc = w.source;
          at = get_scc_runs x x_node ∙ ap ok at_t;
          source_inside = w.source_inside;
        }

    work_of_feeds :
        home f psgp loops (scc_of address component a) ≡ some l
        → Feeds pdg psgp (home f psgp loops) l a
        → IsWork psgp.psg (home f psgp loops) l (scc_of address component a)
    work_of_feeds h d =
        let x_node = edge_source pdg d.from d.to d.edge in
        let y_node = closed d.from d.to d.edge in
        let at_t = ok_eq (sym (get_scc_runs d.from x_node) ∙ d.at) in
        let at_s = ok_eq (
          sym (get_scc_runs d.to y_node)
          ∙ (Strong-iff d.to a y_node node).1 d.joined
          ∙ get_scc_runs a node) in
        record {
          inside = h;
          source = d.scc;
          edge = (condensed.edges d.scc (scc_of address component a)).1 (
            d.from,
            d.to,
            d.edge,
            at_t,
            at_s,
            λ same. d.apart (
                (Strong-iff d.from a x_node node).0
                  (d.at ∙ ap ok same ∙ sym (get_scc_runs a node))),
          );
          source_inside = d.source_inside;
        }

  answer :
      (past_end : Outcome Ptr) (memory : Memory) (d : Pass)
      → (memory.psg_at at_psg).inst_to_scc ≡ psgp.inst_to_scc
      → AreRead past_end psgp.psg (home f psgp loops)
      → run_on_function past_end f at_f at_psg at_li psgp loops (release_memory p) ≡ ok d
      → (l a : Ptr) → has_node pdg a ≡ true
      → home f psgp loops (scc_of address component a) ≡ some l
      → (is_work memory d a l ≡ ok true) ↔ Feeds pdg psgp (home f psgp loops) l a
  answer past_end memory d kept reads ran' l a node there =
      let (w, t, is_w, _, _, _, work) =
        queries_lem past_end f at_f at_psg at_li psgp loops condensed.ordered psg-IsClosed
          insts-AreKnown reads p d ran' memory a (scc_of address component a) l
          (asked (memory.psg_at at_psg) a kept ∙ get_scc_runs a node)
          ((condensed.nodes (scc_of address component a)).1 (a, node, refl)) in
      (
        λ h. Feeds-of_work l a node (work.0 (ok_eq (sym is_w ∙ h))),
        λ d. is_w ∙ ap ok (work.1 (work_of_feeds l a node there d)),
      )

  -- If different sets have different addresses and the instructions of the loops are nodes of a
  -- well-formed program dependence graph, and if the read through the end iterator has some value
  -- or no component is outside the loops, then after the component graph pass the decoupling pass
  -- returns. As long as the component graph pass keeps its `InstToSCC`, `isWork` of an instruction
  -- whose component has the loop as its home is then true
  -- exactly if some dependence enters the component of the instruction from another component with
  -- the same home.
  pub is_work_lem :
      (past_end : Outcome Ptr) (memory : Memory) (l a s : Ptr)
      → (memory.psg_at at_psg).inst_to_scc ≡ psgp.inst_to_scc
      → AreRead past_end psgp.psg (home f psgp loops)
      → has_node pdg a ≡ true
      → get_scc psgp a ≡ ok s
      → home f psgp loops s ≡ some l
      → (d : Pass) × (run_on_function past_end f at_f at_psg at_li psgp loops (release_memory p)
          ≡ ok d)
        × ((is_work memory d a l ≡ ok true) ↔ Feeds pdg psgp (home f psgp loops) l a)
  is_work_lem past_end memory l a s kept reads node at there =
      let (d, ran', _, _, _) =
        decouple_lem past_end f at_f at_psg at_li psgp loops condensed.ordered psg-IsClosed
          insts-AreKnown reads p in
      (
        d,
        ran',
        answer past_end memory d kept reads ran' l a node (
            subst (λ x. home f psgp loops x ≡ some l) (ok_eq (sym at ∙ get_scc_runs a node)) there),
      )
