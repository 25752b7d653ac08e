-- ===== src/Psg/Acyclic.antt =====
-- The component graph has no cycles, and `getSCC` tells components apart.
use icsa_dswp.Prelude.{◌≡◌, ◌≢◌, ◌↔◌, refl, sym, ap, subst, ◌∙◌, true, false, arith}
use icsa_dswp.Std.{Ptr, nullptr}
use icsa_dswp.Std.PtrMap
use icsa_dswp.Std.PtrMap.{PtrMap}
use icsa_dswp.Outcome.{ok}
use icsa_dswp.Dependence.{DependenceGraph, has_node, IsClosed}
use icsa_dswp.Dependence.Laws.{edge_source}
use icsa_dswp.Dependence.Order.{IsOrdered}
use icsa_dswp.GraphUtils.{root_of}
use icsa_dswp.GraphUtils.Walk.{Reach, Strong, here, step, Walk-trans}
use icsa_dswp.GraphUtils.Kosaraju.{IsComponents}
use icsa_dswp.Psg.{Pass, get_scc, run_on_function}
use icsa_dswp.Psg.Links.{scc_of}
use icsa_dswp.Psg.Condensation.{IsCondensation, released, psg_lem}

-- Different entries of a map have different addresses.
abbrev pub AreDistinct : (Ptr → Ptr) → Type 0
AreDistinct address = (r s : Ptr) → address r ≡ address s → r ≡ s

module _ (address : Ptr → Ptr) (distinct : AreDistinct address) (pdg : DependenceGraph)
    (closed : IsClosed pdg) (m : PtrMap Ptr) (q : Pass) (comps : IsComponents pdg m)
    (condensed : IsCondensation address pdg m q) where
  abbrev At : Ptr → Ptr → Type 0
  At s a = (has_node pdg a ≡ true) × (scc_of address m a ≡ s)

  -- Two nodes of one component reach each other.
  Strong-At : (s a b : Ptr) → At s a → At s b → Strong pdg a b
  Strong-At s a b (node_a, at_a) (node_b, at_b) =
      (comps.same a b node_a node_b).0 (distinct (root_of m a) (root_of m b) (at_a ∙ sym at_b))

  lift : (s a : Ptr) → At s a → {t : Ptr} → Reach q.psg s t → (b : Ptr) × At t b × Reach pdg a b
  lift s a at_a (here h) = (a, at_a, here refl)
  lift s a at_a (step {b = t} {c = u} w e h) =
      let (b, at_b, a_b) = lift s a at_a w in
      let (c, d, edge, at_c, at_d, _) = (condensed.edges t u).0 e in
      let (b_c, c_b) = Strong-At t b c at_b (edge_source pdg c d edge, at_c) in
      (d, (closed c d edge, at_d), step (Walk-trans a_b b_c) edge refl)

  pub acyclic : (s t : Ptr) → has_node q.psg s ≡ true → Strong q.psg s t → s ≡ t
  acyclic s t node (s_t, t_s) =
      let (a, node_a, at_a) = (condensed.nodes s).0 node in
      let (b, (node_b, at_b), a_b) = lift s a (node_a, at_a) s_t in
      let (c, at_c, b_c) = lift t b (node_b, at_b) t_s in
      let (c_a, a_c) = Strong-At s c a at_c (node_a, at_a) in
      let same : root_of m a ≡ root_of m b =
        (comps.same a b node_a node_b).1 (a_b, Walk-trans b_c c_a) in
      sym at_a ∙ ap address same ∙ at_b

  pub told_apart :
      (a b : Ptr)
      → has_node pdg a ≡ true
      → has_node pdg b ≡ true
      → (get_scc q a ≡ get_scc q b) ↔ Strong pdg a b
  unfolding get_scc
  told_apart a b node_a node_b = (
    λ e.
        Strong-At (scc_of address m b) a b (node_a, some_eq (sym (got a node_a) ∙ e ∙ got b node_b))
          (node_b, refl),
    λ s.
        got a node_a
        ∙ ap (λ r. ok (address r)) ((comps.same a b node_a node_b).1 s)
        ∙ sym (got b node_b),
  )
    where
      got : (n : Ptr) → has_node pdg n ≡ true → get_scc q n ≡ ok (scc_of address m n)
      got n node = ground (arith, condensed.insts n node)

      some_eq : {x y : Ptr} → ok x ≡ ok y → x ≡ y
      some_eq e = cc

module _ (address : Ptr → Ptr) (pdg : DependenceGraph) (ordered : IsOrdered pdg)
    (closed : IsClosed pdg) (proper : has_node pdg nullptr ≡ false) (stale : PtrMap Ptr) (q : Pass)
    (distinct : AreDistinct address)
    (ran : run_on_function address pdg (released stale) ≡ ok q) where
  pub as-IsCondensation : (m : PtrMap Ptr) × IsComponents pdg m × IsCondensation address pdg m q
  as-IsCondensation =
      let (m, q', _, comps, ran', condensed) = psg_lem address pdg ordered closed proper stale in
      (m, comps, subst (IsCondensation address pdg m) (ok_eq (sym ran' ∙ ran)) condensed)
    where
      ok_eq : {x y : Pass} → ok x ≡ ok y → x ≡ y
      ok_eq e = cc

  -- If different sets have different addresses, the graph that the pass leaves for a well-formed
  -- program dependence graph has no cycle through two nodes: where a node of it reaches a different
  -- node, that one does not reach it back.
  pub psg_acyclic :
      (s t : Ptr) → has_node q.psg s ≡ true → Reach q.psg s t → s ≢ t → ¬ Reach q.psg t s
  psg_acyclic s t node s_t differ t_s =
      let (m, comps, condensed) = as-IsCondensation in
      differ (acyclic address distinct pdg closed m q comps condensed s t node (s_t, t_s))

  -- Under the same conditions `getSCC` returns the same set for two nodes of the program
  -- dependence graph if and only if each of them reaches the other.
  pub get_scc_lem :
      (a b : Ptr)
      → has_node pdg a ≡ true
      → has_node pdg b ≡ true
      → (get_scc q a ≡ get_scc q b) ↔ Strong pdg a b
  get_scc_lem =
      let (m, comps, condensed) = as-IsCondensation in
      told_apart address distinct pdg closed m q comps condensed

  abbrev pub component : PtrMap Ptr
  component = as-IsCondensation.0

  pub condensed : IsCondensation address pdg component q
  condensed = as-IsCondensation.2

  pub psg-IsClosed : IsClosed q.psg
  psg-IsClosed s t e =
      let (a, b, dep, at_s, at_t, differ) = (condensed.edges s t).0 e in
      (condensed.nodes t).1 (b, closed a b dep, at_t)

  pub get_scc_runs :
      (n : Ptr) → has_node pdg n ≡ true → get_scc q n ≡ ok (scc_of address component n)
  unfolding get_scc PtrMap.at
  get_scc_runs n node = ground (arith, condensed.insts n node)
