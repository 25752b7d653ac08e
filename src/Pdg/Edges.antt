-- ===== src/Pdg/Edges.antt =====
-- The program dependence graph is the union of its sources.
use icsa_dswp.Prelude.{
  ◌≡◌, ◌↔◌, inl, inr, refl, sym, ◌∙◌, Bool, true, ◌&&◌, ◌||◌, [], ◌∷◌, arith, ◌==◌, ==_iff,
  contains, Bool-cases, not_both,
}
use icsa_dswp.Std.{Ptr}
use icsa_dswp.Std.PtrSet.{PtrSet}
use icsa_dswp.Std.PtrMap
use icsa_dswp.Std.PtrMap.{PtrMap}
use icsa_dswp.Dependence.{DependenceGraph, empty, has_node, has_edge}
use icsa_dswp.Dependence.Order.{IsOrdered, empty-IsOrdered}
use icsa_dswp.Ir.{Function}
use icsa_dswp.GraphUtils.Transpose.{edge_in, edge_in-find}
use icsa_dswp.Pdg.{copy_nodes, run_on_function}
use icsa_dswp.Dependence.Adds.{Adds, Adds-trans}
use icsa_dswp.Pdg.Loops.{
  copy_nodes_lem, copy_edges-Adds, add_control-Adds, add_phis-Adds, in_blocks, control_in,
  phi_constant,
}

-- A control dependence between two blocks, from the last instruction of the one to an instruction
-- of the other.
pub record Controls (f : Function) (cdg : DependenceGraph) (x y : Ptr) : Type 0 where
  pub from : Ptr
  pub to : Ptr
  pub edge : has_edge cdg from to ≡ true
  pub branch : f.back from ≡ x
  pub member : contains (f.block_insts to) y ≡ true

in_blocks_iff :
    (f : Function) (s : PtrSet) (y : Ptr)
    → (in_blocks f s y ≡ true)
      ↔ ((b : Ptr) × (contains s b ≡ true) × (contains (f.block_insts b) y ≡ true))
in_blocks_iff f [] y = (λ h. absurd (not_both h refl), λ (b, h, k). absurd (not_both h refl))
in_blocks_iff f (b ∷ bs) y = (
  λ h. elim (Bool-cases (contains (f.block_insts b) y)) [
    | inl now ↦ (b, ground arith, now)
    | inr later ↦ let (c, m, i) = (in_blocks_iff f bs y).0 (ground arith) in (c, ground arith, i)
  ],
  λ (c, m, i). elim (Bool-cases (b == c)) [
    | inl same ↦ ground (arith, ==_iff b c)
    | inr other ↦ ground (arith, (in_blocks_iff f bs y).1 (c, ground arith, i))
  ],
)

-- The same for the entries of a map.
abbrev Entry : Function → PtrMap PtrSet → Ptr → Ptr → Type 0
Entry f m x y =
    (a : Ptr) × (b : Ptr) × (edge_in m a b ≡ true)
    × (f.back a ≡ x)
    × (contains (f.block_insts b) y ≡ true)

control_in→Entry :
    (f : Function) (m : PtrMap PtrSet) (x y : Ptr) → control_in f m x y ≡ true → Entry f m x y
control_in→Entry f [] x y h = absurd (not_both h refl)
control_in→Entry f ((k, s) ∷ m) x y h = elim (Bool-cases (f.back k == x && in_blocks f s y)) [
  | inl now ↦
      let (b, there, i) = (in_blocks_iff f s y).0 (ground arith) in
      (k, b, ground arith, (==_iff (f.back k) x).0 (ground arith), i)
  | inr later ↦
      let (a, b, e, from, i) = control_in→Entry f m x y (ground arith) in
      (a, b, ground arith, from, i)
]

Entry→control_in :
    (f : Function) (m : PtrMap PtrSet) (x y a b : Ptr)
    → edge_in m a b ≡ true
    → f.back a ≡ x
    → contains (f.block_insts b) y ≡ true
    → control_in f m x y ≡ true
Entry→control_in f [] x y a b e from i = absurd (not_both e refl)
Entry→control_in f ((k, s) ∷ m) x y a b e from i = elim (Bool-cases (k == a && contains s b)) [
  | inl now ↦
      let in_s : in_blocks f s y ≡ true = (in_blocks_iff f s y).1 (b, ground arith, i) in
      ground (arith, ==_iff k a)
  | inr later ↦ ground (arith, Entry→control_in f m x y a b)
]

-- Why an instruction depends on another one.
pub data Depends (f : Function) (cdg mdg ddg : DependenceGraph) (x y : Ptr) : Type 0 where
  uses : has_edge ddg x y ≡ true → Depends f cdg mdg ddg x y
  memory : has_edge mdg x y ≡ true → Depends f cdg mdg ddg x y
  control : Controls f cdg x y → Depends f cdg mdg ddg x y
  constant : has_node ddg y ≡ true → phi_constant f x y ≡ true → Depends f cdg mdg ddg x y

module _ (f : Function) (cdg mdg ddg : DependenceGraph) (cdg_ordered : IsOrdered cdg)
    (mdg_ordered : IsOrdered mdg) (ddg_ordered : IsOrdered ddg) where
  abbrev pub pdg : DependenceGraph
  pdg = run_on_function f cdg mdg ddg empty

  abbrev pub new : Ptr → Ptr → Bool
  new x y =
      edge_in ddg.nodes x y
      || edge_in mdg.nodes x y
      || control_in f cdg.nodes x y
      || contains (PtrMap.keys ddg.nodes) y && phi_constant f x y

  abbrev pub nodes_only : DependenceGraph
  nodes_only = copy_nodes ddg.nodes empty

  pub adds : Adds nodes_only pdg new
  unfolding run_on_function
  adds =
      Adds-trans
        (Adds-trans
          (Adds-trans (copy_edges-Adds ddg.nodes nodes_only) (copy_edges-Adds mdg.nodes _)
            (λ x y. refl))
          (add_control-Adds f cdg.nodes _) (λ x y. refl))
        (add_phis-Adds f ddg.nodes _) (λ x y. ground arith)

  pub has_edge-run : (x y : Ptr) → has_edge pdg x y ≡ new x y
  unfolding PtrMap.find
  has_edge-run x y = ground (arith, adds.edges x y, (copy_nodes_lem ddg.nodes empty).1 x y)

  pub run-IsOrdered : IsOrdered pdg
  run-IsOrdered = adds.ordered ((copy_nodes_lem ddg.nodes empty).2 empty-IsOrdered)

  Depends-of_new : (x y : Ptr) → new x y ≡ true → Depends f cdg mdg ddg x y
  Depends-of_new x y h = elim (Bool-cases (edge_in ddg.nodes x y)) [
    | inl d ↦ uses (sym (edge_in-find ddg.nodes x y ddg_ordered.keys) ∙ d)
    | inr not_d ↦ elim (Bool-cases (edge_in mdg.nodes x y)) [
      | inl m ↦ memory (sym (edge_in-find mdg.nodes x y mdg_ordered.keys) ∙ m)
      | inr not_m ↦ elim (Bool-cases (control_in f cdg.nodes x y)) [
        | inl c ↦ control (controls (control_in→Entry f cdg.nodes x y c))
        | inr not_c ↦
            constant (sym (PtrMap.contains-keys ddg.nodes y) ∙ ground arith) (ground arith)
      ]
    ]
  ]
    where
      controls : Entry f cdg.nodes x y → Controls f cdg x y
      controls (a, b, e, from, i) = record {
        from = a;
        to = b;
        edge = sym (edge_in-find cdg.nodes a b cdg_ordered.keys) ∙ e;
        branch = from;
        member = i;
      }

  new_of_Depends : (x y : Ptr) → Depends f cdg mdg ddg x y → new x y ≡ true
  new_of_Depends x y (uses d) = ground (arith, edge_in-find ddg.nodes x y ddg_ordered.keys)
  new_of_Depends x y (memory m) = ground (arith, edge_in-find mdg.nodes x y mdg_ordered.keys)
  new_of_Depends x y (control c) = ground (
    arith,
    Entry→control_in f cdg.nodes x y c.from c.to
        (edge_in-find cdg.nodes c.from c.to cdg_ordered.keys ∙ c.edge) c.branch c.member,
  )
  new_of_Depends x y (constant node p) = ground (arith, PtrMap.contains-keys ddg.nodes y)

  -- An instruction depends on another one in the program dependence graph, built from a released
  -- graph, if and only if it does in the data or in the memory dependence graph, or its block
  -- depends on a block that ends with the other one, or it is a phi node of the data dependence
  -- graph with a constant from a block that ends with the other one.
  pub pdg_lem : (x y : Ptr) → (has_edge pdg x y ≡ true) ↔ Depends f cdg mdg ddg x y
  pdg_lem x y = (
    λ e. Depends-of_new x y (sym (has_edge-run x y) ∙ e),
    λ d. has_edge-run x y ∙ new_of_Depends x y d,
  )
