-- ===== src/Cdg/Control.antt =====
-- The control dependence graph and the paths of the CFG.
use icsa_dswp.Prelude.{
  ◌≡◌, ◌↔◌, refl, sym, ◌∙◌, subst, Bool, true, false, not, ◌&&◌, inl, inr, [], arith, ◌==◌, ==_iff,
  contains, IsUnique, IsUnique, Bool-cases, not_both,
}
use icsa_dswp.Std.{Ptr, nullptr}
use icsa_dswp.Outcome.{ok}
use icsa_dswp.Dependence.{DependenceGraph, empty, has_edge}
use icsa_dswp.Cdg.{PostDominatorTree, block_of, children_of, run_on_function}
use icsa_dswp.Cdg.Frontier.{blocks, blocks_all, located}
use icsa_dswp.Cdg.Ancestors.{ats, above, strictly_above_lem, above_inside}
use icsa_dswp.Cdg.Entering.{enters, enters_where, enters_by, located_lem}
use icsa_dswp.Cdg.Parents.{AreParents}
use icsa_dswp.Cdg.Homes.{Keeps, tree_homes}
use icsa_dswp.Cdg.Edges.{graph, run-graph, has_edge-graph, root_lem}

-- From a block there is a path of the CFG to an exit of the function that avoids the block `y`.
pub data Escapes (pdt : PostDominatorTree) (is_exit : Ptr → Bool) (y : Ptr) : Ptr → Type 0 where
  at_exit : {x : Ptr} → is_exit x ≡ true → y == x ≡ false → Escapes pdt is_exit y x
  along :
      {x z : Ptr}
      → y == x ≡ false
      → contains (pdt.preds z) x ≡ true
      → Escapes pdt is_exit y z
      → Escapes pdt is_exit y x

-- The block `y` stands on every path from `x` to an exit of the function.
abbrev pub PostDominates : PostDominatorTree → (Ptr → Bool) → Ptr → Ptr → Type 0
PostDominates pdt is_exit y x = ¬ Escapes pdt is_exit y x

-- What LLVM promises of the tree: nodes and blocks stand in it once, only the root may have no
-- block, a node is the parent of its children, the root has no parent, and a block is in the tree
-- of another one exactly if the other one post-dominates it.
pub record IsPostDominatorTree (pdt : PostDominatorTree) (is_exit : Ptr → Bool) : Type 0 where
  pub unique : IsUnique (blocks pdt.root)
  pub rooted : contains (blocks_all (children_of pdt.root)) nullptr ≡ false
  pub nodes_unique : IsUnique (ats pdt.root)
  pub nodes_real : contains (ats pdt.root) nullptr ≡ false
  pub parents : AreParents pdt pdt.root
  pub top : pdt.idom (block_of pdt.root) ≡ nullptr
  pub virtual : pdt.preds nullptr ≡ []
  pub dominance :
      (y z : Ptr)
      → contains (blocks pdt.root) y ≡ true
      → contains (blocks pdt.root) z ≡ true
      → y == nullptr ≡ false
      → z == nullptr ≡ false
      → (above pdt.root y z ≡ true) ↔ PostDominates pdt is_exit y z

-- `y` post-dominates a block that `x` branches to, and does not strictly post-dominate `x`.
abbrev pub Controlled : PostDominatorTree → (Ptr → Bool) → Ptr → Ptr → Type 0
Controlled pdt is_exit x y =
    ((z : Ptr) × (contains (blocks pdt.root) z ≡ true)
      × (contains (pdt.preds z) x ≡ true)
      × PostDominates pdt is_exit y z)
    × (¬ ((y == x ≡ false) × PostDominates pdt is_exit y x))

module _ (pdt : PostDominatorTree) (is_exit : Ptr → Bool) (post : IsPostDominatorTree pdt is_exit)
    (x : Ptr) where
  branches_real : (z : Ptr) → contains (pdt.preds z) x ≡ true → z == nullptr ≡ false
  branches_real z b = elim (Bool-cases (z == nullptr)) [
    | inr real ↦ real
    | inl null ↦ absurd (
        not_both (subst (λ p. contains (pdt.preds p) x ≡ true) ((==_iff z nullptr).0 null) b)
          (subst (λ l. contains l x ≡ false) (sym post.virtual) refl))
  ]

  keeps_lem : x == nullptr ≡ false → contains (blocks pdt.root) x ≡ true → Keeps pdt x
  keeps_lem real inside y z iy ny iz b a apart =
      (post.dominance y z iy iz ny (branches_real z b)).1
        (λ escapes. (post.dominance y x iy inside ny real).0 a (along apart b escapes))

  located_root :
      (y : Ptr)
      → x == nullptr ≡ false
      → contains (blocks pdt.root) x ≡ true
      → located pdt pdt.root y x
        ≡ (enters pdt (blocks pdt.root) x pdt.root y && not (above pdt.root y x && not (y == x)))
  located_root y real inside = ground (
    arith,
    located_lem pdt (blocks pdt.root) x pdt.root y
        (tree_homes pdt x (keeps_lem real inside) post.parents post.unique post.nodes_unique
          post.rooted inside post.top post.nodes_real)
        post.unique (λ z i. i),
    strictly_above_lem pdt.root y x post.unique,
  )

  unstrict :
      (y : Ptr)
      → (above pdt.root y x ≡ true) ↔ PostDominates pdt is_exit y x
      → ¬ ((y == x ≡ false) × PostDominates pdt is_exit y x)
      → above pdt.root y x && not (y == x) ≡ false
  unstrict y dom h = elim (Bool-cases (above pdt.root y x && not (y == x))) [
    | inr weak ↦ weak
    | inl strict ↦ absurd (h (ground (arith, strict), dom.0 (ground (arith, strict))))
  ]

  located_control :
      (y : Ptr)
      → x == nullptr ≡ false
      → y == nullptr ≡ false
      → contains (blocks pdt.root) x ≡ true
      → contains (blocks pdt.root) y ≡ true
      → (located pdt pdt.root y x ≡ true) ↔ Controlled pdt is_exit x y
  located_control y rx ry ix iy =
      let dom = λ (z : Ptr) (i : contains (blocks pdt.root) z ≡ true) (r : z == nullptr ≡ false).
        post.dominance y z iy i ry r in
      let eqn = located_root y rx ix in
      (
        λ l.
            let (z, a, b) =
              enters_where pdt (blocks pdt.root) x pdt.root y (ground (arith, l, eqn)) in
            let i = above_inside pdt.root y z a in
            (
              (z, i, b, (dom z i (branches_real z b)).0 a),
              λ (apart, d). not_both ((dom x ix rx).1 d) (ground (arith, l, eqn, apart)),
            ),
        λ c.
            let (z, i, b, d) = c.0 in
            ground (
              arith,
              eqn,
              enters_by pdt (blocks pdt.root) x pdt.root y z ((dom z i (branches_real z b)).1 d) b,
              unstrict y (dom x ix rx) c.1,
            ),
      )

module _ (pdt : PostDominatorTree) (is_exit : Ptr → Bool)
    (post : IsPostDominatorTree pdt is_exit) where
  pub graph_control :
      (x y : Ptr)
      → x == nullptr ≡ false
      → y == nullptr ≡ false
      → contains (blocks pdt.root) x ≡ true
      → contains (blocks pdt.root) y ≡ true
      → (has_edge (graph pdt) x y ≡ true) ↔ Controlled pdt is_exit x y
  graph_control x y rx ry ix iy =
      let found = has_edge-graph pdt x y ∙ root_lem pdt pdt.root y x post.unique post.rooted ry in
      let (there, back) = located_control pdt is_exit post x y rx ry ix iy in
      (λ e. there (sym found ∙ e), λ c. found ∙ back c)

  -- If the post-dominator tree is as LLVM promises, the pass returns. A block of the tree then
  -- depends on another one in the graph exactly if the other one branches to a block of the tree
  -- from which every path of the CFG to an exit runs through the first one, and not every path from
  -- the other block itself to an exit does, or the two are the same block.
  pub control_lem :
      (x y : Ptr)
      → x == nullptr ≡ false
      → y == nullptr ≡ false
      → contains (blocks pdt.root) x ≡ true
      → contains (blocks pdt.root) y ≡ true
      → (cdg : DependenceGraph) × (run_on_function pdt empty ≡ ok cdg)
        × ((has_edge cdg x y ≡ true) ↔ Controlled pdt is_exit x y)
  control_lem x y rx ry ix iy = (graph pdt, run-graph pdt, graph_control x y rx ry ix iy)
