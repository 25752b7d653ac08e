-- ===== src/DependenceTraits/Wrapped.antt =====
-- What the constructor of the wrapper makes of a graph.
use mathlib.Core.List.{append-nil, append_assoc}
use icsa_dswp.Prelude.{
  ◌<◌, ◌≡◌, refl, sym, ap, ◌∙◌, true, Option, none, some, [], ◌∷◌, ◌++◌, arith, ◌==◌, ==_iff, inl,
  inr, Bool-cases, Option-cases,
}
use icsa_dswp.Std.{Ptr}
use icsa_dswp.Std.PtrSet.{PtrSet}
use icsa_dswp.Std.PtrMap
use icsa_dswp.Std.PtrMap.{PtrMap}
use icsa_dswp.Dependence.{DependenceGraph, has_node}
use icsa_dswp.Dependence.Order.{IsOrdered}
use icsa_dswp.DependenceTraits.{Node, wrap_nodes, wrap}
use icsa_dswp.DependenceTraits.Walk.{HasNode}

abbrev pub node_of : Ptr → PtrSet → Option Node
node_of value s = some (record { value = value; children = s })

abbrev pub wrapped : PtrMap PtrSet → PtrMap (Option Node)
wrapped [] = []
wrapped ((k, s) ∷ m) = (k, node_of k s) ∷ wrapped m

abbrev AllBelow {ℓ} : {V : Type ℓ} → PtrMap V → Ptr → Type 0
AllBelow [] k = Unit
AllBelow ((j, v) ∷ m) k = (j < k) × AllBelow m k

AllBelow-trans {ℓ} : {V : Type ℓ} (m : PtrMap V) (j k : Ptr) → AllBelow m j → j < k → AllBelow m k
AllBelow-trans [] j k b h = tt
AllBelow-trans ((i, v) ∷ m) j k b h = (omega arith, AllBelow-trans m j k b.1 h)

AllBelow-end {ℓ} :
    {V : Type ℓ} (m : PtrMap V) (j : Ptr) (v : V) (k : Ptr)
    → AllBelow m k
    → j < k
    → AllBelow (m ++ (j, v) ∷ []) k
AllBelow-end [] j v k b h = (h, tt)
AllBelow-end ((i, w) ∷ m) j v k b h = (b.0, AllBelow-end m j v k b.1 h)

-- What is assigned above all keys goes to the end.
assign_end {ℓ} :
    {V : Type ℓ} (k : Ptr) (v : V) (m : PtrMap V)
    → AllBelow m k
    → PtrMap.assign k v m ≡ m ++ (k, v) ∷ []
unfolding PtrMap.assign
assign_end k v [] b = refl
assign_end k v ((j, w) ∷ m) b = ground (arith, assign_end k v m, b)

abbrev Fits {ℓ κ} : {V : Type ℓ} {W : Type κ} → PtrMap V → PtrMap W → Type 0
Fits m [] = Unit
Fits m ((k, v) ∷ n) = AllBelow m k

Fits-step {ℓ κ} :
    {V : Type ℓ} {W : Type κ} (m : PtrMap V) (k : Ptr) (v : V) (n : PtrMap W)
    → AllBelow m k
    → PtrMap.Above k n
    → Fits (m ++ (k, v) ∷ []) n
Fits-step m k v [] b a = tt
Fits-step m k v ((j, w) ∷ n) b a = AllBelow-end m k v j (AllBelow-trans m k j b a.0) a.0

wrap_nodes_lem :
    (m : PtrMap PtrSet) (nodes : PtrMap (Option Node))
    → PtrMap.IsAscending m
    → Fits nodes m
    → wrap_nodes m nodes ≡ nodes ++ wrapped m
unfolding wrap_nodes
wrap_nodes_lem [] nodes asc fits = sym (append-nil nodes)
wrap_nodes_lem ((k, s) ∷ m) nodes asc fits =
    ap (wrap_nodes m) (assign_end k (node_of k s) nodes fits)
    ∙ wrap_nodes_lem m (nodes ++ (k, node_of k s) ∷ []) asc.1
        (Fits-step nodes k (node_of k s) m fits asc.0)
    ∙ append_assoc nodes ((k, node_of k s) ∷ []) (wrapped m)

pub keys-wrapped : (m : PtrMap PtrSet) → PtrMap.keys (wrapped m) ≡ PtrMap.keys m
keys-wrapped [] = refl
keys-wrapped ((k, s) ∷ m) = ap (λ ks. k ∷ ks) (keys-wrapped m)

pub find-wrapped :
    (m : PtrMap PtrSet) (k : Ptr) (s : PtrSet)
    → PtrMap.find m k ≡ some s
    → PtrMap.find (wrapped m) k ≡ some (node_of k s)
unfolding PtrMap.find
find-wrapped [] k s h = absurd (ground (arith, h))
find-wrapped ((j, t) ∷ m) k s h = elim (Bool-cases (j == k)) [
  | inl same ↦ rw (sym ((==_iff j k).0 same)) (ground (arith, h, same, ==_iff j j))
  | inr other ↦ ground (arith, h, other, find-wrapped m k s)
]

module _ (g : DependenceGraph) (ordered : IsOrdered g) where
  pub wrap_lem : wrap g ≡ record { nodes = wrapped g.nodes }
  unfolding wrap
  wrap_lem = ap (λ m. record { nodes = m }) (wrap_nodes_lem g.nodes [] ordered.keys (fits g.nodes))
    where
      fits : (m : PtrMap PtrSet) → Fits {V = Option Node} [] m
      fits [] = tt
      fits (_ ∷ m) = tt

  pub wrapped-HasNode :
      (k : Ptr) → has_node g k ≡ true → HasNode (record { nodes = wrapped g.nodes }) k
  unfolding PtrMap.find
  wrapped-HasNode k node = elim (Option-cases (PtrMap.find g.nodes k)) [
    | inl missing ↦ absurd (ground (arith, node, missing))
    | inr (s, found) ↦
        let there = find-wrapped g.nodes k s found in
        (
          record { value = k; children = s },
          PtrMap.touch_there k none (wrapped g.nodes) (ground (arith, there)),
          ground (arith, there),
          refl,
        )
  ]
