-- ===== src/Psg/Roots.antt =====
-- The map of components read as roots and links between their addresses.
use icsa_dswp.Prelude.{
  ◌≡◌, ◌↔◌, refl, sym, ap, subst, ◌∙◌, true, false, ◌&&◌, List, [], ◌∷◌, arith, ◌==◌, ==_iff,
  contains, Bool-cases, inl, inr, not_both, or_left, or_right, or_other,
}
use icsa_dswp.Std.{Ptr}
use icsa_dswp.Std.PtrSet.{PtrSet}
use icsa_dswp.Std.PtrMap
use icsa_dswp.Std.PtrMap.{PtrMap}
use icsa_dswp.Dependence.{DependenceGraph, has_edge, dependants}
use icsa_dswp.GraphUtils.{root_of}
use icsa_dswp.Psg.Sets.{maps, has_root, has_address}
use icsa_dswp.Psg.Links.{scc_of, link, links_from, links}

maps-Above : (k : Ptr) (m : PtrMap Ptr) (r : Ptr) → PtrMap.Above k m → maps m k r ≡ false
maps-Above k [] r a = refl
maps-Above k ((i, root) ∷ m) r a = ground (arith, maps-Above k m r)

pub maps-find :
    (m : PtrMap Ptr) (n r : Ptr)
    → PtrMap.IsAscending m
    → maps m n r ≡ (PtrMap.has_key m n && root_of m n == r)
unfolding PtrMap.find
maps-find [] n r a = refl
maps-find ((i, root) ∷ m) n r a =
    ground (arith, maps-find m n r a.1, maps-Above i m r a.0, ==_iff i n)

-- A root belongs to some node, and an address to some root.
pub has_root-find :
    (m : PtrMap Ptr) (n : Ptr) → PtrMap.has_key m n ≡ true → has_root m (root_of m n) ≡ true
unfolding PtrMap.find
has_root-find [] n h = absurd (not_both h refl)
has_root-find ((i, root) ∷ m) n h = ground (arith, has_root-find m n)

root_of_first : (i root : Ptr) (m : PtrMap Ptr) → root_of ((i, root) ∷ m) i ≡ root
unfolding PtrMap.find
root_of_first i root m = ground arith

root_of_later :
    (i root : Ptr) (m : PtrMap Ptr) (n : Ptr)
    → PtrMap.Above i m
    → PtrMap.has_key m n ≡ true
    → root_of ((i, root) ∷ m) n ≡ root_of m n
unfolding PtrMap.find
root_of_later i root m n a key = ground (arith, PtrMap.find-Above i m a, ==_iff i n)

module _ (address : Ptr → Ptr) where
  pub has_address-find :
      (m : PtrMap Ptr) (n : Ptr)
      → PtrMap.has_key m n ≡ true
      → has_address address m (scc_of address m n) ≡ true
  unfolding PtrMap.find
  has_address-find [] n h = absurd (not_both h refl)
  has_address-find ((i, root) ∷ m) n h = elim (Bool-cases (i == n)) [
    | inl same ↦ ground arith
    | inr other ↦ ground (arith, has_address-find m n)
  ]

  pub node_at :
      (m : PtrMap Ptr) (s : Ptr)
      → PtrMap.IsAscending m
      → has_address address m s ≡ true
      → (n : Ptr) × (PtrMap.has_key m n ≡ true) × (scc_of address m n ≡ s)
  unfolding PtrMap.find
  node_at [] s a h = absurd (not_both h refl)
  node_at ((i, root) ∷ m) s a h = elim (Bool-cases (address root == s)) [
    | inl same ↦
        (i, ground arith, ap address (root_of_first i root m) ∙ (==_iff (address root) s).0 same)
    | inr other ↦
        let (n, key, at_s) = node_at m s a.1 (ground arith) in
        (n, ground arith, ap address (root_of_later i root m n a.0 key) ∙ at_s)
  ]

  -- A link is a dependence between two different components.
  links_from_iff :
      (m : PtrMap Ptr) (i : Ptr) (js : PtrSet) (s t : Ptr)
      → (links_from address m i js s t ≡ true)
        ↔ ((j : Ptr) × (contains js j ≡ true) × (link address m i j s t ≡ true))
  links_from_iff m i [] s t = (λ h. absurd (not_both h refl), λ (j, h, k). absurd (not_both h refl))
  links_from_iff m i (j ∷ js) s t = (
    λ h. elim (Bool-cases (link address m i j s t)) [
      | inl now ↦ (j, ground arith, now)
      | inr later ↦
          let (k, there, l) = (links_from_iff m i js s t).0 (or_other later h) in
          (k, ground arith, l)
    ],
    λ (k, there, l). elim (Bool-cases (j == k)) [
      | inl same ↦
          or_left _ (subst (λ x. link address m i x s t ≡ true) (sym ((==_iff j k).0 same)) l)
      | inr other ↦ or_right _ ((links_from_iff m i js s t).1 (k, ground arith, l))
    ],
  )

  pub links_iff :
      (m : PtrMap Ptr) (pdg : DependenceGraph) (is : List Ptr) (s t : Ptr)
      → (links address m pdg is s t ≡ true) ↔ (
          (i j : Ptr) × (contains is i ≡ true)
          × (has_edge pdg i j ≡ true)
          × (link address m i j s t ≡ true))
  links_iff m pdg [] s t =
      (λ h. absurd (not_both h refl), λ (i, j, h, e, l). absurd (not_both h refl))
  links_iff m pdg (i ∷ is) s t = (
    λ h. elim (Bool-cases (links_from address m i (dependants pdg i) s t)) [
      | inl now ↦
          let (j, e, l) = (links_from_iff m i (dependants pdg i) s t).0 now in
          (i, j, ground arith, e, l)
      | inr later ↦
          let (k, j, there, e, l) = (links_iff m pdg is s t).0 (or_other later h) in
          (k, j, ground arith, e, l)
    ],
    λ (k, j, there, e, l). elim (Bool-cases (i == k)) [
      | inl same ↦
          let same' = sym ((==_iff i k).0 same) in
          or_left _ (
            (links_from_iff m i (dependants pdg i) s t).1 (
              j,
              subst (λ x. has_edge pdg x j ≡ true) same' e,
              subst (λ x. link address m x j s t ≡ true) same' l,
            ))
      | inr other ↦ or_right _ ((links_iff m pdg is s t).1 (k, j, ground arith, e, l))
    ],
  )
