-- ===== src/DecoupleLoops/Homes.antt =====
-- The first loop of the pass: which loop the map `SccToLoop` names for a component.
use icsa_dswp.Prelude.{
  ◌≡◌, refl, Bool, true, false, ◌||◌, Option, none, some, List, [], ◌∷◌, arith, ◌==◌, if◌then◌else◌,
  contains,
}
use icsa_dswp.Std.{Ptr, nullptr}
use icsa_dswp.Std.PtrMap
use icsa_dswp.Std.PtrMap.{PtrMap, find-assign}
use icsa_dswp.Outcome.{Outcome, ok, for_each}
use icsa_dswp.Ir.{Function, LoopInfo}
use icsa_dswp.Psg
use icsa_dswp.Psg.{get_scc}
use icsa_dswp.DecoupleLoops.{map_insts, map_blocks, map_loops}

module _ (f : Function) (psgp : Psg.Pass) (loops : LoopInfo) where
  abbrev pub known : Ptr → Bool
  known i = PtrMap.has_key psgp.inst_to_scc i

  -- The instruction is in the component.
  abbrev pub belongs : Ptr → Ptr → Bool
  belongs i s = elim (PtrMap.find psgp.inst_to_scc i) [ none ↦ false | some t ↦ t == s ]

  -- Some instruction of the list, of the blocks, is in the component.
  abbrev pub touches : List Ptr → Ptr → Bool
  touches [] s = false
  touches (i ∷ is) s = belongs i s || touches is s

  abbrev pub blocks_touch : List Ptr → Ptr → Bool
  blocks_touch [] s = false
  blocks_touch (b ∷ bs) s = touches (f.block_insts b) s || blocks_touch bs s

  -- The last loop that has an instruction of the component.
  abbrev pub home_among : List Ptr → Ptr → Option Ptr
  home_among [] s = none
  home_among (l ∷ ls) s = elim (home_among ls s) [
    | some k ↦ some k
    | none ↦ if blocks_touch (loops.blocks l) s then some l else none
  ]

  abbrev pub home : Ptr → Option Ptr
  home s = home_among loops.loops s

  abbrev or_else : Option Ptr → Option Ptr → Option Ptr
  or_else a b = elim a [ none ↦ b | some k ↦ some k ]

  -- `getSCC` has an answer for each instruction of each loop.
  abbrev pub AreKnown : Type 0
  AreKnown =
      (l b i : Ptr)
      → contains loops.loops l ≡ true
      → contains (loops.blocks l) b ≡ true
      → contains (f.block_insts b) i ≡ true
      → known i ≡ true

  abbrev scc_at : Ptr → Ptr
  scc_at i = PtrMap.get_or psgp.inst_to_scc i nullptr

  get_scc_runs : (i : Ptr) → known i ≡ true → get_scc psgp i ≡ ok (scc_at i)
  unfolding get_scc
  get_scc_runs i h = PtrMap.at_lem psgp.inst_to_scc i nullptr h

  -- What a part of the first loop does to the map.
  abbrev Sets : Outcome (PtrMap Ptr) → PtrMap Ptr → (Ptr → Option Ptr) → Type 0
  Sets o m new =
      (m' : PtrMap Ptr) × (o ≡ ok m')
      × ((s : Ptr) → PtrMap.find m' s ≡ or_else (new s) (PtrMap.find m s))

  map_insts_lem :
      (l : Ptr) (is : List Ptr) (m : PtrMap Ptr)
      → ((i : Ptr) → contains is i ≡ true → known i ≡ true)
      → Sets (map_insts f psgp loops l is m) m (λ s. if touches is s then some l else none)
  unfolding map_insts for_each
  map_insts_lem l [] m h = (m, refl, λ s. refl)
  map_insts_lem l (i ∷ is) m h =
      let here = h i (ground arith) in
      let (m', ran, found) =
        map_insts_lem l is (PtrMap.assign (scc_at i) l m) (λ j k. h j (ground arith)) in
      (m', rw (get_scc_runs i here) ran, λ s. ground (arith, found s, find-assign (scc_at i) l m s))

  map_blocks_lem :
      (l : Ptr) (bs : List Ptr) (m : PtrMap Ptr)
      → ((b i : Ptr) → contains bs b ≡ true → contains (f.block_insts b) i ≡ true → known i ≡ true)
      → Sets (map_blocks f psgp loops l bs m) m (λ s. if blocks_touch bs s then some l else none)
  unfolding map_blocks for_each
  map_blocks_lem l [] m h = (m, refl, λ s. refl)
  map_blocks_lem l (b ∷ bs) m h =
      let (m₁, ran₁, found₁) =
        map_insts_lem l (f.block_insts b) m (λ i k. h b i (ground arith) k) in
      let (m₂, ran₂, found₂) = map_blocks_lem l bs m₁ (λ c i j k. h c i (ground arith) k) in
      (m₂, rw ran₁ ran₂, λ s. ground (arith, found₁ s, found₂ s))

  map_loops_lem :
      (ls : List Ptr) (m : PtrMap Ptr)
      → ((l b i : Ptr)
          → contains ls l ≡ true
          → contains (loops.blocks l) b ≡ true
          → contains (f.block_insts b) i ≡ true
          → known i ≡ true)
      → Sets (map_loops f psgp loops ls m) m (home_among ls)
  unfolding map_loops for_each
  map_loops_lem [] m h = (m, refl, λ s. refl)
  map_loops_lem (l ∷ ls) m h =
      let (m₁, ran₁, found₁) =
        map_blocks_lem l (loops.blocks l) m (λ b i. h l b i (ground arith)) in
      let (m₂, ran₂, found₂) = map_loops_lem ls m₁ (λ k b i j. h k b i (ground arith)) in
      (m₂, rw ran₁ ran₂, λ s. ground (arith, found₁ s, found₂ s))

  -- The map names the home of each component.
  pub homes_lem :
      AreKnown
      → (m : PtrMap Ptr) × (map_loops f psgp loops loops.loops [] ≡ ok m)
        × ((s : Ptr) → PtrMap.find m s ≡ home s)
  unfolding PtrMap.find
  homes_lem h =
      let (m, ran, found) = map_loops_lem loops.loops [] h in (m, ran, λ s. ground (arith, found s))
