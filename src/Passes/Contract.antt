-- ===== src/Passes/Contract.antt =====
-- What LLVM promises of a function, and what the analyses promise of their results.
use icsa_dswp.Prelude.{◌≡◌, ◌≢◌, ◌↔◌, Bool, true, false, ◌==◌, contains}
use icsa_dswp.Std.{Ptr, nullptr}
use icsa_dswp.Dependence.{has_node, has_edge}
use icsa_dswp.GraphUtils.Walk.{Reach, Strong}
use icsa_dswp.Ir.{Function, LoopInfo, has_user}
use icsa_dswp.Cdg.{PostDominatorTree}
use icsa_dswp.Cdg.Frontier.{blocks}
use icsa_dswp.Cdg.Control.{IsPostDominatorTree, Controlled}
use icsa_dswp.Mdg.Edges.{defines}
use icsa_dswp.Pdg.Loops.{phi_constant}
use icsa_dswp.Pdg.Edges.{Depends}
use icsa_dswp.Psg.{get_scc}
use icsa_dswp.DecoupleLoops.Homes.{home}
use icsa_dswp.DecoupleLoops.Decoupled.{IsDecoupled}
use icsa_dswp.Passes.{Analyses}

-- What LLVM promises of a function, its post-dominator tree and its loops: they name only
-- instructions and blocks of the function.
pub record IsFunction (f : Function) (pdt : PostDominatorTree) (loops : LoopInfo)
    (is_block is_exit : Ptr → Bool) : Type 0 where
  pub proper : contains f.insts nullptr ≡ false
  pub users :
      (x y : Ptr)
      → contains f.insts x ≡ true
      → has_user (f.users x) y ≡ true
      → contains f.insts y ≡ true
  pub dependencies :
      (x y : Ptr) → contains f.insts y ≡ true → defines f x y ≡ true → contains f.insts x ≡ true
  pub backs : (b : Ptr) → is_block b ≡ true → contains f.insts (f.back b) ≡ true
  pub members :
      (b i : Ptr)
      → is_block b ≡ true
      → contains (f.block_insts b) i ≡ true
      → contains f.insts i ≡ true
  pub constants : (x y : Ptr) → phi_constant f x y ≡ true → contains f.insts x ≡ true
  pub post : IsPostDominatorTree pdt is_exit
  pub tree :
      (b : Ptr) → contains (blocks pdt.root) b ≡ true → b == nullptr ≡ false → is_block b ≡ true
  pub preds :
      (c b : Ptr)
      → contains (blocks pdt.root) c ≡ true
      → contains (pdt.preds c) b ≡ true
      → is_block b ≡ true
  pub in_loops :
      (l b : Ptr)
      → contains loops.loops l ≡ true
      → contains (loops.blocks l) b ≡ true
      → is_block b ≡ true

-- What the analyses have found out about the function.
pub record IsAnalysed (f : Function) (pdt : PostDominatorTree) (is_exit : Ptr → Bool)
    (loops : LoopInfo) (r : Analyses) : Type 0 where
  pub nodes : (n : Ptr) → has_node r.pdg n ≡ contains f.insts n
  pub edges : (x y : Ptr) → (has_edge r.pdg x y ≡ true) ↔ Depends f r.cdg r.mdg r.ddg x y
  pub control :
      (x y : Ptr)
      → x == nullptr ≡ false
      → y == nullptr ≡ false
      → contains (blocks pdt.root) x ≡ true
      → contains (blocks pdt.root) y ≡ true
      → (has_edge r.cdg x y ≡ true) ↔ Controlled pdt is_exit x y
  pub components :
      (a b : Ptr)
      → contains f.insts a ≡ true
      → contains f.insts b ≡ true
      → (get_scc r.psg a ≡ get_scc r.psg b) ↔ Strong r.pdg a b
  pub acyclic :
      (s t : Ptr)
      → has_node r.psg.psg s ≡ true
      → Reach r.psg.psg s t
      → s ≢ t
      → ¬ Reach r.psg.psg t s
  pub decoupled : IsDecoupled r.psg.psg (home f r.psg loops) r.loops
