-- ===== src/Psg/Sets.antt =====
-- What the first two loops of the component graph pass do: the sets, and the registered nodes.
use icsa_dswp.Prelude.{
  ◌≡◌, refl, ◌∙◌, Bool, true, false, ◌&&◌, ◌||◌, none, some, [], ◌∷◌, arith, ◌==◌, ==_iff, contains,
}
use icsa_dswp.Std.{Ptr}
use icsa_dswp.Std.PtrSet.{PtrSet, insert, contains-insert}
use icsa_dswp.Std.PtrMap
use icsa_dswp.Std.PtrMap.{PtrMap}
use icsa_dswp.Outcome.{ok}
use icsa_dswp.Dependence.{add_node, has_node, has_edge}
use icsa_dswp.Dependence.Laws.{has_node-add_node, has_edge-add_node}
use icsa_dswp.Dependence.Order.{IsOrdered, add_node-IsOrdered}
use icsa_dswp.Psg.{Pass, collect, register}

-- Some entry maps the instruction to the root.
abbrev pub maps : PtrMap Ptr → Ptr → Ptr → Bool
maps [] n r = false
maps ((i, root) ∷ m) n r = i == n && root == r || maps m n r

pub collect_lem :
    (m : PtrMap Ptr) (sccs : PtrMap PtrSet) (r n : Ptr)
    → contains (PtrMap.get_or (collect m sccs) r []) n
      ≡ (contains (PtrMap.get_or sccs r []) n || maps m n r)
unfolding collect
collect_lem [] sccs r n = ground arith
collect_lem ((i, root) ∷ m) sccs r n =
    let set = insert i (PtrMap.get_or sccs root []) in
    ground (
      arith,
      collect_lem m (PtrMap.assign root set sccs) r n,
      PtrMap.find-assign root set sccs r,
      contains-insert i (PtrMap.get_or sccs root []) n,
      ==_iff root r,
    )

-- Some entry has the root.
abbrev pub has_root : PtrMap Ptr → Ptr → Bool
has_root [] r = false
has_root ((i, root) ∷ m) r = root == r || has_root m r

pub collect_keys :
    (m : PtrMap Ptr) (sccs : PtrMap PtrSet) (r : Ptr)
    → PtrMap.has_key (collect m sccs) r ≡ (PtrMap.has_key sccs r || has_root m r)
unfolding collect
collect_keys [] sccs r = ground arith
collect_keys ((i, root) ∷ m) sccs r =
    let set = insert i (PtrMap.get_or sccs root []) in
    ground
      (arith, collect_keys m (PtrMap.assign root set sccs) r, PtrMap.find-assign root set sccs r)

module _ (address : Ptr → Ptr) where
  abbrev pub has_address : PtrMap Ptr → Ptr → Bool
  has_address [] s = false
  has_address ((i, root) ∷ m) s = address root == s || has_address m s

  -- What the second loop did to the pass.
  pub record Registered (m : PtrMap Ptr) (p q : Pass) : Type 0 where
    pub sccs : q.sccs ≡ p.sccs
    pub nodes : (s : Ptr) → has_node q.psg s ≡ (has_node p.psg s || has_address m s)
    pub edges : (s t : Ptr) → has_edge q.psg s t ≡ has_edge p.psg s t
    pub ordered : IsOrdered p.psg → IsOrdered q.psg
    pub insts :
        (n : Ptr)
        → PtrMap.find q.inst_to_scc n ≡ elim (PtrMap.find m n) [
          | none ↦ PtrMap.find p.inst_to_scc n
          | some r ↦ some (address r)
        ]

  pub register_lem :
      (m : PtrMap Ptr) (p : Pass)
      → PtrMap.IsAscending m
      → ((r : Ptr) → has_root m r ≡ true → PtrMap.has_key p.sccs r ≡ true)
      → (q : Pass) × (register address m p ≡ ok q) × Registered m p q
  unfolding register
  register_lem [] p asc there = (
    p,
    refl,
    record {
      sccs = refl;
      nodes = λ s. ground arith;
      edges = λ s t. refl;
      ordered = λ o. o;
      insts = λ n. refl;
    },
  )
  register_lem ((i, root) ∷ m) p asc there =
      let p' : Pass = record p {
        inst_to_scc = PtrMap.assign i (address root) p.inst_to_scc;
        psg = add_node (address root) p.psg;
      } in
      let (q, ran, done) = register_lem m p' asc.1 (λ r h. there r (ground arith)) in
      (
        q,
        rw (PtrMap.at_lem p.sccs root [] (there root (ground arith))) ran,
        record {
          sccs = done.sccs;
          nodes = λ s. ground (arith, done.nodes s, has_node-add_node (address root) p.psg s);
          edges = λ s t. done.edges s t ∙ has_edge-add_node (address root) p.psg s t;
          ordered = λ o. done.ordered (add_node-IsOrdered (address root) p.psg o);
          insts = λ n. ground (
            arith,
            done.insts n,
            PtrMap.find-assign i (address root) p.inst_to_scc n,
            PtrMap.find-Above i m asc.0,
            ==_iff i n,
          );
        },
      )
