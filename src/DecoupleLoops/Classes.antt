-- ===== src/DecoupleLoops/Classes.antt =====
-- The second loop of the pass: which components become work and which iterators.
use icsa_dswp.Prelude.{
  ◌≡◌, refl, ◌∙◌, Bool, true, false, not, ◌&&◌, ◌||◌, none, some, inl, inr, List, [], ◌∷◌, arith,
  ◌==◌, ==_iff, if◌then◌else◌, Bool-cases, Option-cases, contains, IsUnique, ap, not_both,
}
use icsa_dswp.Std.{Ptr}
use icsa_dswp.Std.PtrSet.{PtrSet, insert, contains-insert}
use icsa_dswp.Std.PtrMap
use icsa_dswp.Std.PtrMap.{PtrMap, find-assign, find-touch}
use icsa_dswp.Outcome.{Error, Outcome, ok, err, for_each}
use icsa_dswp.Dependence.{DependenceGraph, has_node, dependants}
use icsa_dswp.Dependence.Laws.{get_dependants_lem}
use icsa_dswp.DecoupleLoops.{Pass, find_work, classify}

-- The component is filed under the loop, as work or as an iterator.
abbrev pub files : PtrMap PtrSet → Ptr → Ptr → Bool
files m l s = contains (PtrMap.get_or m l []) s

pub keys-IsUnique {ℓ} :
    {V : Type ℓ} (m : PtrMap V) → PtrMap.IsAscending m → IsUnique (PtrMap.keys m)
keys-IsUnique [] a = tt
keys-IsUnique ((k, v) ∷ m) a =
    (PtrMap.contains-keys m k ∙ ground (arith, PtrMap.find-Above k m a.0), keys-IsUnique m a.1)

files-insert :
    (l s : Ptr) (m : PtrMap PtrSet) (k x : Ptr)
    → files (PtrMap.assign l (insert s (PtrMap.get_or m l [])) m) k x
      ≡ (l == k && s == x || files m k x)
files-insert l s m k x = ground (
  arith,
  find-assign l (insert s (PtrMap.get_or m l [])) m k,
  contains-insert s (PtrMap.get_or m l []) x,
)

files-touch :
    (l : Ptr) (m : PtrMap PtrSet) (k x : Ptr) → files (PtrMap.touch l [] m) k x ≡ files m k x
files-touch l m k x = ground (arith, find-touch l [] m k)

module _ (homes : PtrMap Ptr) where
  abbrev pub at_home : Ptr → Ptr → Bool
  at_home l s = elim (PtrMap.find homes s) [ none ↦ false | some k ↦ l == k ]

  -- Some component of the list is in the loop.
  abbrev pub any_at_home : Ptr → PtrSet → Bool
  any_at_home l [] = false
  any_at_home l (s ∷ ss) = at_home l s || any_at_home l ss

  find_work_lem :
      (s l : Ptr) (ss : PtrSet) (w : PtrMap PtrSet) (k x : Ptr)
      → files (find_work homes s l ss w) k x ≡ (l == k && s == x && any_at_home l ss || files w k x)
  unfolding find_work
  find_work_lem s l [] w k x = ground arith
  find_work_lem s l (t ∷ ss) w k x =
      ground (arith, find_work_lem s l ss w k x, files-insert l s w k x)

  module _ (tpsg : DependenceGraph) where
    abbrev pub is_worker : Ptr → Ptr → Bool
    is_worker l s = at_home l s && any_at_home l (dependants tpsg s)

    abbrev pub is_iterator : Ptr → Ptr → Bool
    is_iterator l s = at_home l s && not (any_at_home l (dependants tpsg s))

    -- What the loop did for the components of a list.
    pub record Classified (p q : Pass) (ss : List Ptr) : Type 0 where
      pub work :
          (l s : Ptr)
          → files q.loop_to_work_scc l s
            ≡ (contains ss s && is_worker l s || files p.loop_to_work_scc l s)
      pub iter :
          (l s : Ptr)
          → files q.loop_to_iter_scc l s
            ≡ (contains ss s && is_iterator l s || files p.loop_to_iter_scc l s)
      pub same_psg : q.psgp ≡ p.psgp
      pub same_li : q.li ≡ p.li

    -- The map of the work after the inner loop for the component `s` of the loop `l`.
    abbrev worked : Ptr → Ptr → Pass → PtrMap PtrSet
    worked s l p = PtrMap.touch l [] (find_work homes s l (dependants tpsg s) p.loop_to_work_scc)

    files-worked :
        (s l : Ptr) (p : Pass) (k x : Ptr)
        → files (worked s l p) k x
          ≡ (l == k && s == x && any_at_home l (dependants tpsg s) || files p.loop_to_work_scc k x)
    files-worked s l p k x =
        files-touch l (find_work homes s l (dependants tpsg s) p.loop_to_work_scc) k x
        ∙ find_work_lem s l (dependants tpsg s) p.loop_to_work_scc k x

    abbrev iterated : Ptr → Ptr → Pass → PtrMap PtrSet
    iterated s l p =
        if files (worked s l p) l s
        then p.loop_to_iter_scc
        else PtrMap.assign l (insert s (PtrMap.get_or p.loop_to_iter_scc l [])) p.loop_to_iter_scc

    files-iterated :
        (s l : Ptr) (p : Pass) (k x : Ptr)
        → files p.loop_to_work_scc l s ≡ false
        → files (iterated s l p) k x ≡ (
            l == k && s == x && not (any_at_home l (dependants tpsg s))
            || files p.loop_to_iter_scc k x)
    files-iterated s l p k x fresh = elim (Bool-cases (files (worked s l p) l s)) [
      | inl new ↦ rw new (ground (arith, files-worked s l p l s))
      | inr old ↦
          rw old (ground (arith, files-worked s l p l s, files-insert l s p.loop_to_iter_scc k x))
    ]

    -- If the component is in no loop, the read through the end iterator has some value.
    abbrev pub Reads : Outcome Ptr → Ptr → Type 0
    Reads past_end s = PtrMap.find homes s ≡ none → (v : Ptr) × (past_end ≡ ok v)

    pub classify_lem :
        (past_end : Outcome Ptr) (s : Ptr) (p : Pass)
        → has_node tpsg s ≡ true
        → Reads past_end s
        → ((l : Ptr) → files p.loop_to_work_scc l s ≡ false)
        → (q : Pass) × (classify past_end homes tpsg s p ≡ ok q) × Classified p q (s ∷ [])
    unfolding classify
    classify_lem past_end s p node reads fresh = elim (Option-cases (PtrMap.find homes s)) [
      | inl outside ↦ (
        p,
        rw (outside, classify) (rw ((reads outside).1)),
        record {
          work = λ l x. ground (arith, outside);
          iter = λ l x. ground (arith, outside);
          same_psg = refl;
          same_li = refl;
        },
      )
      | inr (l, inside) ↦ (
        record p { loop_to_work_scc = worked s l p; loop_to_iter_scc = iterated s l p },
        rw (inside, classify) (rw (get_dependants_lem tpsg s node)),
        record {
          work = λ k x. ground (arith, inside, files-worked s l p k x);
          iter = λ k x. ground (arith, inside, files-iterated s l p k x (fresh l));
          same_psg = refl;
          same_li = refl;
        },
      )
    ]

    Classified-seq :
        {p p₁ q : Pass} (s : Ptr) (ss : List Ptr)
        → Classified p p₁ (s ∷ [])
        → Classified p₁ q ss
        → Classified p q (s ∷ ss)
    Classified-seq s ss first second = record {
      work = λ l t. ground (arith, first.work l t, second.work l t);
      iter = λ l t. ground (arith, first.iter l t, second.iter l t);
      same_psg = second.same_psg ∙ first.same_psg;
      same_li = second.same_li ∙ first.same_li;
    }

    -- The loop over a list of components without repetitions.
    pub classify_all_lem :
        (past_end : Outcome Ptr) (ss : List Ptr) (p : Pass)
        → IsUnique ss
        → ((s : Ptr) → contains ss s ≡ true → has_node tpsg s ≡ true)
        → ((s : Ptr) → contains ss s ≡ true → Reads past_end s)
        → ((l s : Ptr) → contains ss s ≡ true → files p.loop_to_work_scc l s ≡ false)
        → (q : Pass) × (for_each (classify past_end homes tpsg) ss p ≡ ok q) × Classified p q ss
    unfolding for_each
    classify_all_lem past_end [] p unique nodes reads fresh = (
      p,
      refl,
      record { work = λ l s. refl; iter = λ l s. refl; same_psg = refl; same_li = refl },
    )
    classify_all_lem past_end (s ∷ ss) p unique nodes reads fresh =
        let (p₁, ran₁, first) =
          classify_lem past_end s p (nodes s (ground arith)) (reads s (ground arith))
            (λ l. fresh l s (ground arith)) in
        let (q, ran₂, second) =
          classify_all_lem past_end ss p₁ unique.1 (λ t h. nodes t (ground arith))
            (λ t h. reads t (ground arith))
            (λ l t h. ground (arith, first.work l t, fresh l t, ==_iff s t, unique.0)) in
        (q, rw ran₁ ran₂, Classified-seq s ss first second)

    -- Where the read through the end iterator fails, the loop fails at the first component outside.
    pub classify_fails :
        (e : Error) (ss : List Ptr) (p : Pass) (s : Ptr)
        → contains ss s ≡ true
        → PtrMap.find homes s ≡ none
        → ((t : Ptr) → contains ss t ≡ true → has_node tpsg t ≡ true)
        → for_each (classify (err e) homes tpsg) ss p ≡ err e
    unfolding for_each classify
    classify_fails e [] p s i out nodes = absurd (not_both i refl)
    classify_fails e (t ∷ ss) p s i out nodes = elim (Option-cases (PtrMap.find homes t)) [
      | inl outside ↦ rw (outside, classify) refl
      | inr (l, inside) ↦
          rw (inside, classify)
            (rw (get_dependants_lem tpsg t (nodes t (ground (arith, ==_iff t t))))
              (classify_fails e ss _ s (other l inside) out (λ u h. nodes u (ground (arith, h)))))
    ]
      where
        found_same : t ≡ s → PtrMap.find homes t ≡ PtrMap.find homes s
        found_same e = ap (PtrMap.find homes) e

        other : (l : Ptr) → PtrMap.find homes t ≡ some l → contains ss s ≡ true
        other l inside = ground (arith, i, out, inside, ==_iff t s, found_same)
