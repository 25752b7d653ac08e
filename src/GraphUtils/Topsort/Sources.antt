-- ===== src/GraphUtils/Topsort/Sources.antt =====
-- Where `topsort` starts: the nodes that depend on none.
use icsa_dswp.Prelude.{◌≡◌, refl, true, false, [], ◌∷◌, arith, ==_iff, contains, IsUnique}
use icsa_dswp.Std.{Ptr}
use icsa_dswp.Std.PtrSet
use icsa_dswp.Std.PtrSet.{PtrSet}
use icsa_dswp.Std.PtrMap
use icsa_dswp.Std.PtrMap.{PtrMap}
use icsa_dswp.GraphUtils.{is_empty, sources}

pub sources-has_key :
    (m : PtrMap PtrSet) (k : Ptr) → contains (sources m) k ≡ true → PtrMap.has_key m k ≡ true
unfolding sources PtrMap.find
sources-has_key [] k h = h
sources-has_key ((j, []) ∷ m) k h = ground (arith, sources-has_key m k)
sources-has_key ((j, x ∷ s) ∷ m) k h = ground (arith, sources-has_key m k)

sources-Above : (m : PtrMap PtrSet) (k : Ptr) → PtrMap.Above k m → contains (sources m) k ≡ false
sources-Above m k a = ground (arith, sources-has_key m k, PtrMap.find-Above k m a)

pub sources_lem :
    (m : PtrMap PtrSet) (k : Ptr)
    → PtrMap.IsAscending m
    → PtrMap.has_key m k ≡ true
    → is_empty (PtrMap.get_or m k []) ≡ contains (sources m) k
unfolding sources PtrMap.find
sources_lem [] k a h = cc
sources_lem ((j, []) ∷ m) k a h =
    ground (arith, sources_lem m k a.1, sources-Above m j a.0, ==_iff j k)
sources_lem ((j, x ∷ s) ∷ m) k a h =
    ground (arith, sources_lem m k a.1, sources-Above m j a.0, ==_iff j k)

pub sources-IsUnique : (m : PtrMap PtrSet) → PtrMap.IsAscending m → IsUnique (sources m)
unfolding sources
sources-IsUnique [] a = tt
sources-IsUnique ((j, []) ∷ m) a = (sources-Above m j a.0, sources-IsUnique m a.1)
sources-IsUnique ((j, x ∷ s) ∷ m) a = sources-IsUnique m a.1

pub set-IsUnique : (s : PtrSet) → PtrSet.IsAscending s → IsUnique s
set-IsUnique [] a = tt
set-IsUnique (x ∷ s) a = (above x s a.0, set-IsUnique s a.1)
  where
    above : (x : Ptr) (s : PtrSet) → PtrSet.Above x s → contains s x ≡ false
    above x [] a = refl
    above x (y ∷ s) a = ground (arith, above x s)

pub unfilled : (s : PtrSet) (x : Ptr) → is_empty s ≡ true → contains s x ≡ false
unfilled [] x h = refl
unfilled (y ∷ s) x h = cc
