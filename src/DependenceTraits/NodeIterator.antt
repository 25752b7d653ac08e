-- ===== src/DependenceTraits/NodeIterator.antt =====
-- pass/include/DependenceTraits.h: `DepNodeIterator`, which runs through the entries of the
-- wrapper.
use icsa_dswp.Prelude.{Bool, not, Option, none, some}
use icsa_dswp.Std.PtrMap
use icsa_dswp.Std.Cursor
use icsa_dswp.Std.Cursor.{Cursor}
use icsa_dswp.Outcome.{Outcome, ok, err, bad_dereference, ◌>>=◌}
use icsa_dswp.DependenceTraits.{Node, Wrapper}

-- `operator==`
unfoldable pub equals : Cursor → Cursor → Bool
equals x y = Cursor.equal x y

-- `operator!=`
unfoldable pub differs : Cursor → Cursor → Bool
unfolding equals
differs x y = not (equals x y)

-- `operator*`: the pointer of the entry, which may be null
unfoldable pub dereference : Wrapper → Cursor → Outcome (Option Node)
unfolding PtrMap.find
dereference w none = err bad_dereference
dereference w (some k) = elim (PtrMap.find w.nodes k) [ none ↦ err bad_dereference | some n ↦ ok n ]

-- `operator++()`
unfoldable pub pre_increment : Wrapper → Cursor → Outcome Cursor
unfolding Cursor.next
pre_increment w x = Cursor.next (PtrMap.keys w.nodes) x

-- `operator++(int)`: what it returns, and where the iterator stands then
unfoldable pub post_increment : Wrapper → Cursor → Outcome (Cursor × Cursor)
unfolding pre_increment
post_increment w x = do y ← pre_increment w x; ok (x, y)

-- `operator--()`
unfoldable pub pre_decrement : Wrapper → Cursor → Outcome Cursor
unfolding Cursor.previous
pre_decrement w x = Cursor.previous (PtrMap.keys w.nodes) x

-- `operator--(int)`
unfoldable pub post_decrement : Wrapper → Cursor → Outcome (Cursor × Cursor)
unfolding pre_decrement
post_decrement w x = do y ← pre_decrement w x; ok (x, y)
