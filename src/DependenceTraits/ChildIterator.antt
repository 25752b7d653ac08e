-- ===== src/DependenceTraits/ChildIterator.antt =====
-- pass/include/DependenceTraits.h: `DepNodeChildIterator`, which runs through the set of a node and
-- looks the wrapper of each child up.
use icsa_dswp.Prelude.{Bool, not, Option, none, some}
use icsa_dswp.Std.Cursor
use icsa_dswp.Std.Cursor.{Cursor}
use icsa_dswp.Outcome.{Outcome, ok, err, bad_dereference, ◌>>=◌}
use icsa_dswp.DependenceTraits.{Node, Wrapper, lookup}

-- `operator==`
unfoldable pub equals : Cursor → Cursor → Bool
equals x y = Cursor.equal x y

-- `operator!=`
unfoldable pub differs : Cursor → Cursor → Bool
unfolding equals
differs x y = not (equals x y)

-- `operator*`: `G[*idx]`, which may change the wrapper
unfoldable pub dereference : Wrapper → Cursor → Outcome (Wrapper × Option Node)
unfolding lookup
dereference w none = err bad_dereference
dereference w (some k) = ok (lookup k w)

-- `operator++()`
unfoldable pub pre_increment : Node → Cursor → Outcome Cursor
unfolding Cursor.next
pre_increment n x = Cursor.next n.children x

-- `operator++(int)`: what it returns, and where the iterator stands then
unfoldable pub post_increment : Node → Cursor → Outcome (Cursor × Cursor)
unfolding pre_increment
post_increment n x = do y ← pre_increment n x; ok (x, y)

-- `operator--()`
unfoldable pub pre_decrement : Node → Cursor → Outcome Cursor
unfolding Cursor.previous
pre_decrement n x = Cursor.previous n.children x

-- `operator--(int)`
unfoldable pub post_decrement : Node → Cursor → Outcome (Cursor × Cursor)
unfolding pre_decrement
post_decrement n x = do y ← pre_decrement n x; ok (x, y)
