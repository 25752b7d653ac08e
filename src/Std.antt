-- ===== src/Std.antt =====
-- `std::set` and `std::map` over pointers, as the repository's sources use them. A pointer is its
-- address, a native number, and `nullptr` is 0. Both containers are kept in ascending order of
-- addresses, which is the order in which their iterators run.
pub mod PtrSet
pub mod PtrMap
pub mod Cursor
use icsa_dswp.Prelude.{ℕ}

abbrev pub Ptr : Type 0
Ptr = ℕ

abbrev pub nullptr : Ptr
nullptr = 0
