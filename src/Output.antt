-- ===== src/Output.antt =====
-- What the passes put into a stream or a file: texts and numbers, in the order of the `<<`. How the
-- stream writes a number is the library's.
use Prim.Native.String.{String}
use icsa_dswp.Prelude.{ℕ, List}

pub data Piece : Type 0 where
  text : String → Piece
  number : ℕ → Piece

abbrev pub Stream : Type 0
Stream = List Piece
