-- ===== src/Prelude/Ascii.antt =====
-- The bytes of an ASCII text literal.
use Prim.Native.String.{String, [], ◌∷◌}
use Prim.Native.Char.{code}
use mathlib.Core.List.{[] as nil}
use holdem.Prelude.Text.{Bytes, prepend}

abbrev pub ascii : String → Bytes
ascii [] = nil
ascii (c ∷ s) = prepend (code c) (ascii s)
