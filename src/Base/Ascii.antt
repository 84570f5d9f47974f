-- ===== src/Base/Ascii.antt =====
-- The bytes of a text in ASCII.
use Prim.Native.Char.{code}
use Prim.Native.String.{String, [], ◌∷◌}
use Prim.Native.Nat.{ℕ}
use mathlib.Core.List

abbrev pub ascii : String → List.List ℕ
ascii [] = List.[]
ascii (c ∷ text) = List.◌∷◌ (code c) (ascii text)
