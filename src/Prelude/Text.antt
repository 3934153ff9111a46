-- ===== src/Prelude/Text.antt =====
-- Texts put together from pieces, as the source's f-strings do.
use Prim.Native.String.{String}
use Prim.Native.String
use mathlib.Core.List.{List, [], ◌∷◌}

abbrev pub fstring : List String → String
fstring [] = ""
fstring (s ∷ []) = s
fstring (s ∷ t ∷ rest) = String.◌++◌ s (fstring (t ∷ rest))
