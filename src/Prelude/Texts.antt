-- ===== src/Prelude/Texts.antt =====
-- Texts put together.
use Prim.Native.String.{String, ◌++◌}
use mathlib.Core.List.{List, [], ◌∷◌}

-- The texts of a list, one after the other.
abbrev pub concat : List String → String
concat [] = ""
concat (s ∷ ss) = s ++ concat ss

-- strings.Join
unfoldable pub join : String → List String → String
join sep [] = ""
join sep (s ∷ []) = s
join sep (s ∷ t ∷ ss) = concat (s ∷ sep ∷ join sep (t ∷ ss) ∷ [])
