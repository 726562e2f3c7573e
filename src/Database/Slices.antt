-- ===== src/Database/Slices.antt =====
-- Reading back the text that Postgres gives for an array of plain words.
use Prim.Native.Char.{Char}
use Prim.Native.String.{String, [], ◌∷◌}
use husky_ci.Base.{◌≡◌, ◌≢◌, true, ◌⧺◌}
use mathlib.Core.List.{List, [], ◌∷◌}
use husky_ci.Database.Trims.{all_unquoted}

-- A word that Postgres does not quote: not empty, and of unquoted characters only.
abbrev pub IsPlain : String → Type 0
IsPlain w = (all_unquoted w ≡ true) × (w ≢ "")

joined : String → List String → String
joined w [] = w ⧺ "}"
joined w (v ∷ vs) = (w ⧺ ",") ⧺ joined v vs

-- How Postgres prints an array of such words.
pub array_text : List String → String
unfolding joined
array_text [] = "{}"
array_text (w ∷ ws) = "{" ⧺ joined w ws
