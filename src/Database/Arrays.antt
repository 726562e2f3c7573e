-- ===== src/Database/Arrays.antt =====
-- `ConvertStringToSlice` of api/db/psqlretriever.go: the text of a Postgres array as a slice. Its
-- regular expression matches, from left to right, either a run of characters that are none of
-- `"`, `,`, `\`, `{`, `}`, white space, `(`, `)`, `N`, `U` and `L`, or a quoted text, and in either case
-- a comma that follows.
use Prim.Native.Char.{Char, code}
use Prim.Native.String.{String, [], ◌∷◌, count}
use husky_ci.Base.{
  ℕ, zero, suc, ◌-◌, Bool, true, false, not, ◌&&◌, ◌||◌, Option, none, some, if◌then◌else◌, eqb,
}
use mathlib.Core.List.{List, [], ◌∷◌}
use text.Mathlib.Text.{◌==◌}

abbrev is_one_of : ℕ → List ℕ → Bool
is_one_of n [] = false
is_one_of n (m ∷ ms) = eqb n m || is_one_of n ms

-- `\s` of Go's regexp: tab, newline, form feed, carriage return and space.
abbrev reserved : List ℕ
reserved = 34 ∷ 44 ∷ 92 ∷ 123 ∷ 125 ∷ 9 ∷ 10 ∷ 12 ∷ 13 ∷ 32 ∷ 40 ∷ 78 ∷ 85 ∷ 76 ∷ 41 ∷ []

-- `[^",\\{}\s(NULL)]`
unfoldable pub is_unquoted : Char → Bool
is_unquoted c = not (is_one_of (code c) reserved)

-- `strings.Trim(s, cut)` for a cut of one character.
unfoldable pub trim_left : ℕ → String → String
trim_left cut [] = []
trim_left cut (c ∷ s) = let rest = trim_left cut s in if eqb (code c) cut then rest else c ∷ s

unfoldable pub trim_right : ℕ → String → String
trim_right cut [] = []
trim_right cut (c ∷ s) =
    let rest = trim_right cut s in if rest == "" && eqb (code c) cut then "" else c ∷ rest

unfoldable pub trim : ℕ → String → String
unfolding trim_left trim_right
trim cut s = trim_right cut (trim_left cut s)

-- A comma that stands first is part of the match.
abbrev pub comma : String → String
comma [] = ""
comma (c ∷ s) = if eqb (code c) 44 then "," else ""

unfoldable pub run_match : String → String
run_match [] = []
run_match (c ∷ s) =
    let longer : String = c ∷ run_match s in if is_unquoted c then longer else comma (c ∷ s)

abbrev prepend : Char → Option String → Option String
prepend c none = none
prepend c (some m) = some (c ∷ m)

-- The match after an opening quote; `escaped` says that a backslash stands before.
unfoldable pub quoted_match : Bool → String → Option String
quoted_match escaped [] = none
quoted_match true (c ∷ s) =
    let longer = prepend c (quoted_match false s) in
    if eqb (code c) 34 || eqb (code c) 92 then longer else none
quoted_match false (c ∷ s) =
    let after = prepend c (quoted_match true s) in
    let longer = prepend c (quoted_match false s) in
    if eqb (code c) 34 then some (c ∷ comma s) else if eqb (code c) 92 then after else longer

-- The match that begins here.
unfoldable pub match_at : Char → String → Option String
unfolding run_match quoted_match
match_at c s =
    if is_unquoted c
    then some (c ∷ run_match s)
    else if eqb (code c) 34
    then prepend c (quoted_match false s)
    else none

-- 34 is the quote and 44 the comma.
unfoldable pub clean : String → String
unfolding trim
clean m = trim 44 (trim 34 m)

-- `skip` characters belong to the last match.
unfoldable pub slices : ℕ → String → List String
slices skip [] = []
slices (suc skip) (c ∷ s) = slices skip s
slices zero (c ∷ s) = elim (match_at c s) [
  | none ↦ slices zero s
  | some m ↦ clean m ∷ slices (count m - 1) s
]

-- `ConvertStringToSlice`
unfoldable pub convert_string_to_slice : String → List String
unfolding slices match_at clean
convert_string_to_slice s = slices zero s
