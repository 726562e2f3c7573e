-- ===== src/Base/Text.antt =====
-- The functions of Go's `strings` and `strconv` that the program uses, over native strings.
use Prim.Native.Nat.{ℕ, zero, suc, ◌-◌, ◌/◌, ◌%◌}
use Prim.Native.Char.{Char, code}
use Prim.Native.String
use Prim.Native.String.{String, [], ◌∷◌, len, slice}
use mathlib.Core.Bool.{Bool, true, ◌||◌, ◌&&◌}
use mathlib.Core.List.{List, [], ◌∷◌}
use text.Mathlib.Text.{starts_with, ◌==◌}
use husky_ci.Base.Int.{ℤ, pos, negsuc}
use husky_ci.Base.Tests.{leb, eqb, if◌then◌else◌}

infixr 66 ◌⧺◌
-- Concatenation of texts.
abbrev pub ◌⧺◌ : String → String → String
s ⧺ t = String.◌++◌ s t

-- strings.HasPrefix
abbrev pub has_prefix : String → String → Bool
has_prefix s t = starts_with s t

-- strings.Contains
unfoldable pub contains : String → String → Bool
contains [] t = has_prefix [] t
contains (c ∷ s) t = has_prefix (c ∷ s) t || contains s t

abbrev singleton : Char → String
singleton c = c ∷ []

-- strings.Split with a separator of one character; `cur` is the piece that is being read.
unfoldable pub split_from : ℕ → String → String → List String
split_from sep cur [] = cur ∷ []
split_from sep cur (c ∷ s) =
    let closed : List String = cur ∷ split_from sep [] s in
    let longer : List String = split_from sep (cur ⧺ singleton c) s in
    if eqb (code c) sep then closed else longer

unfoldable pub split : String → ℕ → List String
unfolding split_from
split s sep = split_from sep [] s

-- strings.Replace(s, old, new, -1) for a text `old` that is not empty; `skip` characters belong to
-- the occurrence that was replaced last.
replace_from : String → String → ℕ → String → String
replace_from old new skip [] = []
replace_from old new (suc skip) (c ∷ s) = replace_from old new skip s
replace_from old new zero (c ∷ s) =
    let replaced = new ⧺ replace_from old new (Prim.Native.String.count old - 1) s in
    let kept : String = c ∷ replace_from old new zero s in
    if has_prefix (c ∷ s) old then replaced else kept

unfoldable pub replace_all : String → String → String → String
unfolding replace_from
replace_all s old new = replace_from old new zero s

-- The lines that a `bufio.Scanner` yields: without the line ends, and without an empty last line.
drop_cr : String → String
drop_cr [] = []
drop_cr (c ∷ []) = if eqb (code c) 13 then [] else c ∷ []
drop_cr (c ∷ d ∷ s) = c ∷ drop_cr (d ∷ s)

-- A scanner stops at a line that does not fit its buffer of 64 KiB.
lines_of : List String → List String
lines_of [] = []
lines_of (l ∷ []) = if l == "" then [] else if leb 65536 (len l) then [] else drop_cr l ∷ []
lines_of (l ∷ m ∷ ls) =
    let rest = lines_of (m ∷ ls) in if leb 65536 (len l) then [] else drop_cr l ∷ rest

unfoldable pub scan_lines : String → List String
unfolding lines_of drop_cr split
scan_lines s = lines_of (split s 10)

in_range : ℕ → ℕ → ℕ → Bool
in_range lo hi n = leb lo n && leb n hi

-- unicode.IsSpace
is_space : Char → Bool
unfolding in_range
is_space c =
    in_range 9 13 (code c)
    || eqb (code c) 32
    || eqb (code c) 0x85
    || eqb (code c) 0xa0
    || eqb (code c) 0x1680
    || in_range 0x2000 0x200a (code c)
    || eqb (code c) 0x2028
    || eqb (code c) 0x2029
    || eqb (code c) 0x202f
    || eqb (code c) 0x205f
    || eqb (code c) 0x3000

all_space : String → Bool
unfolding is_space
all_space [] = true
all_space (c ∷ s) = is_space c && all_space s

-- strings.TrimSpace(s) == ""
unfoldable pub is_blank : String → Bool
unfolding all_space
is_blank s = all_space s

trim_space_left : String → String
unfolding is_space
trim_space_left [] = []
trim_space_left (c ∷ s) = let rest = trim_space_left s in if is_space c then rest else c ∷ s

trim_space_right : String → String
unfolding is_space
trim_space_right [] = []
trim_space_right (c ∷ s) =
    let rest = trim_space_right s in if rest == "" && is_space c then "" else c ∷ rest

-- strings.TrimSpace
unfoldable pub trim_space : String → String
unfolding trim_space_left trim_space_right
trim_space s = trim_space_right (trim_space_left s)

-- strings.TrimPrefix
unfoldable pub trim_prefix : String → String → String
trim_prefix s t = if has_prefix s t then slice s (len t) (len s) else s

digit : ℕ → String
digit n =
    if eqb n 0
    then "0"
    else if eqb n 1
    then "1"
    else if eqb n 2
    then "2"
    else if eqb n 3
    then "3"
    else if eqb n 4
    then "4"
    else if eqb n 5
    then "5"
    else if eqb n 6
    then "6"
    else if eqb n 7
    then "7"
    else if eqb n 8
    then "8"
    else "9"

-- The decimal digits of `n`; a number has at most as many digits as its value plus one.
digits : ℕ → ℕ → String
unfolding digit
digits zero n = digit n
digits (suc fuel) n =
    let more = digits fuel (n / 10) ⧺ digit (n % 10) in if leb n 9 then digit n else more

-- strconv.Itoa
unfoldable pub itoa : ℤ → String
unfolding digits
itoa (pos n) = digits n n
itoa (negsuc n) = "-" ⧺ digits (suc n) (suc n)

-- strings.Split with a separator that is not empty; `skip` characters belong to a separator.
split_text_from : String → String → ℕ → String → List String
split_text_from sep cur skip [] = cur ∷ []
split_text_from sep cur (suc skip) (c ∷ s) = split_text_from sep cur skip s
split_text_from sep cur zero (c ∷ s) =
    let closed : List String = cur ∷ split_text_from sep [] (Prim.Native.String.count sep - 1) s in
    let longer : List String = split_text_from sep (cur ⧺ singleton c) zero s in
    if has_prefix (c ∷ s) sep then closed else longer

unfoldable pub split_text : String → String → List String
unfolding split_text_from
split_text s sep = split_text_from sep [] zero s
