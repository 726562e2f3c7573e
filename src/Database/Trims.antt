-- ===== src/Database/Trims.antt =====
-- What the pattern of `ConvertStringToSlice` and its calls of `Trim` make of plain words.
use Prim.Native.Char.{Char, code}
use Prim.Native.String.{String, [], ◌∷◌}
use husky_ci.Base.{ℕ, ◌≡◌, refl, sym, ap, ◌∙◌, arith, Bool, true, false, not, ◌&&◌, eqb, ◌⧺◌}
use husky_ci.Base.TextLaws.{nil-⧺}
use text.Mathlib.TextLemmas.{cons-append}
use text.Mathlib.Text.{◌==◌}
use mathlib.Core.List.{[], ◌∷◌}
use husky_ci.Database.Arrays.{is_unquoted, trim_left, trim_right, trim, comma, run_match, clean}

-- All characters are unquoted ones.
unfoldable pub all_unquoted : String → Bool
all_unquoted [] = true
all_unquoted (c ∷ s) = is_unquoted c && all_unquoted s

and_parts : (b c : Bool) → (b && c) ≡ true → (b ≡ true) × (c ≡ true)
and_parts true c h = (refl, h)
and_parts false c h = cc

and_false : (b : Bool) → (b && false) ≡ false
and_false true = refl
and_false false = refl

pub unquoted_parts :
    (c : Char) (s : String)
    → all_unquoted (c ∷ s) ≡ true
    → (is_unquoted c ≡ true) × (all_unquoted s ≡ true)
unfolding all_unquoted
unquoted_parts c s h = and_parts (is_unquoted c) (all_unquoted s) h

not-quote : (c : Char) → is_unquoted c ≡ true → eqb (code c) 34 ≡ false
unfolding is_unquoted
not-quote c h = ground arith

not-comma : (c : Char) → is_unquoted c ≡ true → eqb (code c) 44 ≡ false
unfolding is_unquoted
not-comma c h = ground arith

unquoted_end : (d : Char) (s : String) → is_unquoted d ≡ false → run_match (d ∷ s) ≡ comma (d ∷ s)
unfolding run_match
unquoted_end d s e = rw e refl

pub run_match-append :
    (v : String) (d : Char) (s : String)
    → all_unquoted v ≡ true
    → is_unquoted d ≡ false
    → run_match (v ⧺ (d ∷ s)) ≡ v ⧺ comma (d ∷ s)
unfolding run_match
run_match-append [] d s h e = rw (nil-⧺ (d ∷ s)) (rw (nil-⧺ (comma (d ∷ s))) (unquoted_end d s e))
run_match-append (c ∷ v) d s h e =
    let (front, later) = unquoted_parts c v h in
    rw (cons-append c v (d ∷ s)) (
      rw front (
        ap (λ (t : String). c ∷ t) (run_match-append v d s later e)
        ∙ sym (cons-append c v (comma (d ∷ s)))))

-- No character of the text is the cut.
avoids : ℕ → String → Bool
avoids cut [] = true
avoids cut (c ∷ s) = not (eqb (code c) cut) && avoids cut s

negated : (b : Bool) → not b ≡ true → b ≡ false
negated true h = cc
negated false h = refl

avoids_parts :
    (cut : ℕ) (c : Char) (s : String)
    → avoids cut (c ∷ s) ≡ true
    → (eqb (code c) cut ≡ false) × (avoids cut s ≡ true)
unfolding avoids
avoids_parts cut c s h =
    let (front, later) = and_parts (not (eqb (code c) cut)) (avoids cut s) h in
    (negated (eqb (code c) cut) front, later)

-- One step of `trim_right` at a character that is kept.
trim_right-keep :
    (cut : ℕ) (c : Char) (s t : String)
    → eqb (code c) cut ≡ false
    → trim_right cut s ≡ t
    → trim_right cut (c ∷ s) ≡ c ∷ t
unfolding trim_right
trim_right-keep cut c s t kept e = rw kept (rw e (rw (and_false (t == "")) refl))

trim_right-avoids : (cut : ℕ) (s : String) → avoids cut s ≡ true → trim_right cut s ≡ s
unfolding trim_right
trim_right-avoids cut [] h = refl
trim_right-avoids cut (c ∷ s) h =
    let (front, later) = avoids_parts cut c s h in
    trim_right-keep cut c s s front (trim_right-avoids cut s later)

trim_left-avoids : (cut : ℕ) (s : String) → avoids cut s ≡ true → trim_left cut s ≡ s
unfolding trim_left
trim_left-avoids cut [] h = refl
trim_left-avoids cut (c ∷ s) h = rw ((avoids_parts cut c s h).0) refl

trim-avoids : (cut : ℕ) (s : String) → avoids cut s ≡ true → trim cut s ≡ s
unfolding trim
trim-avoids cut s h = rw (trim_left-avoids cut s h) (trim_right-avoids cut s h)

trim_right-comma : (v : String) → avoids 44 v ≡ true → trim_right 44 (v ⧺ ",") ≡ v
unfolding trim_right
trim_right-comma [] h = refl
trim_right-comma (c ∷ v) h =
    let (front, later) = avoids_parts 44 c v h in
    rw (cons-append c v ",") (trim_right-keep 44 c (v ⧺ ",") v front (trim_right-comma v later))

avoids-append :
    (cut : ℕ) (s t : String) → avoids cut s ≡ true → avoids cut t ≡ true → avoids cut (s ⧺ t) ≡ true
unfolding avoids
avoids-append cut [] t h k = rw (nil-⧺ t) k
avoids-append cut (c ∷ s) t h k =
    let (front, later) = avoids_parts cut c s h in
    rw (cons-append c s t) (rw front (avoids-append cut s t later k))

avoids_unquoted :
    (cut : ℕ) (s : String)
    → ((c : Char) → is_unquoted c ≡ true → eqb (code c) cut ≡ false)
    → all_unquoted s ≡ true
    → avoids cut s ≡ true
unfolding avoids
avoids_unquoted cut [] out h = refl
avoids_unquoted cut (c ∷ s) out h =
    let (front, later) = unquoted_parts c s h in rw (out c front) (avoids_unquoted cut s out later)

pub clean_last : (v : String) → all_unquoted v ≡ true → clean v ≡ v
unfolding clean
clean_last v h =
    rw (trim-avoids 34 v (avoids_unquoted 34 v not-quote h))
      (trim-avoids 44 v (avoids_unquoted 44 v not-comma h))

-- A word that the comma does not begin with.
pub clean_comma :
    (c : Char) (v : String) → all_unquoted (c ∷ v) ≡ true → clean ((c ∷ v) ⧺ ",") ≡ (c ∷ v)
unfolding clean trim trim_left avoids
clean_comma c v h =
    let (front, later) = unquoted_parts c v h in
    let no_quote = avoids_unquoted 34 (c ∷ v) not-quote h in
    let no_comma = avoids_unquoted 44 (c ∷ v) not-comma h in
    rw (trim-avoids 34 ((c ∷ v) ⧺ ",") (avoids-append 34 (c ∷ v) "," no_quote refl)) (
      rw (cons-append c v ",") (
        rw (not-comma c front) (
          trim_right-keep 44 c (v ⧺ ",") v (not-comma c front)
            (trim_right-comma v (avoids_parts 44 c v no_comma).1))))
