-- ===== src/Base/TextLaws.antt =====
-- How `contains` and `has_prefix` go with concatenation.
use Prim.Native.String.{String, [], ◌∷◌}
use mathlib.Core.Path.{◌≡◌, ◌∙◌, refl, ap, sym, subst}
use mathlib.Core.Bool.{Bool, true, false, ◌||◌}
use text.Mathlib.Text.{◌==◌}
use text.Mathlib.TextEquality.{starts_with_iff, eq_iff}
use text.Mathlib.TextPositions.{eq_refl}
use mathlib.Core.Logic.{inl, inr}
use husky_ci.Base.Tests.{Bool-cases}
use text.Mathlib.TextLemmas.{append_assoc, nil-append, cons-append, append-nil}
use husky_ci.Base.Text.{◌⧺◌, has_prefix, contains}

pub ⧺-assoc : (s t u : String) → (s ⧺ t) ⧺ u ≡ s ⧺ (t ⧺ u)
⧺-assoc s t u = append_assoc s t u

pub ⧺-nil : (s : String) → s ⧺ "" ≡ s
⧺-nil s = append-nil s

pub nil-⧺ : (s : String) → "" ⧺ s ≡ s
nil-⧺ s = nil-append s

pub has_prefix-append : (s t p : String) → has_prefix s p ≡ true → has_prefix (s ⧺ t) p ≡ true
has_prefix-append s t p h =
    let (r, e) = (starts_with_iff s p).0 h in
    (starts_with_iff (s ⧺ t) p).1 (r ⧺ t, sym (append_assoc p r t) ∙ ap (λ (v : String). v ⧺ t) e)

or_left : (b c : Bool) → b ≡ true → (b || c) ≡ true
or_left b c h = rw h refl

or_right : (b c : Bool) → c ≡ true → (b || c) ≡ true
or_right true c h = refl
or_right false c h = h

pub contains_of_prefix : (s p : String) → has_prefix s p ≡ true → contains s p ≡ true
unfolding contains
contains_of_prefix [] p h = h
contains_of_prefix (c ∷ s) p h = or_left (has_prefix (c ∷ s) p) (contains s p) h

pub contains-append_right : (s t p : String) → contains t p ≡ true → contains (s ⧺ t) p ≡ true
unfolding contains
contains-append_right [] t p h = rw (nil-append t) h
contains-append_right (c ∷ s) t p h =
    rw (cons-append c s t)
      (or_right (has_prefix (c ∷ (s ⧺ t)) p) (contains (s ⧺ t) p) (contains-append_right s t p h))

or_cases : {P : Type 0} (b c : Bool) → (b || c) ≡ true → (b ≡ true → P) → (c ≡ true → P) → P
or_cases true c h f g = f refl
or_cases false c h f g = g h

pub contains-append_left : (s t p : String) → contains s p ≡ true → contains (s ⧺ t) p ≡ true
unfolding contains
contains-append_left [] t p h = contains_of_prefix ([] ⧺ t) p (has_prefix-append [] t p h)
contains-append_left (c ∷ s) t p h = rw (cons-append c s t) (
    or_cases (has_prefix (c ∷ s) p) (contains s p) h
      (λ front.
        or_left (has_prefix (c ∷ (s ⧺ t)) p) (contains (s ⧺ t) p)
          (rw (← cons-append c s t) (has_prefix-append (c ∷ s) t p front)))
      (λ later.
        or_right (has_prefix (c ∷ (s ⧺ t)) p) (contains (s ⧺ t) p)
          (contains-append_left s t p later)))

-- A test that fails fails the other way round too.
pub flipped : (j name : String) → (j == name) ≡ false → (name == j) ≡ false
flipped j name h = elim (Bool-cases (name == j)) [
  | inl same ↦ absurd (
      clash (
        sym (subst (λ (n : String). (j == n) ≡ true) (sym ((eq_iff name j).0 same)) (eq_refl j))
        ∙ h))
  | inr other ↦ other
]
  where
    clash : true ≡ false → ⊥
    clash e = cc
