-- ===== src/Input/Duplicates.antt =====
-- What `RemoveDuplicates` of api/util/util.go keeps.
use husky_ci.Base.{
  String, ◌==◌, ◌≡◌, ◌∙◌, refl, arith, Bool, true, false, not, ◌&&◌, ◌||◌, List, [], ◌∷◌, eq_iff,
  eq_refl, Bool-cases, inl, inr,
}
use husky_ci.Input.{slice_contains, remove_from, remove_duplicates}

seen_case :
    (same : Bool) (here seen : Bool)
    → (same ≡ true → seen ≡ true)
    → (here && not seen) ≡ ((same || here) && not seen)
seen_case true here seen h = rw (h refl) (ground arith)
seen_case false here seen h = refl

new_case :
    (same here seen : Bool)
    → (same ≡ true → seen ≡ false)
    → (same || (here && not (same || seen))) ≡ ((same || here) && not seen)
new_case true here seen h = rw (h refl) refl
new_case false here seen h = refl

slice_contains-remove_from :
    (seen vs : List String) (x : String)
    → slice_contains (remove_from seen vs) x ≡ (slice_contains vs x && not (slice_contains seen x))
unfolding slice_contains remove_from
slice_contains-remove_from seen [] x = refl
slice_contains-remove_from seen (v ∷ vs) x = elim (Bool-cases (slice_contains seen v)) [
  | inl old ↦
      rw (old, slice_contains-remove_from seen vs x)
        (seen_case (v == x) (slice_contains vs x) (slice_contains seen x)
          (λ same. rw (← (eq_iff v x).0 same) old))
  | inr new ↦
      rw (new, slice_contains-remove_from (v ∷ seen) vs x)
        (new_case (v == x) (slice_contains vs x) (slice_contains seen x)
          (λ same. rw (← (eq_iff v x).0 same) new))
]

kept_out :
    (v : String) (seen vs : List String)
    → (slice_contains vs v && not (slice_contains (v ∷ seen) v)) ≡ false
unfolding slice_contains
kept_out v seen vs = rw (eq_refl v) (ground arith)

nothing_seen :
    (s : List String) (x : String)
    → (slice_contains s x && not (slice_contains [] x)) ≡ slice_contains s x
unfolding slice_contains
nothing_seen s x = ground arith

-- No item is in the rest of the list after it.
abbrev pub Unique : List String → Type 0
Unique [] = Unit
Unique (v ∷ vs) = (slice_contains vs v ≡ false) × Unique vs

remove_from-Unique : (seen vs : List String) → Unique (remove_from seen vs)
unfolding remove_from
remove_from-Unique seen [] = tt
remove_from-Unique seen (v ∷ vs) = elim (Bool-cases (slice_contains seen v)) [
  | inl old ↦ rw old (remove_from-Unique seen vs)
  | inr new ↦ rw new (
    slice_contains-remove_from (v ∷ seen) vs v ∙ kept_out v seen vs,
    remove_from-Unique (v ∷ seen) vs,
  )
]

-- `RemoveDuplicates` keeps each item, no item twice, and adds none.
pub remove_duplicates_lem :
    (s : List String)
    → Unique (remove_duplicates s)
      × ((x : String) → slice_contains (remove_duplicates s) x ≡ slice_contains s x)
unfolding remove_duplicates
remove_duplicates_lem s =
    (remove_from-Unique [] s, λ x. slice_contains-remove_from [] s x ∙ nothing_seen s x)
