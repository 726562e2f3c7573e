-- ===== src/Cli/Found.antt =====
-- `setLanguages` always finds a language.
use husky_ci.Base.{
  ◌≡◌, refl, String, Bool, true, false, List, [], ◌∷◌, is_empty, Bool-cases, inl, inr,
}
use husky_ci.Base.Reply.{Reply, found}
use husky_ci.Input.{slice_contains}
use husky_ci.Cli.Languages.{append_if_missing, Visit, no_entry, entry, language_loop, set_languages}

-- The walk meets no error.
abbrev pub is_walked : List Visit → Bool
is_walked [] = true
is_walked (no_entry err ∷ visits) = false
is_walked (entry name is_dir path ∷ visits) = is_walked visits

append_if_missing-filled :
    (languages : List String) (s : String) → is_empty (append_if_missing languages s) ≡ false
unfolding append_if_missing slice_contains
append_if_missing-filled [] s = refl
append_if_missing-filled (l ∷ ls) s = elim (Bool-cases (slice_contains (l ∷ ls) s)) [
  | inl seen ↦ rw seen refl
  | inr new ↦ rw new refl
]

module _ (language_of : String → String) where
  language_loop-found :
      (languages : List String) (visits : List Visit)
      → is_empty languages ≡ false
      → is_walked visits ≡ true
      → (ls : List String) × (language_loop language_of languages visits ≡ found ls)
        × (is_empty ls ≡ false)
  unfolding language_loop
  language_loop-found languages [] filled h = (languages, refl, filled)
  language_loop-found languages (no_entry err ∷ visits) filled h = cc
  language_loop-found languages (entry name is_dir path ∷ visits) filled h =
      language_loop-found (append_if_missing languages (language_of name)) visits
        (append_if_missing-filled languages (language_of name)) h

  -- `setLanguages` never reports that it has found no languages: a walk without an error visits its
  -- root at least, and what the name of the root gives, the empty text too, is appended.
  pub set_languages-found :
      (languages : List String) (name : String) (is_dir : Bool) (path : Reply String)
      (visits : List Visit)
      → is_walked visits ≡ true
      → (ls : List String) × (set_languages language_of languages (entry name is_dir path ∷ visits)
          ≡ found ls)
  unfolding set_languages language_loop
  set_languages-found languages name is_dir path visits h =
      let (ls, e, filled) =
        language_loop-found (append_if_missing languages (language_of name)) visits
          (append_if_missing-filled languages (language_of name)) h in
      (ls, rw e (rw filled refl))
