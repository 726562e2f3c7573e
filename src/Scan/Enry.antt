-- ===== src/Scan/Enry.antt =====
-- api/securitytest/enry.go and api/securitytest/gitauthors.go
use husky_ci.Base.{
  String, Bool, true, ◌||◌, Option, none, some, List, [], ◌∷◌, if◌then◌else◌, contains, is_blank,
  is_empty,
}
use husky_ci.Types.{Code}
use husky_ci.Scan.State.{
  ScanInfo, Decoded, decoded, failed, Analyzed, conclude, conclude_error, fail_with, scan_error,
  prepare_container,
}

-- An item of a list of files as JSON has it.
pub data FileItem : Type 0 where
  text : String → FileItem
  null other : FileItem

-- A loop that may stop by an error or by a run-time panic.
pub data Mapped (A : Type 0) : Type 0 where
  mapped : A → Mapped A
  mapping_failed panicked : Mapped A

infixl 5 ◌>>=◌
abbrev ◌>>=◌ : {A B : Type 0} → Mapped A → (A → Mapped B) → Mapped B
mapped a >>= f = f a
mapping_failed >>= f = mapping_failed
panicked >>= f = panicked

-- The loop over the files of a language; `reflect.TypeOf(nil).String()` panics.
unfoldable pub file_names : List FileItem → Mapped (List String)
file_names [] = mapped []
file_names (null ∷ fs) = panicked
file_names (other ∷ fs) = mapping_failed
file_names (text f ∷ fs) = do names ← file_names fs; mapped (f ∷ names)

-- The loop of `prepareEnryOutput` and of `ParseProvidedEnryOutput` over the languages, in the order
-- in which the map is visited.
unfoldable pub languages_of : (String → Bool) → List (String × List FileItem) → Mapped (List Code)
unfolding file_names
languages_of excluded [] = mapped []
languages_of excluded ((name, files) ∷ more) = do
  fs ← file_names files
  codes ← languages_of excluded more
  mapped (if excluded name then codes else record { language = name; files = fs } ∷ codes)

abbrev pub with_languages : ScanInfo → Mapped (List Code) → Option Analyzed
with_languages s panicked = none
with_languages s mapping_failed = some (s, some "error mapping languages")
with_languages s (mapped codes) = some (record s { codes = codes }, none)

abbrev pub with_decoded :
    (String → Bool) → ScanInfo → Decoded (List (String × List FileItem)) → Option Analyzed
with_decoded excluded s (failed err) = some (s, some err)
with_decoded excluded s (decoded found) = with_languages s (languages_of excluded found)

module _ (unmarshal : String → Decoded (List (String × List FileItem))) where
  -- `prepareEnryOutput` and `ParseProvidedEnryOutput`, which differ in where the text and the
  -- exclusions come from; `none` is a panic.
  unfoldable pub parse_enry_output : String → (String → Bool) → ScanInfo → Option Analyzed
  parse_enry_output json excluded s = with_decoded excluded s (unmarshal json)

  abbrev wrapped : ScanInfo → Option String → Analyzed
  wrapped s none = (s, none)
  wrapped s (some err) = fail_with s (scan_error s err)

  -- `analyzeEnry`; the first decoding, as a value of any kind, fails only where the second does.
  unfoldable pub analyze_enry : ScanInfo → Option Analyzed
  unfolding parse_enry_output
  analyze_enry s = elim (parse_enry_output s.container.c_output s.language_exclusions s) [
    | none ↦ none
    | some (s', err) ↦ some (wrapped s' err)
  ]

-- `analyzeGitAuthors`
unfoldable pub analyze_git_authors : (String → Decoded (List String)) → ScanInfo → Analyzed
analyze_git_authors unmarshal s =
    let output = s.container.c_output in
    let without = record s { commit_authors_not_found = true; commit_authors = [] } in
    if is_blank output then conclude without else elim (unmarshal output) [
      | failed err ↦
          if contains err "unexpected end of JSON input" || contains err "EOF"
          then conclude without
          else conclude_error s (scan_error s err)
      | decoded authors ↦
          if is_empty authors
          then conclude (prepare_container without)
          else conclude (record s { commit_authors = authors })
    ]
