-- ===== src/Cli/Languages.antt =====
-- The languages that cli/analysis/analysis.go finds: `setLanguages`, `generateEnryOutput` and
-- `getAvailableSecurityTests`, and `AppendIfMissing` of cli/util/util.go.
use husky_ci.Base.{
  String, ◌==◌, Bool, true, false, ◌||◌, List, [], ◌∷◌, ◌++◌, if◌then◌else◌, is_empty,
}
use husky_ci.Base.Reply.{Reply, found, refused}
use husky_ci.Input.{slice_contains}

-- `AppendIfMissing`
unfoldable pub append_if_missing : List String → String → List String
append_if_missing slice s = if slice_contains slice s then slice else slice ++ s ∷ []

-- What `filepath.Walk` hands to its function: an error, or a file with its name, whether it is a
-- directory and its path relative to the root.
pub data Visit : Type 0 where
  no_entry : String → Visit
  entry : (name : String) → (is_dir : Bool) → (path : Reply String) → Visit

-- `enry.GetLanguageByExtension`
module _ (language_of : String → String) where
  unfoldable pub language_loop : List String → List Visit → Reply (List String)
  unfolding append_if_missing
  language_loop languages [] = found languages
  language_loop languages (no_entry err ∷ visits) = refused err
  language_loop languages (entry name is_dir path ∷ visits) =
      language_loop (append_if_missing languages (language_of name)) visits

  abbrev pub unless_empty : Reply (List String) → Reply (List String)
  unless_empty (refused err) = refused err
  unless_empty (found languages) =
      if is_empty languages then refused "no languages found" else found languages

  -- `setLanguages`
  unfoldable pub set_languages : List String → List Visit → Reply (List String)
  unfolding language_loop
  set_languages languages visits = unless_empty (language_loop languages visits)

-- `normalizeLanguageName`
unfoldable pub normalize_language_name : String → String
normalize_language_name lang =
    if lang == "Go" || lang == "Golang"
    then "Go"
    else if lang == "Python"
    then "Python"
    else if lang == "Ruby"
    then "Ruby"
    else if lang == "JavaScript" || lang == "TypeScript"
    then "JavaScript"
    else if lang == "Java"
    then "Java"
    else if lang == "C#" || lang == "CSharp"
    then "C#"
    else if lang == "HCL" || lang == "Terraform"
    then "HCL"
    else ""

-- `enryMap[lang] = append(enryMap[lang], path)`
unfoldable pub append_at :
    String → String → List (String × List String) → List (String × List String)
append_at lang path [] = (lang, path ∷ []) ∷ []
append_at lang path ((k, paths) ∷ entries) =
    let rest = append_at lang path entries in
    if k == lang then (k, paths ++ path ∷ []) ∷ entries else (k, paths) ∷ rest

module _ (language_of : String → String) where
  abbrev pub noted_language :
      String → String → List (String × List String) → List (String × List String)
  noted_language lang path files =
      if lang == "" || lang == "Text"
      then files
      else if normalize_language_name lang == ""
      then files
      else append_at (normalize_language_name lang) path files

  -- The walk of `generateEnryOutput`, whose result is then marshalled.
  unfoldable pub enry_loop :
      List (String × List String) → List Visit → Reply (List (String × List String))
  unfolding append_at normalize_language_name
  enry_loop files [] = found files
  enry_loop files (no_entry err ∷ visits) = refused err
  enry_loop files (entry name true path ∷ visits) = enry_loop files visits
  enry_loop files (entry name false (refused err) ∷ visits) = refused err
  enry_loop files (entry name false (found path) ∷ visits) =
      enry_loop (noted_language (language_of name) path files) visits

  unfoldable pub generate_enry_output :
      (List (String × List String) → Reply String) → List Visit → Reply String
  unfolding enry_loop
  generate_enry_output marshal visits = marshalled (enry_loop [] visits)
    where
      marshalled : Reply (List (String × List String)) → Reply String
      marshalled (refused err) = refused err
      marshalled (found files) = marshal files

-- The tests for a language of `getAvailableSecurityTests`.
unfoldable pub tests_for : String → List String
tests_for language =
    if language == "Go"
    then "huskyci/gosec" ∷ []
    else if language == "Python"
    then "huskyci/bandit" ∷ "huskyci/safety" ∷ []
    else if language == "Ruby"
    then "huskyci/brakeman" ∷ []
    else if language == "JavaScript"
    then "huskyci/npmaudit" ∷ "huskyci/yarnaudit" ∷ []
    else if language == "Java"
    then "huskyci/spotbugs" ∷ []
    else if language == "HCL"
    then "huskyci/tfsec" ∷ []
    else if language == "C#"
    then "huskyci/securitycodescan" ∷ []
    else []

-- `list[key] = tests`
abbrev pub put_tests :
    String → List String → List (String × List String) → List (String × List String)
put_tests key tests [] = (key, tests) ∷ []
put_tests key tests ((k, old) ∷ list) =
    let rest = put_tests key tests list in if k == key then (k, tests) ∷ list else (k, old) ∷ rest

abbrev pub listed : String → List (String × List String) → List (String × List String)
listed language list =
    if is_empty (tests_for language) then list else put_tests language (tests_for language) list

unfoldable pub tests_loop : List (String × List String) → List String → List (String × List String)
unfolding tests_for
tests_loop list [] = list
tests_loop list (language ∷ languages) = tests_loop (listed language list) languages

-- `getAvailableSecurityTests`
unfoldable pub get_available_security_tests : List String → List (String × List String)
unfolding tests_loop
get_available_security_tests languages =
    put_tests "Generic" ("huskyci/gitleaks" ∷ []) (tests_loop [] languages)
