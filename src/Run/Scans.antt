-- ===== src/Run/Scans.antt =====
-- api/securitytest/run.go: the goroutines of `runGenericScans` and `runLanguageScans`, with `New` and
-- `setSecurityTestContainer` of api/securitytest/securitytest.go. The two functions wait for them
-- by the pattern of `Run.Join`.
use husky_ci.Base.{
  String, ◌==◌, Bool, false, ◌&&◌, Option, none, some, List, [], ◌∷◌, ◌++◌, if◌then◌else◌,
  has_prefix, any, map, pos,
}
use husky_ci.Base.Reply.{Reply, found, refused}
use husky_ci.Types.{Container, SecurityTest, Code, no_output}
use husky_ci.Scan.State.{ScanInfo, Analyzed}
use husky_ci.Scan.Start.{Decoders, Infrastructure, start_scan}
use husky_ci.Run.Results.{RunAllInfo, set_vulns}
use husky_ci.Run.Join.{Task, Join, start}

-- What the scans use: the database (its default tests of which a field has a value), the function
-- strings.EqualFold, the decoders and the infrastructure.
pub record World : Type 0 where
  pub find_security_test : String → Reply SecurityTest
  pub find_all_tests : (key value : String) → Reply (List SecurityTest)
  pub equal_fold : String → String → Bool
  pub decoders : Decoders
  pub infrastructure : Infrastructure

-- A query that finds no data is no error.
abbrev or_none : Reply (List SecurityTest) → Reply (List SecurityTest)
or_none (found tests) = found tests
or_none (refused err) = if err == "No data found" then found [] else refused err

-- `getAllDefaultSecurityTests`
unfoldable pub default_tests : World → String → String → Reply (List SecurityTest)
default_tests w test_type language =
    if language == ""
    then or_none (w.find_all_tests "type" test_type)
    else or_none (w.find_all_tests "language" language)

abbrev no_test : SecurityTest
no_test = record {
  name = "";
  image = "";
  image_tag = "";
  cmd = "";
  test_type = "";
  language = "";
  is_default = false;
  time_out_in_seconds = pos 0;
}

-- `Container{}`
abbrev pub no_container : Container
no_container = record {
  cid = "";
  security_test = no_test;
  c_status = "";
  c_output = "";
  c_result = "";
  c_info = "";
}

-- `SecTestScanInfo{}` with the fields that `New` sets at once.
abbrev pub named : String → String → String → String → (String → Bool) → String → ScanInfo
named rid url branch name exclusions docker_host = record {
  rid = rid;
  url = url;
  branch = branch;
  security_test_name = name;
  language_exclusions = exclusions;
  error_found = none;
  req_not_found = false;
  warning_found = false;
  package_not_found = false;
  yarn_lock_not_found = false;
  yarn_error_running = false;
  gitleaks_error_running = false;
  gitleaks_timeout = false;
  security_code_scan_error_running = false;
  commit_authors_not_found = false;
  commit_authors = [];
  codes = [];
  container = no_container;
  vulnerabilities = no_output;
  docker_host = docker_host;
}

-- `setSecurityTestContainer`
abbrev with_test : ScanInfo → Reply SecurityTest → Reply ScanInfo
with_test s (refused err) = refused err
with_test s (found test) =
    found (record s { container = record s.container { security_test = test } })

-- `New` on the zero value.
unfoldable pub new_scan :
    World → String → String → String → String → (String → Bool) → String → Reply ScanInfo
new_scan w rid url branch name exclusions docker_host =
    with_test (named rid url branch name exclusions docker_host) (w.find_security_test name)

-- util.IsFileURL
unfoldable pub is_file_url : String → Bool
is_file_url url = has_prefix url "file://"

-- A scan as a goroutine makes it: `New` with the parameters of the first scan and no exclusions,
-- then `Start`. The results are those of the two calls, or a panic (`none`).
pub data Scanned : Type 0 where
  not_made : String → Scanned
  made : Analyzed → Scanned

abbrev started : World → Reply ScanInfo → Option Scanned
started w (refused err) = some (not_made err)
started w (found s) = elim (start_scan w.decoders w.infrastructure s) [
  | none ↦ none
  | some r ↦ some (made r)
]

unfoldable pub scan : World → ScanInfo → SecurityTest → Option Scanned
scan w enry test =
    started w
      (new_scan w enry.rid enry.url enry.branch test.name (λ language. false) enry.docker_host)

abbrev add_container : ScanInfo → RunAllInfo → RunAllInfo
add_container s run = record run { containers = run.containers ++ s.container ∷ [] }

abbrev with_vulns : ScanInfo → RunAllInfo → RunAllInfo
with_vulns s run = record run { husky_results = set_vulns s run.husky_results }

-- A goroutine, with what it does to the results where no other goroutine changes them meanwhile:
-- nothing in the source makes sure of that.
abbrev pub Goroutine : Type 0
Goroutine = Task (RunAllInfo → RunAllInfo)

-- The rest of a goroutine of `runGenericScans`: only a scan without an error is kept, with its
-- findings if it is gitleaks, and with the authors if it is gitauthors.
unfoldable pub generic_task : World → SecurityTest → Scanned → Goroutine
generic_task w test (not_made err) = record { effect = λ run. run; error = some err }
generic_task w test (made (s, some err)) = record { effect = λ run. run; error = some err }
generic_task w test (made (s, none)) = record {
  effect = λ run.
      if w.equal_fold test.name "gitauthors"
      then record (add_container s run) { commit_authors = s.commit_authors }
      else if test.name == "gitleaks"
      then with_vulns s (add_container s run)
      else add_container s run;
  error = none;
}

-- The rest of a goroutine of `runLanguageScans`: the container is kept also after an error.
unfoldable pub language_task : Scanned → Goroutine
language_task (not_made err) = record { effect = λ run. run; error = some err }
language_task (made (s, some err)) = record {
  effect = λ run. add_container s run;
  error = some err;
}
language_task (made (s, none)) = record {
  effect = λ run. with_vulns s (add_container s run);
  error = none;
}

-- `none` is a panic of one of the scans, which ends the process.
abbrev consed : {A : Type 0} → Option A → Option (List A) → Option (List A)
consed (some x) (some xs) = some (x ∷ xs)
consed _ _ = none

abbrev mapped : {A B : Type 0} → (A → B) → Option A → Option B
mapped f none = none
mapped f (some x) = some (f x)

abbrev skips : World → ScanInfo → SecurityTest → Bool
skips w enry test = w.equal_fold test.name "gitauthors" && is_file_url enry.url

-- The loop of `runGenericScans` over the tests.
unfoldable pub generic_tasks : World → ScanInfo → List SecurityTest → Option (List Goroutine)
generic_tasks w enry [] = some []
generic_tasks w enry (test ∷ tests) =
    let rest = generic_tasks w enry tests in
    let one = mapped (generic_task w test) (scan w enry test) in
    if skips w enry test then rest else consed one rest

-- The scans that the loop of `runLanguageScans` over the tests starts.
unfoldable pub language_scans : World → ScanInfo → List SecurityTest → Option (List Scanned)
language_scans w enry [] = some []
language_scans w enry (test ∷ tests) = consed (scan w enry test) (language_scans w enry tests)

-- The loop of `runLanguageScans` over the languages of the repository.
unfoldable pub language_tests : World → List Code → Reply (List SecurityTest)
language_tests w [] = found []
language_tests w (code ∷ codes) = elim (default_tests w "Language" code.language) [
  | refused err ↦ refused err
  | found tests ↦ elim (language_tests w codes) [
    | refused err ↦ refused err
    | found more ↦ found (tests ++ more)
  ]
]

-- What becomes of a call of `runGenericScans` or `runLanguageScans`: it returns an error before any
-- goroutine is started, a scan panics, or it waits, with the results and the goroutines.
pub data Launch : Type 0 where
  not_launched : String → Launch
  scan_panics : Launch
  launched : RunAllInfo → Join (RunAllInfo → RunAllInfo) → Launch

abbrev waiting_for : RunAllInfo → Option (List Goroutine) → Launch
waiting_for run none = scan_panics
waiting_for run (some tasks) = launched run (start tasks)

-- The authors are cleared where gitauthors is skipped. The place that the channel has for the
-- error of the skipped test stays unused, and is left out.
abbrev generic_launch : World → ScanInfo → RunAllInfo → Reply (List SecurityTest) → Launch
generic_launch w enry run (refused err) = not_launched err
generic_launch w enry run (found tests) =
    waiting_for (if any (skips w enry) tests then record run { commit_authors = [] } else run)
      (generic_tasks w enry tests)

unfoldable pub run_generic_scans : World → ScanInfo → RunAllInfo → Launch
run_generic_scans w enry run = generic_launch w enry run (default_tests w "Generic" "")

abbrev language_launch : World → ScanInfo → RunAllInfo → Reply (List SecurityTest) → Launch
language_launch w enry run (refused err) = not_launched err
language_launch w enry run (found tests) =
    waiting_for run (mapped (map language_task) (language_scans w enry tests))

unfoldable pub run_language_scans : World → ScanInfo → RunAllInfo → Launch
run_language_scans w enry run = language_launch w enry run (language_tests w enry.codes)
