-- ===== src/Analysis/Start.antt =====
-- api/analysis/analysis.go: `StartAnalysis`, `registerNewAnalysis` and `registerFinishedAnalysis`.
use husky_ci.Base.{String, ◌==◌, false, not, ◌&&◌, Option, none, some, [], if◌then◌else◌}
use husky_ci.Base.Reply.{Reply, found, refused}
use husky_ci.Types.{Repository, Analysis, no_results}
use husky_ci.Scan.State.{ScanInfo, Analyzed}
use husky_ci.Scan.Enry.{parse_enry_output}
use husky_ci.Scan.Start.{start_scan}
use husky_ci.Run.Results.{RunAllInfo, no_run, set_analysis_error}
use husky_ci.Run.Scans.{World, named, new_scan, is_file_url}
use husky_ci.Run.Start.{begin_start, end_start}

-- What `StartAnalysis` uses: HUSKYCI_INFRASTRUCTURE_USE, the address of a Docker host, the
-- configuration of the API, the formatting of the address, the insert and the update of the database, and what becomes
-- of the two goroutines that `Start` waits for: `scanError` and the results at that time, or a
-- panic.
pub record Platform : Type 0 where
  pub selected : Option String
  pub find_docker : Reply String
  pub api_config : Option String
  pub format_host : String → Reply String
  pub insert_analysis : Analysis → Option String
  pub update_analysis : Analysis → Option String
  pub world : World
  pub joined : ScanInfo → RunAllInfo → Option (RunAllInfo × Option String)

-- `registerNewAnalysis`
unfoldable pub new_analysis : String → Repository → Analysis
new_analysis rid repo = record {
  rid = rid;
  url = repo.url;
  branch = repo.branch;
  commit_authors = [];
  status = "running";
  result = "";
  error_found = "";
  containers = [];
  codes = [];
  husky_results = no_results;
}

abbrev pub message : Option String → String
message none = ""
message (some err) = err

-- `registerFinishedAnalysis`: the fields of the stored analysis that it sets.
unfoldable pub finished_analysis : Analysis → RunAllInfo → Analysis
finished_analysis a run = record a {
  status = run.status;
  commit_authors = run.commit_authors;
  result = run.final_result;
  containers = run.containers;
  husky_results = run.husky_results;
  codes = run.codes;
  error_found = message run.error_found;
}

abbrev then_format : Platform → Reply String → Option String
then_format p (refused err) = none
then_format p (found address) = elim p.api_config [
  | some err ↦ none
  | none ↦ elim (p.format_host address) [ refused err ↦ none | found host ↦ some host ]
]

-- `apiHost`; `none` is an early return.
unfoldable pub api_host : Platform → Option String
api_host p = elim p.selected [
  | none ↦ none
  | some name ↦
      if name == "docker"
      then then_format p p.find_docker
      else if name == "kubernetes"
      then some "kubernetes.default.svc"
      else none
]

-- How the search for the languages ends.
pub data EnryStep : Type 0 where
  enry_panics : EnryStep
  not_made : EnryStep
  enry_failed : String → EnryStep
  ready : ScanInfo → EnryStep

-- `SecTestScanInfo{}` with `SecurityTestName` set.
abbrev pub blank_enry : ScanInfo
blank_enry = named "" "" "" "enry" (λ language. false) ""

abbrev enry_started : Option Analyzed → EnryStep
enry_started none = enry_panics
enry_started (some (s, none)) = ready s
enry_started (some (s, some err)) = enry_failed err

abbrev enry_made : World → Reply ScanInfo → EnryStep
enry_made w (refused err) = not_made
enry_made w (found s) = enry_started (start_scan w.decoders w.infrastructure s)

-- `New` and `Start` of the enry scan.
unfoldable pub run_enry : World → String → Repository → String → EnryStep
run_enry w rid repo host =
    enry_made w (new_scan w rid repo.url repo.branch "enry" repo.language_exclusions host)

-- The output that the client provides is parsed; if that fails, enry is run after all.
abbrev pub or_run : EnryStep → Option Analyzed → EnryStep
or_run run none = enry_panics
or_run run (some (s, none)) = ready s
or_run run (some (s, some err)) = run

unfoldable pub enry_step : World → String → Repository → String → EnryStep
enry_step w rid repo host =
    if is_file_url repo.url && not (repo.enry_output == "")
    then or_run (run_enry w rid repo host)
        (parse_enry_output w.decoders.enry repo.enry_output repo.language_exclusions blank_enry)
    else run_enry w rid repo host

-- `allScansResults` after `Start`, and after `SetAnalysisError` if it returned an error.
abbrev pub after_start : Option (RunAllInfo × Option String) → Option RunAllInfo
after_start none = none
after_start (some (run, none)) = some (end_start none run)
after_start (some (run, some err)) = some (set_analysis_error err (end_start (some err) run))

abbrev pub with_codes : Platform → EnryStep → Option RunAllInfo
with_codes p enry_panics = none
with_codes p not_made = some no_run
with_codes p (enry_failed err) = some (set_analysis_error err no_run)
with_codes p (ready enry) = after_start (p.joined enry (begin_start enry no_run))

abbrev pub on_host : Platform → String → Repository → Option String → Option RunAllInfo
on_host p rid repo none = some no_run
on_host p rid repo (some host) = with_codes p (enry_step p.world rid repo host)

-- `allScansResults` when `StartAnalysis` returns; `none` is a panic.
unfoldable pub all_results : Platform → String → Repository → Option RunAllInfo
all_results p rid repo = on_host p rid repo (api_host p)

-- What the database holds in the end.
pub data Ending : Type 0 where
  not_registered : Ending
  crashed : Ending
  left_running : Analysis → Ending
  stored : Analysis → Ending

-- An error of `registerFinishedAnalysis` is only logged: the analysis stays as it was registered.
abbrev pub updated_to : Analysis → Analysis → Option String → Ending
updated_to a finished none = stored finished
updated_to a finished (some err) = left_running a

abbrev pub stored_as : Platform → Analysis → Option RunAllInfo → Ending
stored_as p a none = crashed
stored_as p a (some run) =
    updated_to a (finished_analysis a run) (p.update_analysis (finished_analysis a run))

abbrev pub once_registered : Platform → String → Repository → Option String → Ending
once_registered p rid repo (some err) = not_registered
once_registered p rid repo none = stored_as p (new_analysis rid repo) (all_results p rid repo)

-- `StartAnalysis`
unfoldable pub start_analysis : Platform → String → Repository → Ending
start_analysis p rid repo = once_registered p rid repo (p.insert_analysis (new_analysis rid repo))
