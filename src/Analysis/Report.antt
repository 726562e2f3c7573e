-- ===== src/Analysis/Report.antt =====
-- What api/analysis/analysis.go stores of an analysis.
use husky_ci.Base.{
  String, ◌==◌, ◌≡◌, refl, ap, subst, Bool, true, false, Option, none, some, ◌⊎◌, List,
}
use husky_ci.Types.{Code, Repository, Analysis}
use husky_ci.Scan.State.{ScanInfo, Decoded, decoded, failed, Analyzed}
use husky_ci.Scan.Enry.{
  parse_enry_output, FileItem, Mapped, mapped, mapping_failed, panicked, with_languages,
  with_decoded, languages_of,
}
use husky_ci.Run.Results.{RunAllInfo, no_run}
use husky_ci.Run.Verdict.{verdict_of}
use husky_ci.Run.Scans.{is_file_url, World}
use husky_ci.Analysis.Start.{
  Platform, new_analysis, finished_analysis, api_host, ready, enry_step, blank_enry, all_results,
  Ending, not_registered, crashed, left_running, stored, updated_to, start_analysis, message,
}

-- The three ways in which an analysis may end up: with nothing reported, with an error, or with
-- the verdict.
abbrev pub Outcome : (status result error_found verdict : String) → Type 0
Outcome status result error_found verdict =
    (((status ≡ "") × (result ≡ "") × (error_found ≡ ""))
      ⊎ ((status ≡ "error running") × (result ≡ "error")))
    ⊎ ((status ≡ "finished") × (result ≡ verdict) × (error_found ≡ ""))

abbrev RunOutcome : RunAllInfo → Type 0
RunOutcome run =
    Outcome run.status run.final_result (message run.error_found) (verdict_of run.containers)

abbrev Reports : Option RunAllInfo → Type 0
Reports none = Unit
Reports (some run) = RunOutcome run

-- What the database holds of the analysis, unless the process has crashed: nothing, the analysis as
-- it was registered, or one with an outcome.
abbrev pub Stores : Analysis → Ending → Type 0
Stores registered (stored a) = Outcome a.status a.result a.error_found (verdict_of a.containers)
Stores registered (left_running a) = a ≡ registered
Stores registered not_registered = Unit
Stores registered crashed = Unit

-- Where no host for the scans is known, because HUSKYCI_INFRASTRUCTURE_USE is not set, names no
-- infrastructure, or a call for the Docker host fails, and the update goes through, the analysis ends with an empty
-- status, result and error: nothing of the failure is stored.
pub no_host_no_report :
    (p : Platform) (rid : String) (repo : Repository)
    → p.insert_analysis (new_analysis rid repo) ≡ none
    → api_host p ≡ none
    → p.update_analysis (finished_analysis (new_analysis rid repo) no_run) ≡ none
    → (a : Analysis) × (start_analysis p rid repo ≡ stored a)
      × (a.status ≡ "")
      × (a.result ≡ "")
      × (a.error_found ≡ "")
unfolding start_analysis all_results finished_analysis
no_host_no_report p rid repo fine early kept = (
  finished_analysis (new_analysis rid repo) no_run,
  rw (fine, early)
      (ap (updated_to (new_analysis rid repo) (finished_analysis (new_analysis rid repo) no_run))
        kept),
  refl,
  refl,
  refl,
)

abbrev KeepsUrl : ScanInfo → Option Analyzed → Type 0
KeepsUrl s none = Unit
KeepsUrl s (some (s', err)) = (s'.url ≡ s.url) × (s'.rid ≡ s.rid) × (s'.docker_host ≡ s.docker_host)

with_languages-KeepsUrl : (s : ScanInfo) (m : Mapped (List Code)) → KeepsUrl s (with_languages s m)
with_languages-KeepsUrl s panicked = tt
with_languages-KeepsUrl s mapping_failed = (refl, refl, refl)
with_languages-KeepsUrl s (mapped codes) = (refl, refl, refl)

with_decoded-KeepsUrl :
    (excluded : String → Bool) (s : ScanInfo) (d : Decoded (List (String × List FileItem)))
    → KeepsUrl s (with_decoded excluded s d)
with_decoded-KeepsUrl excluded s (failed err) = (refl, refl, refl)
with_decoded-KeepsUrl excluded s (decoded found) =
    with_languages-KeepsUrl s (languages_of excluded found)

-- Where the client provides the output of enry for an uploaded file and it is parsed, the scan
-- that the security tests take their parameters from has no URL, no RID and no Docker host.
pub provided_output_no_url :
    (w : World) (rid host : String) (repo : Repository) (s : ScanInfo)
    → is_file_url repo.url ≡ true
    → (repo.enry_output == "") ≡ false
    → parse_enry_output w.decoders.enry repo.enry_output repo.language_exclusions blank_enry
      ≡ some (s, none)
    → (enry_step w rid repo host ≡ ready s) × (s.url ≡ "") × (s.rid ≡ "") × (s.docker_host ≡ "")
unfolding enry_step parse_enry_output
provided_output_no_url w rid host repo s file given parsed =
    let (url, rid', docker) =
      subst (KeepsUrl blank_enry) parsed (with_decoded-KeepsUrl _ blank_enry _) in
    (rw (file, given, parsed) refl, url, rid', docker)
