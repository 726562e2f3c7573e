-- ===== src/Run/Start.antt =====
-- api/securitytest/run.go: `Start`, before and after it waits for its two goroutines.
use husky_ci.Base.{
  String, ◌≡◌, refl, ◌||◌, Option, none, some, if◌then◌else◌, is_some, Option-cases, inl, inr,
}
use husky_ci.Scan.State.{ScanInfo}
use husky_ci.Run.Results.{RunAllInfo, set_final_result, set_to_analysis}
use husky_ci.Run.Verdict.{verdict_of, set_to_analysis-eq, set_to_analysis-set_final_result}

-- `results.Codes = enryScan.Codes`
abbrev pub begin_start : ScanInfo → RunAllInfo → RunAllInfo
begin_start enry run = record run { codes = enry.codes }

-- What follows the `select`, given `scanError`; the deferred `setToAnalysis` is last.
unfoldable pub end_start : Option String → RunAllInfo → RunAllInfo
end_start none run = set_to_analysis (set_final_result run)
end_start (some err) run = set_to_analysis (record run { error_found = some err })

-- What `Start` leaves after it has waited: if it takes an error from the channel, or the run holds
-- one, the status is "error running" and the result "error"; otherwise the status is "finished"
-- and the result is the verdict over the containers.
pub end_start-verdict :
    (scan_error : Option String) (run : RunAllInfo)
    → (let failing = is_some scan_error || is_some run.error_found in
        ((end_start scan_error run).status ≡ (if failing then "error running" else "finished"))
        × ((end_start scan_error run).final_result
            ≡ (if failing then "error" else verdict_of run.containers)))
unfolding end_start set_to_analysis
end_start-verdict (some err) run = (refl, refl)
end_start-verdict none run =
    rw (set_to_analysis-set_final_result run) (elim (Option-cases run.error_found) [
      | inl fine ↦ (rw fine refl, set_to_analysis-eq run)
      | inr (err, found) ↦ (rw found refl, set_to_analysis-eq run)
    ])
