-- ===== src/Tests/Scans.antt =====
-- Scans and runs in the world of `Tests.World`.
use husky_ci.Base.{◌≡◌, refl, ◌&&◌, not, none, some, List, [], ◌∷◌, ◌++◌, pos, Shuffle, gather, any}
use husky_ci.Types.{SecurityTest, no_output}
use husky_ci.Scan.State.{decoded, prepare_container}
use husky_ci.Scan.Filing.{high, at}
use husky_ci.Scan.Gosec.{GosecIssue, GosecOutput, analyze_gosec}
use husky_ci.Scan.Tfsec.{TfsecResult, TfsecOutput}
use husky_ci.Scan.Failure.{
  prepare_container-failed, gosec_failed, counts, has_failed, blocked, serious,
}
use husky_ci.Scan.YarnAudit.{YarnIssue, yarn_loop}
use husky_ci.Scan.YarnAudit.Occurrences.{yarn_report_counts, all_total, AllDistinct}
use husky_ci.Run.Results.{no_run, brakeman, output_of, set_to_analysis, set_vulns}
use husky_ci.Run.Vulns.{at-set_vulns}
use husky_ci.Run.Verdict.{verdict_of}
use husky_ci.Run.Scans.{made, generic_task, language_task}
use husky_ci.Base.Shuffles.{swap}
use husky_ci.Run.Order.{
  Scan, generic, language, run_each, container_of, findings_of, scans_containers, scans_findings,
  scans_verdict,
}
use husky_ci.Run.Lost.{Appending, to_load, Advances, container_may_be_lost}
use husky_ci.Tests.World.{world, brakeman_scan, brakeman_test, scanned_by}

abbrev gitleaks_test : SecurityTest
gitleaks_test = record brakeman_test { name = "gitleaks" }

abbrev scans : List Scan
scans =
    generic gitleaks_test (made (scanned_by "gitleaks" "[]", none))
    ∷ language (made (brakeman_scan, none))
    ∷ []

abbrev order : List Scan
order =
    language (made (brakeman_scan, none))
    ∷ generic gitleaks_test (made (scanned_by "gitleaks" "[]", none))
    ∷ []

ordered : Shuffle scans order
ordered = swap _ _ []

scans_containers_example :
    Shuffle (gather container_of scans) (run_each world order no_run).containers
scans_containers_example = scans_containers world scans order no_run ordered

scans_findings_example :
    Shuffle
      (at high (output_of brakeman no_run.husky_results)
        ++ gather (findings_of world brakeman high) scans)
      (at high (output_of brakeman (run_each world order no_run).husky_results))
scans_findings_example = scans_findings world scans order no_run ordered brakeman high

no_error : (run_each world order no_run).error_found ≡ none
unfolding generic_task language_task
no_error = refl

scans_verdict_example :
    (set_to_analysis (run_each world order no_run)).final_result
    ≡ verdict_of (gather container_of scans)
scans_verdict_example = scans_verdict world scans order no_run ordered no_error

container_may_be_lost_example :
    (s : Appending) × Advances
      (record {
        containers = [];
        waiting =
            to_load brakeman_scan.container ∷ to_load (scanned_by "gitleaks" "[]").container ∷ [];
      })
      s
    × (s.waiting ≡ [])
    × ((set_to_analysis (record no_run { containers = s.containers })).final_result
        ≡ verdict_of ((scanned_by "gitleaks" "[]").container ∷ []))
container_may_be_lost_example =
    container_may_be_lost no_run brakeman_scan.container (scanned_by "gitleaks" "[]").container refl

prepare_container-failed_example :
    has_failed (prepare_container (scanned_by "gosec" "{}")).container
    ≡ (not (blocked (scanned_by "gosec" "{}")) && serious no_output)
prepare_container-failed_example = prepare_container-failed (scanned_by "gosec" "{}")

abbrev issue : GosecIssue
issue = record {
  severity = "HIGH";
  confidence = "HIGH";
  rule_id = "G101";
  details = "Hardcoded credentials";
  file = "main.go";
  code = "x";
  line = "3";
}

abbrev gosec_out : GosecOutput
gosec_out = record {
  gosec_issues = issue ∷ [];
  gosec_stats = record { files = pos 1; lines = pos 9; nosec = pos 1; found = pos 1 };
}

gosec_failed_example :
    has_failed (analyze_gosec (λ output. decoded gosec_out) (scanned_by "gosec" "{}")).0.container
    ≡ any (λ (i : GosecIssue). counts i.severity) (issue ∷ [])
gosec_failed_example =
    gosec_failed (λ output. decoded gosec_out) (scanned_by "gosec" "{}") gosec_out refl refl refl

abbrev result : TfsecResult
result = record {
  rule_id = "AWS001";
  link = "";
  filename = "main.tf";
  start_line = pos 1;
  end_line = pos 4;
  description = "Public bucket";
  severity = "CRITICAL";
}

abbrev tfsec_out : TfsecOutput
tfsec_out = record { results = some (result ∷ []) }

abbrev advisory : YarnIssue
advisory = record {
  findings = "1.0.0" ∷ [];
  module_name = "lodash";
  vulnerable_versions = "<4.17.11";
  severity = "high";
  overview = "Prototype pollution";
  title = "Pollution";
}

abbrev advisories : List YarnIssue
advisories = advisory ∷ record advisory { severity = "low" } ∷ advisory ∷ []

yarn_report_counts_example :
    (all_total (yarn_loop no_output advisories) ≡ 3) × AllDistinct (yarn_loop no_output advisories)
yarn_report_counts_example = yarn_report_counts advisories

at-set_vulns_example :
    at high (output_of brakeman (set_vulns brakeman_scan no_run.husky_results))
    ≡ [] ++ at high brakeman_scan.vulnerabilities
unfolding prepare_container
at-set_vulns_example = at-set_vulns brakeman high brakeman_scan no_run.husky_results
