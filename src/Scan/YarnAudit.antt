-- ===== src/Scan/YarnAudit.antt =====
-- api/securitytest/yarnaudit.go
pub mod Occurrences
use husky_ci.Base.{
  ℕ, suc, ◌+◌, String, ◌==◌, Bool, true, false, ◌||◌, ◌&&◌, not, Option, none, some, List, [], ◌∷◌,
  ◌++◌, if◌then◌else◌, ◌⧺◌, contains,
}
use husky_ci.Types.{Vulnerability, no_vulnerability, TestOutput, no_output}
use husky_ci.Scan.Filing.{Level, low, medium, high, push}
use husky_ci.Scan.State.{
  ScanInfo, Decoded, decoded, failed, Analyzed, conclude, conclude_error, scan_error,
}

-- `YarnIssue`; of each finding only the version is there.
pub record YarnIssue : Type 0 where
  pub findings : List String
  pub module_name : String
  pub vulnerable_versions : String
  pub severity : String
  pub overview : String
  pub title : String

-- The version of the last finding.
abbrev last_version : String → List String → String
last_version version [] = version
last_version version (v ∷ vs) = last_version v vs

abbrev pub yarn_vuln : YarnIssue → Vulnerability
yarn_vuln issue = record no_vulnerability {
  language = "JavaScript";
  security_tool = "YarnAudit";
  code = issue.module_name;
  details = issue.overview;
  title =
      "Vulnerable Dependency: " ⧺ issue.module_name ⧺ " " ⧺ issue.vulnerable_versions ⧺ " ("
      ⧺ issue.title ⧺ ")";
  vunerable_below = issue.vulnerable_versions;
  version = last_version "" issue.findings;
  occurrences = 1;
}

abbrev pub same_finding : Vulnerability → Vulnerability → Bool
same_finding v w = v.details == w.details && v.code == w.code

abbrev pub bump : Vulnerability → Vulnerability
bump v = record v { occurrences = v.occurrences + 1 }

-- `vulnListContains`: whether the finding is in the list, and the list that it leaves behind, where
-- the first entry like it has one more occurrence.
unfoldable pub vuln_list_contains : List Vulnerability → Vulnerability → Bool × List Vulnerability
vuln_list_contains [] v = (false, [])
vuln_list_contains (w ∷ ws) v =
    let (found, ws') = vuln_list_contains ws v in
    if same_finding w v then (true, bump w ∷ ws) else (found, w ∷ ws')

-- `if !vulnListContains(list, v) { list = append(list, v) }`
unfoldable pub record_finding : List Vulnerability → Vulnerability → List Vulnerability
unfolding vuln_list_contains
record_finding vs v =
    let (found, vs') = vuln_list_contains vs v in if found then vs' else vs' ++ v ∷ []

unfoldable pub yarn_step : TestOutput → YarnIssue → TestOutput
yarn_step out issue =
    if issue.severity == "info" || issue.severity == "low"
    then record out {
      low_vulns = record_finding out.low_vulns (record (yarn_vuln issue) { severity = "low" });
    }
    else if issue.severity == "moderate"
    then record out {
      medium_vulns =
          record_finding out.medium_vulns (record (yarn_vuln issue) { severity = "medium" });
    }
    else if issue.severity == "high" || issue.severity == "critical"
    then record out {
      high_vulns = record_finding out.high_vulns (record (yarn_vuln issue) { severity = "high" });
    }
    else out

unfoldable pub yarn_loop : TestOutput → List YarnIssue → TestOutput
unfolding yarn_step
yarn_loop out [] = out
yarn_loop out (issue ∷ issues) = yarn_loop (yarn_step out issue) issues

abbrev notice : String → String → Vulnerability
notice title details = record no_vulnerability {
  language = "JavaScript";
  security_tool = "YarnAudit";
  severity = "low";
  details = details;
  title = title;
}

unfoldable pub prepare_yarn_audit_vulns : ScanInfo → List YarnIssue → TestOutput
unfolding yarn_loop
prepare_yarn_audit_vulns s issues =
    if s.yarn_lock_not_found
    then push low
        (notice "No yarn.lock found."
          "It looks like your project doesn't have a yarn.lock file. If you use Yarn to handle your dependencies, it would be a good idea to commit it so huskyCI can check for vulnerabilities.")
        s.vulnerabilities
    else if s.yarn_error_running
    then push low (notice "Error while running yarn audit scan." "Yarn returned an error")
        s.vulnerabilities
    else yarn_loop no_output issues

abbrev prepared : ScanInfo → List YarnIssue → ScanInfo
prepared s issues = record s { vulnerabilities = prepare_yarn_audit_vulns s issues }

unfoldable pub analyze_yarn_audit : (String → Decoded (List YarnIssue)) → ScanInfo → Analyzed
analyze_yarn_audit unmarshal s =
    let output = s.container.c_output in
    if contains output "ERROR_YARN_LOCK_NOT_FOUND"
    then conclude (prepared (record s { yarn_lock_not_found = true }) [])
    else if contains output "ERROR_RUNNING_YARN_AUDIT"
    then conclude (prepared (record s { yarn_error_running = true }) [])
    else if output == ""
    then conclude s
    else elim (unmarshal output) [
      | failed err ↦ conclude_error s (scan_error s err)
      | decoded issues ↦ conclude (prepared s issues)
    ]
