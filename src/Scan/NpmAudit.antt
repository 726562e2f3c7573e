-- ===== src/Scan/NpmAudit.antt =====
-- api/securitytest/npmaudit.go
use husky_ci.Base.{
  ℕ, String, ◌==◌, true, ◌||◌, ◌&&◌, not, Option, none, some, List, [], ◌∷◌, if◌then◌else◌, ◌⧺◌,
  contains, itoa, pos, ◌+◌,
}
use husky_ci.Types.{Vulnerability, no_vulnerability, TestOutput, no_output}
use husky_ci.Scan.Filing.{Level, low, medium, high, push, file_all}
use husky_ci.Scan.State.{
  ScanInfo, Decoded, decoded, failed, Analyzed, conclude, conclude_error, scan_error,
}

-- `Vulnerability` of npmaudit.go, with the texts of `Via` and of `FixAvailable`.
pub record NpmIssue : Type 0 where
  pub via : List String
  pub name : String
  pub vulnerable_versions : String
  pub severity : String
  pub fix_available : String
  pub title : String

-- The loop over `issue.Via`, from the index `i`.
unfoldable pub via_text : ℕ → List String → String
via_text i [] = ""
via_text i (via ∷ more) =
    "Advisories and information (Via " ⧺ itoa (pos i) ⧺ "):\n" ⧺ via ⧺ "\n" ⧺ via_text (i + 1) more

abbrev pub npm_level : NpmIssue → Option Level
npm_level issue =
    if issue.severity == "info" || issue.severity == "low"
    then some low
    else if issue.severity == "moderate"
    then some medium
    else if issue.severity == "high" || issue.severity == "critical"
    then some high
    else none

-- The severity that each case of the switch writes.
abbrev pub level_name : Option Level → String
level_name (some low) = "low"
level_name (some medium) = "medium"
level_name (some high) = "high"
level_name _ = ""

abbrev pub npm_vuln : NpmIssue → Vulnerability
npm_vuln issue = record no_vulnerability {
  language = "JavaScript";
  security_tool = "NpmAudit";
  severity = level_name (npm_level issue);
  code = issue.name;
  details =
      if not (issue.fix_available == "true") && not (issue.fix_available == "false")
      then issue.fix_available
      else "";
  title =
      "Vulnerable Dependency: " ⧺ issue.name ⧺ " " ⧺ issue.vulnerable_versions ⧺ " (" ⧺ issue.title
      ⧺ ")";
  vunerable_below = issue.vulnerable_versions;
  version = via_text 0 issue.via;
}

abbrev package_vuln : Vulnerability
package_vuln = record no_vulnerability {
  language = "JavaScript";
  security_tool = "NpmAudit";
  severity = "low";
  details =
      "It looks like your project doesn't have a package-lock.json file. If you use NPM to handle your dependencies, it would be a good idea to commit it so huskyCI can check for vulnerabilities.";
  title = "No package-lock.json found.";
}

-- The issues are in the order in which the loop visits the map.
unfoldable pub prepare_npm_audit_vulns : ScanInfo → List NpmIssue → TestOutput
prepare_npm_audit_vulns s issues =
    if s.package_not_found
    then push low package_vuln s.vulnerabilities
    else file_all npm_level npm_vuln no_output issues

abbrev prepared : ScanInfo → List NpmIssue → ScanInfo
prepared s issues = record s { vulnerabilities = prepare_npm_audit_vulns s issues }

unfoldable pub analyze_npm_audit : (String → Decoded (List NpmIssue)) → ScanInfo → Analyzed
analyze_npm_audit unmarshal s =
    let output = s.container.c_output in
    if contains output "ERROR_PACKAGE_LOCK_NOT_FOUND"
    then conclude (prepared (record s { package_not_found = true }) [])
    else if output == ""
    then conclude s
    else elim (unmarshal output) [
      | failed err ↦ conclude_error s (scan_error s err)
      | decoded issues ↦ conclude (prepared s issues)
    ]
