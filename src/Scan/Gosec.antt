-- ===== src/Scan/Gosec.antt =====
-- api/securitytest/gosec.go
use husky_ci.Base.{
  ℕ, zero, suc, String, ◌==◌, Option, none, some, List, [], ◌∷◌, ◌++◌, if◌then◌else◌, ℤ, rounds,
}
use husky_ci.Types.{Vulnerability, no_vulnerability, TestOutput, no_output}
use husky_ci.Scan.Filing.{Level, low, medium, high, file_all}
use husky_ci.Scan.State.{
  ScanInfo, Decoded, decoded, failed, Analyzed, conclude, conclude_error, scan_error,
}

pub record GosecIssue : Type 0 where
  pub severity : String
  pub confidence : String
  pub rule_id : String
  pub details : String
  pub file : String
  pub code : String
  pub line : String

pub record GosecStats : Type 0 where
  pub files : ℤ
  pub lines : ℤ
  pub nosec : ℤ
  pub found : ℤ

pub record GosecOutput : Type 0 where
  pub gosec_issues : List GosecIssue
  pub gosec_stats : GosecStats

abbrev pub gosec_vuln : GosecIssue → Vulnerability
gosec_vuln issue = record no_vulnerability {
  language = "Go";
  security_tool = "GoSec";
  severity = issue.severity;
  confidence = issue.confidence;
  file = issue.file;
  line = issue.line;
  code = issue.code;
  details = issue.details;
  title = issue.details;
}

abbrev pub gosec_level : GosecIssue → Option Level
gosec_level issue =
    if issue.severity == "LOW"
    then some low
    else if issue.severity == "MEDIUM"
    then some medium
    else if issue.severity == "HIGH"
    then some high
    else none

-- The loop up to `GosecStats.Nosec`: each round appends an empty finding.
unfoldable pub add_nosec : ℕ → TestOutput → TestOutput
add_nosec zero out = out
add_nosec (suc n) out =
    add_nosec n (record out { no_sec_vulns = out.no_sec_vulns ++ no_vulnerability ∷ [] })

unfoldable pub prepare_gosec_vulns : GosecOutput → TestOutput
prepare_gosec_vulns out =
    add_nosec (rounds out.gosec_stats.nosec)
      (file_all gosec_level gosec_vuln no_output out.gosec_issues)

unfoldable pub analyze_gosec : (String → Decoded GosecOutput) → ScanInfo → Analyzed
analyze_gosec unmarshal s =
    if s.container.c_output == "" then conclude s else elim (unmarshal s.container.c_output) [
      | failed err ↦ conclude_error s (scan_error s err)
      | decoded out ↦ conclude (record s { vulnerabilities = prepare_gosec_vulns out })
    ]
