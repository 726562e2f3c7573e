-- ===== src/Scan/Brakeman.antt =====
-- api/securitytest/brakeman.go
use husky_ci.Base.{String, ◌==◌, Option, none, some, List, if◌then◌else◌, ℤ, itoa, ◌⧺◌}
use husky_ci.Types.{Vulnerability, no_vulnerability, TestOutput, no_output}
use husky_ci.Scan.Filing.{Level, no_sec, low, medium, high, file_all}
use husky_ci.Scan.State.{
  ScanInfo, Decoded, decoded, failed, Analyzed, conclude, fail_with, scan_error,
}

pub record WarningItem : Type 0 where
  pub warning_type : String
  pub code : String
  pub message : String
  pub file : String
  pub line : ℤ
  pub details : String
  pub confidence : String

pub record BrakemanOutput : Type 0 where
  pub warnings : List WarningItem
  pub ignored_warnings : List WarningItem

abbrev pub brakeman_vuln : WarningItem → Vulnerability
brakeman_vuln warning = record no_vulnerability {
  language = "Ruby";
  security_tool = "Brakeman";
  confidence = warning.confidence;
  file = warning.file;
  line = itoa warning.line;
  code = warning.code;
  details = warning.details;
  vuln_type = warning.warning_type;
  title = "Vulnerable Dependency: " ⧺ warning.warning_type ⧺ " " ⧺ warning.message;
}

abbrev pub brakeman_level : WarningItem → Option Level
brakeman_level warning =
    if warning.confidence == "High"
    then some high
    else if warning.confidence == "Medium"
    then some medium
    else if warning.confidence == "Low"
    then some low
    else none

abbrev pub ignored_vuln : WarningItem → Vulnerability
ignored_vuln warning = record (brakeman_vuln warning) { severity = "NOSEC" }

abbrev pub ignored_level : WarningItem → Option Level
ignored_level warning = some no_sec

unfoldable pub prepare_brakeman_vulns : BrakemanOutput → TestOutput
prepare_brakeman_vulns out =
    let found = file_all brakeman_level brakeman_vuln no_output out.warnings in
    file_all ignored_level ignored_vuln found out.ignored_warnings

unfoldable pub analyze_brakeman : (String → Decoded BrakemanOutput) → ScanInfo → Analyzed
analyze_brakeman unmarshal s =
    if s.container.c_output == "" then conclude s else elim (unmarshal s.container.c_output) [
      | failed err ↦ fail_with s (scan_error s err)
      | decoded out ↦ conclude (record s { vulnerabilities = prepare_brakeman_vulns out })
    ]
