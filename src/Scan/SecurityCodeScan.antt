-- ===== src/Scan/SecurityCodeScan.antt =====
-- api/securitytest/securitycodescan.go
use husky_ci.Base.{
  String, ◌==◌, true, Option, none, some, List, [], ◌∷◌, if◌then◌else◌, ◌⧺◌, contains, ℤ, itoa,
  split_text,
}
use husky_ci.Types.{Vulnerability, no_vulnerability, TestOutput, no_output}
use husky_ci.Scan.Filing.{Level, low, medium, high, push, file_all}
use husky_ci.Scan.State.{
  ScanInfo, Decoded, decoded, failed, Analyzed, conclude, fail_with, scan_error,
}

pub record Location : Type 0 where
  pub uri : String
  pub start_line : ℤ
  pub end_line : ℤ

pub record CodeScanResult : Type 0 where
  pub rule_id : String
  pub level : String
  pub message : String
  pub locations : List Location

-- The path behind the first "code/", or the whole path.
abbrev second_part : String → List String → String
second_part uri (before ∷ path ∷ more) = path
second_part uri _ = uri

abbrev located : Vulnerability → List Location → Vulnerability
located v [] = v
located v (l ∷ ls) = record v {
  file = second_part l.uri (split_text l.uri "code/");
  line = itoa l.start_line;
  code = "Code beetween Line " ⧺ itoa l.start_line ⧺ " and Line " ⧺ itoa l.end_line ⧺ ".";
}

abbrev pub code_scan_level : CodeScanResult → Option Level
code_scan_level result =
    if result.level == "recommendation"
    then some low
    else if result.level == "warning"
    then some medium
    else if result.level == "error"
    then some high
    else none

abbrev severity_name : String → String
severity_name level =
    if level == "recommendation"
    then "Low"
    else if level == "warning"
    then "Medium"
    else if level == "error"
    then "High"
    else level

abbrev pub code_scan_vuln : CodeScanResult → Vulnerability
code_scan_vuln result =
    located
      (record no_vulnerability {
        language = "C#";
        security_tool = "Security Code Scan";
        severity = severity_name result.level;
        details = result.message;
        title = result.rule_id;
      })
      result.locations

abbrev running_vuln : Vulnerability
running_vuln = record no_vulnerability {
  language = "C#";
  security_tool = "Security Code Scan";
  severity = "low";
  details =
      "It looks like huskyCI could not run 'security-scan' on your project. No .sln file was found on your project or an unknown file extension was loaded on your .sln file.";
  title = "Error running Security Code Scan Tool.";
}

-- The results of the runs; `none` is the panic of `Runs[0]` on no runs.
unfoldable pub prepare_code_scan_vulns : List (List CodeScanResult) → Option TestOutput
prepare_code_scan_vulns [] = none
prepare_code_scan_vulns (results ∷ runs) =
    some (file_all code_scan_level code_scan_vuln no_output results)

abbrev scanned : ScanInfo → Option TestOutput → Option Analyzed
scanned s none = none
scanned s (some out) = some (conclude (record s { vulnerabilities = out }))

-- The results of the runs decide whether there is anything to prepare.
abbrev after_decoding : ScanInfo → List (List CodeScanResult) → Option Analyzed
after_decoding s ([] ∷ runs) = some (conclude s)
after_decoding s runs = scanned s (prepare_code_scan_vulns runs)

unfoldable pub analyze_code_scan :
    (String → Decoded (List (List CodeScanResult))) → ScanInfo → Option Analyzed
unfolding prepare_code_scan_vulns contains
analyze_code_scan unmarshal s =
    if contains s.container.c_output "ERROR_SECURITY_CODE_SCAN_RUNNING"
    then some (
        conclude (record s {
          security_code_scan_error_running = true;
          vulnerabilities = push low running_vuln s.vulnerabilities;
        }))
    else elim (unmarshal s.container.c_output) [
      | failed err ↦ some (fail_with s (scan_error s err))
      | decoded runs ↦ after_decoding s runs
    ]
