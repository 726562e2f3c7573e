-- ===== src/Scan/Tfsec.antt =====
-- api/securitytest/tfsec.go and api/securitytest/trivy.go
use husky_ci.Base.{String, ◌==◌, Option, none, some, List, [], ◌∷◌, if◌then◌else◌, ℤ, itoa, ◌⧺◌}
use husky_ci.Types.{Vulnerability, no_vulnerability, TestOutput, no_output}
use husky_ci.Scan.Filing.{Level, low, medium, high, file_all}
use husky_ci.Scan.State.{
  ScanInfo, Decoded, decoded, failed, Analyzed, conclude, fail_with, scan_error,
}

pub record TfsecResult : Type 0 where
  pub rule_id : String
  pub link : String
  pub filename : String
  pub start_line : ℤ
  pub end_line : ℤ
  pub description : String
  pub severity : String

-- `Results`, `none` where the slice is nil.
pub record TfsecOutput : Type 0 where
  pub results : Option (List TfsecResult)

abbrev pub tfsec_level : TfsecResult → Option Level
tfsec_level result =
    if result.severity == "LOW"
    then some low
    else if result.severity == "MEDIUM"
    then some medium
    else if result.severity == "HIGH"
    then some high
    else none

-- The severity as the switch rewrites it.
abbrev tfsec_severity : String → String
tfsec_severity severity =
    if severity == "LOW"
    then "Low"
    else if severity == "MEDIUM"
    then "Medium"
    else if severity == "HIGH"
    then "High"
    else severity

abbrev pub tfsec_vuln : TfsecResult → Vulnerability
tfsec_vuln result = record no_vulnerability {
  language = "HCL";
  security_tool = "TFSec";
  severity = tfsec_severity result.severity;
  file = result.filename;
  line = itoa result.start_line;
  code = "Code beetween Line " ⧺ itoa result.start_line ⧺ " and Line " ⧺ itoa result.end_line ⧺ ".";
  details = result.rule_id ⧺ " @ [" ⧺ result.description ⧺ "]";
  title = result.description;
}

unfoldable pub prepare_tfsec_vulns : List TfsecResult → TestOutput
prepare_tfsec_vulns results = file_all tfsec_level tfsec_vuln no_output results

abbrev with_results : ScanInfo → Option (List TfsecResult) → Analyzed
with_results s none = conclude s
with_results s (some results) =
    conclude (record s { vulnerabilities = prepare_tfsec_vulns results })

abbrev with_output : ScanInfo → Decoded TfsecOutput → Analyzed
with_output s (failed err) = fail_with s (scan_error s err)
with_output s (decoded out) = with_results s out.results

unfoldable pub analyze_tfsec : (String → Decoded TfsecOutput) → ScanInfo → Analyzed
analyze_tfsec unmarshal s = with_output s (unmarshal s.container.c_output)

-- trivy.go: an entry of `Vulnerabilities` of a result.
pub record TrivyVulnerability : Type 0 where
  pub vulnerability_id : String
  pub pkg_name : String
  pub severity : String
  pub description : String

pub record TrivyResult : Type 0 where
  pub target : String
  pub vulnerabilities : List TrivyVulnerability

abbrev pub trivy_level : TrivyVulnerability → Option Level
trivy_level vuln =
    if vuln.severity == "LOW"
    then some low
    else if vuln.severity == "MEDIUM"
    then some medium
    else if vuln.severity == "HIGH"
    then some high
    else none

abbrev pub trivy_vuln : String → TrivyVulnerability → Vulnerability
trivy_vuln target vuln = record no_vulnerability {
  language = "generic";
  security_tool = "Trivy";
  severity = vuln.severity;
  file = target;
  details = vuln.description;
  title = vuln.vulnerability_id;
}

unfoldable pub prepare_trivy_vulns : TestOutput → List TrivyResult → TestOutput
prepare_trivy_vulns out [] = out
prepare_trivy_vulns out (result ∷ results) =
    prepare_trivy_vulns (file_all trivy_level (trivy_vuln result.target) out result.vulnerabilities)
      results

unfoldable pub analyze_trivy : (String → Decoded (List TrivyResult)) → ScanInfo → Analyzed
analyze_trivy unmarshal s = elim (unmarshal s.container.c_output) [
  | failed err ↦ fail_with s err
  | decoded results ↦ (record s { vulnerabilities = prepare_trivy_vulns no_output results }, none)
]
