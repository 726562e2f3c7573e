-- ===== src/Run/Results.antt =====
-- api/securitytest/run.go: `RunAllInfo` and the functions that change it.
use husky_ci.Base.{
  String, ◌==◌, Bool, true, false, Option, none, some, List, [], ◌∷◌, if◌then◌else◌,
}
use husky_ci.Types.{Container, Code, Vulnerability, TestOutput, HuskyResults, no_results}
use husky_ci.Scan.State.{ScanInfo}
use husky_ci.Scan.Filing.{Level, no_sec, low, medium, high, push}

pub record RunAllInfo : Type 0 where
  pub rid : String
  pub status : String
  pub containers : List Container
  pub commit_authors : List String
  pub codes : List Code
  pub final_result : String
  pub error_found : Option String
  pub husky_results : HuskyResults

-- `RunAllInfo{}`
abbrev pub no_run : RunAllInfo
no_run = record {
  rid = "";
  status = "";
  containers = [];
  commit_authors = [];
  codes = [];
  final_result = "";
  error_found = none;
  husky_results = no_results;
}

-- The tools whose findings the results of an analysis have a field for.
pub data Tool : Type 0 where
  gosec bandit safety npmaudit yarnaudit brakeman spotbugs gitleaks trivy tfsec securitycodescan :
      Tool

-- The `switch` on the name of the security test.
unfoldable pub tool_case : String → Option Tool
tool_case name =
    if name == "bandit"
    then some bandit
    else if name == "brakeman"
    then some brakeman
    else if name == "safety"
    then some safety
    else if name == "gosec"
    then some gosec
    else if name == "npmaudit"
    then some npmaudit
    else if name == "yarnaudit"
    then some yarnaudit
    else if name == "spotbugs"
    then some spotbugs
    else if name == "gitleaks"
    then some gitleaks
    else if name == "tfsec"
    then some tfsec
    else if name == "securitycodescan"
    then some securitycodescan
    else none

abbrev pub output_of : Tool → HuskyResults → TestOutput
output_of gosec r = r.gosec_output
output_of bandit r = r.bandit_output
output_of safety r = r.safety_output
output_of npmaudit r = r.npm_audit_output
output_of yarnaudit r = r.yarn_audit_output
output_of brakeman r = r.brakeman_output
output_of spotbugs r = r.spot_bugs_output
output_of gitleaks r = r.gitleaks_output
output_of trivy r = r.trivy_output
output_of tfsec r = r.tfsec_output
output_of securitycodescan r = r.security_code_scan_output

abbrev pub set_output : Tool → TestOutput → HuskyResults → HuskyResults
set_output gosec o r = record r { gosec_output = o }
set_output bandit o r = record r { bandit_output = o }
set_output safety o r = record r { safety_output = o }
set_output npmaudit o r = record r { npm_audit_output = o }
set_output yarnaudit o r = record r { yarn_audit_output = o }
set_output brakeman o r = record r { brakeman_output = o }
set_output spotbugs o r = record r { spot_bugs_output = o }
set_output gitleaks o r = record r { gitleaks_output = o }
set_output trivy o r = record r { trivy_output = o }
set_output tfsec o r = record r { tfsec_output = o }
set_output securitycodescan o r = record r { security_code_scan_output = o }

abbrev push_case : Option Tool → Level → Vulnerability → HuskyResults → HuskyResults
push_case none l v r = r
push_case (some t) l v r = set_output t (push l v (output_of t r)) r

-- One round of a loop of `setVulns`: a name without a case changes nothing.
unfoldable pub add_vuln : String → Level → Vulnerability → HuskyResults → HuskyResults
add_vuln name = push_case (tool_case name)

-- One of the four loops of `setVulns`.
unfoldable pub add_vulns : String → Level → List Vulnerability → HuskyResults → HuskyResults
add_vulns name l [] r = r
add_vulns name l (v ∷ vs) r = add_vulns name l vs (add_vuln name l v r)

unfoldable pub set_vulns : ScanInfo → HuskyResults → HuskyResults
set_vulns scan r =
    let name = scan.security_test_name in
    let r₁ = add_vulns name high scan.vulnerabilities.high_vulns r in
    let r₂ = add_vulns name medium scan.vulnerabilities.medium_vulns r₁ in
    let r₃ = add_vulns name low scan.vulnerabilities.low_vulns r₂ in
    add_vulns name no_sec scan.vulnerabilities.no_sec_vulns r₃

unfoldable pub set_analysis_error : String → RunAllInfo → RunAllInfo
set_analysis_error err run = record run {
  error_found = some err;
  status = "error running";
  final_result = "error";
}

-- The loop of `setToAnalysis`, with the result so far and `jsWarningFlag`.
unfoldable pub verdict_loop : String → Bool → List Container → String
verdict_loop result flag [] = result
verdict_loop result flag (c ∷ cs) =
    let js = c.security_test.language == "JavaScript" in
    let warned =
      if js
      then verdict_loop (if flag then "warning" else result) true cs
      else verdict_loop "warning" flag cs in
    let other = verdict_loop result flag cs in
    if c.c_result == "warning" then warned else if c.c_result == "failed" then "failed" else other

unfoldable pub set_to_analysis : RunAllInfo → RunAllInfo
set_to_analysis run = elim run.error_found [
  | some err ↦ record run { status = "error running"; final_result = "error" }
  | none ↦ record run {
    status = "finished";
    final_result = verdict_loop "passed" false run.containers;
  }
]

-- The loop of `setFinalResult`, which stops at the first failed container.
unfoldable pub all_passed : List Container → Bool
all_passed [] = true
all_passed (c ∷ cs) = let rest = all_passed cs in if c.c_result == "failed" then false else rest

unfoldable pub set_final_result : RunAllInfo → RunAllInfo
unfolding all_passed
set_final_result run = record run {
  final_result = if all_passed run.containers then "passed" else "failed";
}
