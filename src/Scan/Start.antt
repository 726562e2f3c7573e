-- ===== src/Scan/Start.antt =====
-- api/securitytest/securitytest.go: the table of the analysers, and `Start`.
use husky_ci.Base.{String, ◌==◌, Option, none, some, List, if◌then◌else◌, contains, ℤ}
use husky_ci.Scan.State.{ScanInfo, Decoded, Analyzed, fail_with, prepare_container}
use husky_ci.Scan.Gosec.{GosecOutput, analyze_gosec}
use husky_ci.Scan.Bandit.{BanditIssue, analyze_bandit}
use husky_ci.Scan.Brakeman.{BrakemanOutput, analyze_brakeman}
use husky_ci.Scan.Tfsec.{TfsecOutput, TrivyResult, analyze_tfsec, analyze_trivy}
use husky_ci.Scan.Safety.{SafetyOutput, analyze_safety}
use husky_ci.Scan.Gitleaks.{GitleaksIssue, analyze_gitleaks}
use husky_ci.Scan.SpotBugs.{SpotBugsOutput, analyze_spot_bugs}
use husky_ci.Scan.NpmAudit.{NpmIssue, analyze_npm_audit}
use husky_ci.Scan.YarnAudit.{YarnIssue, analyze_yarn_audit}
use husky_ci.Scan.SecurityCodeScan.{CodeScanResult, analyze_code_scan}
use husky_ci.Scan.Enry.{FileItem, analyze_enry, analyze_git_authors}

-- The decoders that the analysers call: encoding/json, encoding/xml and strconv.Atoi.
pub record Decoders : Type 0 where
  pub gosec : String → Decoded GosecOutput
  pub bandit : String → Decoded (List BanditIssue)
  pub brakeman : String → Decoded BrakemanOutput
  pub tfsec : String → Decoded TfsecOutput
  pub trivy : String → Decoded (List TrivyResult)
  pub safety : SafetyOutput → String → Decoded SafetyOutput
  pub gitleaks : String → Decoded (List GitleaksIssue)
  pub spot_bugs : String → Decoded SpotBugsOutput
  pub npm_audit : String → Decoded (List NpmIssue)
  pub yarn_audit : String → Decoded (List YarnIssue)
  pub code_scan : String → Decoded (List (List CodeScanResult))
  pub enry : String → Decoded (List (String × List FileItem))
  pub git_authors : String → Decoded (List String)
  pub atoi : String → Decoded ℤ

-- `securityTestAnalyze[name](scanInfo)`; `none` is a panic, also that of a missing entry.
unfoldable pub run_analyzer : Decoders → String → ScanInfo → Option Analyzed
run_analyzer d name s =
    if name == "bandit"
    then analyze_bandit d.bandit s
    else if name == "brakeman"
    then some (analyze_brakeman d.brakeman s)
    else if name == "enry"
    then analyze_enry d.enry s
    else if name == "gitauthors"
    then some (analyze_git_authors d.git_authors s)
    else if name == "gosec"
    then some (analyze_gosec d.gosec s)
    else if name == "npmaudit"
    then some (analyze_npm_audit d.npm_audit s)
    else if name == "yarnaudit"
    then some (analyze_yarn_audit d.yarn_audit s)
    else if name == "spotbugs"
    then some (analyze_spot_bugs d.atoi d.spot_bugs s)
    else if name == "gitleaks"
    then some (analyze_gitleaks d.gitleaks s)
    else if name == "safety"
    then analyze_safety d.safety s
    else if name == "tfsec"
    then some (analyze_tfsec d.tfsec s)
    else if name == "trivy"
    then some (analyze_trivy d.trivy s)
    else if name == "securitycodescan"
    then analyze_code_scan d.code_scan s
    else none

unfoldable pub analyze : Decoders → ScanInfo → Option Analyzed
analyze d s =
    if contains s.container.c_output "ERROR_CLONING"
    then some (fail_with s "error cloning")
    else run_analyzer d s.security_test_name s

-- What running the container gives: its id and its output, or an error.
pub data ContainerRun : Type 0 where
  ran : (cid c_output : String) → ContainerRun
  run_failed : String → ContainerRun

-- The value of HUSKYCI_INFRASTRUCTURE_USE, and the runs by Docker and by Kubernetes, which stand
-- for `dockerRun` and `kubeRun`.
pub record Infrastructure : Type 0 where
  pub selected : String
  pub docker_run : ScanInfo → ContainerRun
  pub kube_run : ScanInfo → ContainerRun

abbrev is_running : Infrastructure → ScanInfo → Option ContainerRun
is_running infra s =
    if infra.selected == "kubernetes"
    then some (infra.kube_run s)
    else if infra.selected == "docker"
    then some (infra.docker_run s)
    else none

-- The last step of `Start`: the error is kept, and the verdict is written.
abbrev closed : Analyzed → Analyzed
closed (s, none) = (prepare_container s, none)
closed (s, some err) = (prepare_container (record s { error_found = some err }), some err)

abbrev analyzed : Option Analyzed → Option Analyzed
analyzed none = none
analyzed (some r) = some (closed r)

abbrev with_run : ScanInfo → String → String → ScanInfo
with_run s cid output = record s { container = record s.container { cid = cid; c_output = output } }

-- `Start`
unfoldable pub start_scan : Decoders → Infrastructure → ScanInfo → Option Analyzed
unfolding analyze
start_scan d infra s = elim (is_running infra s) [
  | none ↦ analyzed (analyze d s)
  | some (run_failed err) ↦ some (closed (s, some err))
  | some (ran cid output) ↦ analyzed (analyze d (with_run s cid output))
]
