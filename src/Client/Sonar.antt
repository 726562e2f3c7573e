-- ===== src/Client/Sonar.antt =====
-- client/integration/sonarqube/sonarqube.go: the output for SonarQube.
use Prim.Native.String
use husky_ci.Base.{
  ℕ, zero, suc, ℤ, pos, negsuc, String, ◌==◌, not, ◌&&◌, List, [], ◌∷◌, ◌++◌, if◌then◌else◌,
  has_prefix, ◌⧺◌,
}
use husky_ci.Base.Reply.{Reply, found, refused}
use husky_ci.Types.{Vulnerability, TestOutput, HuskyResults}
use husky_ci.Input.{slice_contains}

pub record SonarRule : Type 0 where
  pub id : String
  pub name : String
  pub description : String
  pub engine_id : String
  pub severity : String
  pub impact_severity : String

pub record SonarIssue : Type 0 where
  pub rule_id : String
  pub message : String
  pub file_path : String
  pub start_line : ℕ

pub record SonarOutput : Type 0 where
  pub rules : List SonarRule
  pub issues : List SonarIssue

-- `strings.ToLower`, `strconv.Atoi` and `filepath.Join`.
pub record Library : Type 0 where
  pub to_lower : String → String
  pub atoi : String → Reply ℤ
  pub join : String → String → String

-- The three lists of a tool, as they are appended.
abbrev pub leveled : TestOutput → List Vulnerability
leveled out = out.low_vulns ++ (out.medium_vulns ++ out.high_vulns)

-- `allVulns`
unfoldable pub all_vulns : HuskyResults → List Vulnerability
all_vulns r =
    leveled r.gosec_output
    ++ (r.bandit_output.no_sec_vulns
        ++ (leveled r.bandit_output
            ++ (leveled r.safety_output
                ++ (leveled r.brakeman_output
                    ++ (leveled r.npm_audit_output
                        ++ (leveled r.yarn_audit_output
                            ++ (leveled r.gitleaks_output
                                ++ (leveled r.trivy_output
                                    ++ (leveled r.spot_bugs_output
                                        ++ leveled r.security_code_scan_output)))))))))

abbrev pub no_details : String
no_details = "No details provided for this vulnerability."

-- `getMessage`
unfoldable pub get_message : String → String
get_message details = if details == "" then no_details else details

-- `mapRuleSeverity`
unfoldable pub map_rule_severity : Library → String → String
map_rule_severity l severity =
    let s = l.to_lower severity in
    if s == "low"
    then "MINOR"
    else if s == "medium"
    then "MAJOR"
    else if s == "high"
    then "BLOCKER"
    else "INFO"

-- `mapImpactSeverity`
unfoldable pub map_impact_severity : Library → String → String
map_impact_severity l severity =
    let s = l.to_lower severity in
    if s == "low"
    then "LOW"
    else if s == "medium"
    then "MEDIUM"
    else if s == "high"
    then "HIGH"
    else "INFO"

-- `strings.Replace(s, old, "", 1)`
remove_first : String → String → String
remove_first String.[] old = String.[]
remove_first (String.◌∷◌ c s) old =
    let later : String = String.◌∷◌ c (remove_first s old) in
    if has_prefix (String.◌∷◌ c s) old
    then Prim.Native.String.slice (String.◌∷◌ c s) (Prim.Native.String.len old)
        (Prim.Native.String.len (String.◌∷◌ c s))
    else later

-- `getFilePath`; the placeholder file is written too, and an error of that makes no difference.
unfoldable pub get_file_path : Library → Vulnerability → (output_path : String) → String
unfolding remove_first
get_file_path l v output_path =
    if v.file == ""
    then l.join output_path "huskyCI_Placeholder_File"
    else if v.language == "Go"
    then remove_first v.file "/go/src/code/"
    else v.file

abbrev pub positive_or_one : Reply ℤ → ℕ
positive_or_one (refused err) = 1
positive_or_one (found (pos zero)) = 1
positive_or_one (found (pos (suc n))) = suc n
positive_or_one (found (negsuc n)) = 1

-- `getStartLine`
unfoldable pub get_start_line : Library → String → ℕ
get_start_line l line = positive_or_one (l.atoi line)

unfoldable pub rule_name : Vulnerability → String
rule_name v = if v.title == "" then v.security_tool else v.title

unfoldable pub rule_id_of : Vulnerability → String
unfolding rule_name
rule_id_of v = v.language ⧺ " - " ⧺ rule_name v

unfoldable pub rule_of : Library → Vulnerability → SonarRule
unfolding rule_id_of rule_name get_message map_rule_severity map_impact_severity
rule_of l v = record {
  id = rule_id_of v;
  name = rule_name v;
  description = get_message v.details;
  engine_id = "huskyCI/" ⧺ v.security_tool;
  severity = map_rule_severity l v.severity;
  impact_severity = map_impact_severity l v.severity;
}

abbrev pub issue_message : Vulnerability → String
issue_message v =
    if get_message v.details == no_details && not (v.version == "")
    then v.version
    else get_message v.details

unfoldable pub issue_of : Library → (output_path : String) → Vulnerability → SonarIssue
unfolding rule_id_of get_message get_file_path get_start_line
issue_of l output_path v = record {
  rule_id = rule_id_of v;
  message = issue_message v;
  file_path = get_file_path l v output_path;
  start_line = get_start_line l v.line;
}

-- The loop over `allVulns`; `seen` are the keys of `ruleMap`.
unfoldable pub sonar_loop :
    Library → String → List String → SonarOutput → List Vulnerability → SonarOutput
sonar_loop l path seen out [] = out
sonar_loop l path seen out (v ∷ vs) =
    let again =
      sonar_loop l path seen (record out { issues = out.issues ++ issue_of l path v ∷ [] }) vs in
    let first =
      sonar_loop l path (rule_id_of v ∷ seen)
        (record {
          rules = out.rules ++ rule_of l v ∷ [];
          issues = out.issues ++ issue_of l path v ∷ [];
        })
        vs in
    if slice_contains seen (rule_id_of v) then again else first

-- `GenerateOutputFile`, up to the writing of the JSON text.
unfoldable pub sonar_output : Library → (output_path : String) → HuskyResults → SonarOutput
unfolding sonar_loop all_vulns
sonar_output l path r = sonar_loop l path [] (record { rules = []; issues = [] }) (all_vulns r)
