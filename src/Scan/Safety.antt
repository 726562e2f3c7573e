-- ===== src/Scan/Safety.antt =====
-- api/securitytest/safety.go; `GetLastLine`, `GetAllLinesButLast`, `SanitizeSafetyJSON` and
-- `AdjustWarningMessage` of api/util/util.go.
use husky_ci.Base.{
  String, ◌==◌, Bool, true, false, Option, none, some, List, [], ◌∷◌, if◌then◌else◌, ◌⧺◌, contains,
  split, scan_lines, replace_all, is_empty,
}
use husky_ci.Types.{Vulnerability, no_vulnerability, TestOutput, no_output}
use husky_ci.Scan.Filing.{Level, low, high, push, file_all}
use husky_ci.Scan.State.{
  ScanInfo, Decoded, decoded, failed, Analyzed, conclude, conclude_error, scan_error,
}

pub record SafetyIssue : Type 0 where
  pub dependency : String
  pub below : String
  pub version : String
  pub comment : String
  pub id : String

pub record SafetyOutput : Type 0 where
  pub safety_issues : List SafetyIssue
  pub req_not_found : Bool
  pub warning_found : Bool
  pub output_warnings : List String

abbrev pub no_safety_output : SafetyOutput
no_safety_output = record {
  safety_issues = [];
  req_not_found = false;
  warning_found = false;
  output_warnings = [];
}

abbrev last : List String → Option String
last [] = none
last (l ∷ []) = some l
last (l ∷ m ∷ ls) = last (m ∷ ls)

abbrev but_last : List String → Option (List String)
but_last [] = none
but_last (l ∷ []) = some []
but_last (l ∷ m ∷ ls) = elim (but_last (m ∷ ls)) [ none ↦ none | some ks ↦ some (l ∷ ks) ]

-- `none` is the panic of `lines[len(lines)-1]` on no lines.
unfoldable pub get_last_line : String → Option String
get_last_line s = if s == "" then some "" else last (scan_lines s)

unfoldable pub get_all_lines_but_last : String → Option (List String)
get_all_lines_but_last s = if s == "" then some [] else but_last (scan_lines s)

unfoldable pub sanitize_safety_json : String → String
unfolding replace_all
sanitize_safety_json s =
    if s == "" then "" else replace_all (replace_all s "\\" "\\\\") "\\\"" "\\\\\""

abbrev adjusted : String → String
adjusted text =
    replace_all
      (replace_all text "safety_huskyci_analysis_requirements_raw.txt" "'requirements.txt'")
      " unpinned" "Unpinned"
    ⧺ " huskyCI can check it if you pin it in a format such as this: \"mypacket==3.2.9\" :D"

abbrev second_part : String → List String → String
second_part raw (first ∷ text ∷ more) = adjusted text
second_part raw _ = raw

unfoldable pub adjust_warning_message : String → String
unfolding split replace_all
adjust_warning_message raw = second_part raw (split raw b':')

abbrev req_not_found_vuln : Vulnerability
req_not_found_vuln = record no_vulnerability {
  language = "Python";
  security_tool = "Safety";
  severity = "low";
  details =
      "It looks like your project doesn't have a requirements.txt file. huskyCI was not able to run safety properly.";
  title = "No requirements.txt found.";
}

abbrev warning_vuln : String → Vulnerability
warning_vuln warning = record no_vulnerability {
  language = "Python";
  security_tool = "Safety";
  severity = "low";
  details = adjust_warning_message warning;
  title = "Safety scan warning.";
}

abbrev pub safety_vuln : SafetyIssue → Vulnerability
safety_vuln issue = record no_vulnerability {
  language = "Python";
  security_tool = "Safety";
  severity = "high";
  code = issue.dependency ⧺ " " ⧺ issue.version;
  details = issue.comment;
  title = "Vulnerable Dependency: " ⧺ issue.dependency ⧺ " (" ⧺ issue.below ⧺ ")";
  vunerable_below = issue.below;
}

abbrev warning_level : String → Option Level
warning_level warning = some low

abbrev pub issue_level : SafetyIssue → Option Level
issue_level issue = some high

-- The first argument is `safetyScan.ReqNotFound`.
unfoldable pub prepare_safety_vulns : Bool → SafetyOutput → TestOutput
prepare_safety_vulns req_not_found out =
    let warned = file_all warning_level warning_vuln no_output out.output_warnings in
    if req_not_found
    then push low req_not_found_vuln no_output
    else if out.warning_found
    then (if is_empty out.safety_issues
        then warned
        else file_all issue_level safety_vuln warned out.safety_issues)
    else file_all issue_level safety_vuln no_output out.safety_issues

abbrev pub with_output : ScanInfo → String → ScanInfo
with_output s text = record s { container = record s.container { c_output = text } }

-- The output is sanitized, decoded over `into`, and filed.
abbrev decode_safety :
    (SafetyOutput → String → Decoded SafetyOutput) → SafetyOutput → ScanInfo → Analyzed
decode_safety unmarshal into scan =
    let s = with_output scan (sanitize_safety_json scan.container.c_output) in
    elim (unmarshal into s.container.c_output) [
      | failed err ↦ conclude_error s (scan_error s err)
      | decoded out ↦
          conclude (record s { vulnerabilities = prepare_safety_vulns s.req_not_found out })
    ]

-- `unmarshal into text` decodes over the fields that `into` has already. `none` is a panic.
unfoldable pub analyze_safety :
    (SafetyOutput → String → Decoded SafetyOutput) → ScanInfo → Option Analyzed
unfolding contains
analyze_safety unmarshal s =
    let output = s.container.c_output in
    if contains output "ERROR_RUNNING_SAFETY"
    then some (conclude_error s "internal error safety - ERROR_RUNNING_SAFETY")
    else if contains output "ERROR_REQ_NOT_FOUND"
    then some (
        conclude (record s {
          req_not_found = true;
          vulnerabilities = prepare_safety_vulns true no_safety_output;
        }))
    else if contains output "Warning: unpinned requirement "
    then elim (get_last_line output) [
      | none ↦ none
      | some json ↦ elim (get_all_lines_but_last output) [
        | none ↦ none
        | some warnings ↦ some (
            decode_safety unmarshal (record no_safety_output { output_warnings = warnings })
              (record (with_output s json) { warning_found = true }))
      ]
    ]
    else some (decode_safety unmarshal no_safety_output s)
