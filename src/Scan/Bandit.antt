-- ===== src/Scan/Bandit.antt =====
-- api/securitytest/bandit.go; `CountDigits`, `banditCase` and `VerifyNoHusky` of api/util/util.go.
use Prim.Native.String.{len, slice}
use husky_ci.Base.{
  ℕ, zero, suc, ◌/◌, String, ◌==◌, Bool, true, false, ◌&&◌, Option, none, some, List, [], ◌∷◌, eqb,
  ltb, if◌then◌else◌, ℤ, pos, negsuc, itoa, split, contains, is_empty,
}
use husky_ci.Types.{Vulnerability, no_vulnerability, TestOutput, no_output}
use husky_ci.Scan.Filing.{Level, no_sec, low, medium, high, file_at}
use husky_ci.Scan.State.{
  ScanInfo, Decoded, decoded, failed, Analyzed, conclude, fail_with, scan_error,
}

-- `Result` of bandit.go
pub record BanditIssue : Type 0 where
  pub code : String
  pub filename : String
  pub issue_confidence : String
  pub issue_severity : String
  pub issue_text : String
  pub line_number : ℤ
  pub line_range : List ℤ
  pub test_id : String
  pub test_name : String

-- The loop of `CountDigits`; Go's division rounds towards zero, so the sign does not matter.
count_digits_from : ℕ → ℕ → ℕ
count_digits_from zero i = 0
count_digits_from (suc fuel) i =
    let rest = suc (count_digits_from fuel (i / 10)) in if eqb i 0 then 0 else rest

unfoldable pub count_digits : ℤ → ℕ
unfolding count_digits_from
count_digits (pos n) = count_digits_from (suc n) n
count_digits (negsuc n) = count_digits_from (suc (suc n)) (suc n)

-- The loop of `banditCase`; `none` is the run-time panic of `codeLine[:lineNumberLength]`.
bandit_lines : ℕ → String → List String → Option Bool
bandit_lines width number [] = some false
bandit_lines width number (code_line ∷ rest) =
    let later = bandit_lines width number rest in
    if code_line == ""
    then later
    else if ltb (len code_line) width
    then none
    else if contains code_line "#nohusky" && slice code_line 0 width == number
    then some true
    else later

unfoldable pub bandit_case : String → ℤ → Option Bool
unfolding bandit_lines
bandit_case code line_number =
    bandit_lines (count_digits line_number) (itoa line_number) (split code b'\n')

abbrev pub bandit_vuln : BanditIssue → Vulnerability
bandit_vuln issue = record no_vulnerability {
  language = "Python";
  security_tool = "Bandit";
  severity = issue.issue_severity;
  confidence = issue.issue_confidence;
  file = issue.filename;
  line = itoa issue.line_number;
  code = issue.code;
  details = issue.issue_text;
  title = issue.issue_text;
}

abbrev pub bandit_level : BanditIssue → Option Level
bandit_level issue =
    if issue.issue_severity == "NOSEC"
    then some no_sec
    else if issue.issue_severity == "LOW"
    then some low
    else if issue.issue_severity == "MEDIUM"
    then some medium
    else if issue.issue_severity == "HIGH"
    then some high
    else none

-- `issue.IssueSeverity = "NOSEC"` where the line is marked.
abbrev pub marked : Bool → BanditIssue → BanditIssue
marked no_husky issue = if no_husky then record issue { issue_severity = "NOSEC" } else issue

-- `prepareBanditVulns`; `none` is the panic of `banditCase`.
unfoldable pub bandit_loop : TestOutput → List BanditIssue → Option TestOutput
bandit_loop out [] = some out
bandit_loop out (issue ∷ issues) = elim (bandit_case issue.code issue.line_number) [
  | none ↦ none
  | some no_husky ↦
      let i = marked no_husky issue in
      bandit_loop (file_at (bandit_level i) (bandit_vuln i) out) issues
]

-- `none` is a panic, which ends the process.
unfoldable pub analyze_bandit : (String → Decoded (List BanditIssue)) → ScanInfo → Option Analyzed
analyze_bandit unmarshal s = elim (unmarshal s.container.c_output) [
  | failed err ↦ some (fail_with s (scan_error s err))
  | decoded results ↦
      if is_empty results then some (conclude s) else elim (bandit_loop no_output results) [
        | none ↦ none
        | some out ↦ some (conclude (record s { vulnerabilities = out }))
      ]
]
