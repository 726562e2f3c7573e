-- ===== src/Scan/Gitleaks.antt =====
-- api/securitytest/gitleaks.go
use husky_ci.Base.{
  String, ◌==◌, Bool, true, ◌||◌, Option, none, some, List, [], ◌∷◌, if◌then◌else◌, ◌⧺◌, contains,
  any,
}
use husky_ci.Types.{Vulnerability, no_vulnerability, TestOutput, no_output}
use husky_ci.Scan.Filing.{Level, low, medium, high, push, file_all}
use husky_ci.Scan.State.{
  ScanInfo, Decoded, decoded, failed, Analyzed, conclude, conclude_error, scan_error,
}

pub record GitleaksIssue : Type 0 where
  pub line : String
  pub commit : String
  pub offender : String
  pub rule : String
  pub info : String
  pub commit_message : String
  pub author : String
  pub email : String
  pub file : String
  pub repository : String
  pub date : String
  pub tags : String
  pub severity : String

abbrev pub high_rules : List String
high_rules = "PKCS8" ∷ "RSA" ∷ "SSH" ∷ "PGP" ∷ "EC" ∷ []

abbrev pub medium_rules : List String
medium_rules =
    "AWS Secret Key" ∷ "Facebook Secret Key" ∷ "Facebook access token" ∷ "Twitter Secret Key"
    ∷ "LinkedIn Secret Key" ∷ "Google OAuth access token" ∷ "Google Cloud Platform API key"
    ∷ "Heroku API key" ∷ "MailChimp API key" ∷ "Mailgun API key" ∷ "PayPal Braintree access token"
    ∷ "Picatic API key" ∷ "Stripe API key" ∷ "Twilio API key" ∷ []

-- `case "PKCS8", "RSA", …`
abbrev pub one_of : List String → String → Bool
one_of cases text = any (λ c. text == c) cases

unfoldable pub rule_severity : String → String
rule_severity rule =
    if one_of high_rules rule then "HIGH" else if one_of medium_rules rule then "MEDIUM" else "LOW"

-- Files of dependencies are skipped.
unfoldable pub is_dependency : GitleaksIssue → Bool
unfolding contains
is_dependency issue = contains issue.file "vendor/" || contains issue.file "node_modules/"

abbrev pub gitleaks_vuln : GitleaksIssue → Vulnerability
gitleaks_vuln issue = record no_vulnerability {
  security_tool = "GitLeaks";
  severity = rule_severity issue.rule;
  file = issue.file;
  code = issue.line;
  title = "Hard Coded " ⧺ issue.rule ⧺ " in: " ⧺ issue.file;
}

abbrev severity_level : String → Option Level
severity_level severity =
    if severity == "LOW"
    then some low
    else if severity == "MEDIUM"
    then some medium
    else if severity == "HIGH"
    then some high
    else none

abbrev pub gitleaks_level : GitleaksIssue → Option Level
gitleaks_level issue =
    if is_dependency issue then none else severity_level (rule_severity issue.rule)

abbrev notice : String → String → Vulnerability
notice title details = record no_vulnerability {
  language = "Generic";
  security_tool = "Gitleaks";
  severity = "low";
  details = details;
  title = title;
}

-- `prepareGitleaksVulns`; the first result is what `Vulnerabilities` was before.
unfoldable pub prepare_gitleaks_vulns : ScanInfo → List GitleaksIssue → TestOutput
prepare_gitleaks_vulns s issues =
    if s.gitleaks_timeout
    then push low
        (notice "Too big project for Gitleaks scan"
          "It looks like your project is too big and huskyCI was not able to run Gitleaks.")
        s.vulnerabilities
    else if s.gitleaks_error_running
    then push low (notice "Gitleaks internal error" "Internal error running Gitleaks.")
        s.vulnerabilities
    else file_all gitleaks_level gitleaks_vuln no_output issues

abbrev prepared : ScanInfo → List GitleaksIssue → ScanInfo
prepared s issues = record s { vulnerabilities = prepare_gitleaks_vulns s issues }

unfoldable pub analyze_gitleaks : (String → Decoded (List GitleaksIssue)) → ScanInfo → Analyzed
analyze_gitleaks unmarshal s =
    let output = s.container.c_output in
    if output == ""
    then conclude s
    else if contains output "ERROR_TIMEOUT_GITLEAKS"
    then conclude (prepared (record s { gitleaks_timeout = true }) [])
    else if contains output "ERROR_RUNNING_GITLEAKS"
    then conclude (prepared (record s { gitleaks_error_running = true }) [])
    else elim (unmarshal output) [
      | failed err ↦ conclude_error s (scan_error s err)
      | decoded issues ↦ conclude (prepared s issues)
    ]
