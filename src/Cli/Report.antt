-- ===== src/Cli/Report.antt =====
-- The findings in cli/analysis/analysis.go: `convertAPIVulnerabilities`, and the groups that
-- `PrintVulns` prints.
use husky_ci.Base.{ℕ, String, ◌==◌, Bool, false, ◌||◌, List, [], ◌∷◌, ◌++◌, map, if◌then◌else◌}
use husky_ci.Types.{Vulnerability, TestOutput, HuskyResults}

-- `vulnerability.Vulnerability`, without the identifier that `New` draws.
pub record CliVulnerability : Type 0 where
  pub language : String
  pub security_test : String
  pub severity : String
  pub confidence : String
  pub file : String
  pub line : String
  pub code : String
  pub details : String
  pub vuln_type : String
  pub vunerable_below : String
  pub version : String
  pub nosec : Bool
  pub occurrences : ℕ

-- `convertHuskyCIVulnToCLIVuln`
unfoldable pub convert_vuln : (language security_test : String) → Vulnerability → CliVulnerability
convert_vuln language security_test v = record {
  language = language;
  security_test = security_test;
  severity = v.severity;
  confidence = v.confidence;
  file = v.file;
  line = v.line;
  code = v.code;
  details = v.details;
  vuln_type = if v.vuln_type == "" then v.title else v.vuln_type;
  vunerable_below = v.vunerable_below;
  version = v.version;
  nosec = false;
  occurrences = v.occurrences;
}

-- The three loops for a tool.
abbrev pub converted : (language security_test : String) → TestOutput → List CliVulnerability
converted language security_test out =
    map (convert_vuln language security_test) out.high_vulns
    ++ (map (convert_vuln language security_test) out.medium_vulns
        ++ map (convert_vuln language security_test) out.low_vulns)

-- `convertAPIVulnerabilities`
unfoldable pub convert_api_vulnerabilities : HuskyResults → List CliVulnerability
convert_api_vulnerabilities r =
    converted "Go" "gosec" r.gosec_output
    ++ (converted "Python" "bandit" r.bandit_output
        ++ (converted "Python" "safety" r.safety_output
            ++ (converted "Ruby" "brakeman" r.brakeman_output
                ++ (converted "JavaScript" "npmaudit" r.npm_audit_output
                    ++ (converted "JavaScript" "yarnaudit" r.yarn_audit_output
                        ++ (converted "Java" "spotbugs" r.spot_bugs_output
                            ++ (converted "HCL" "tfsec" r.tfsec_output
                                ++ (converted "C#" "securitycodescan" r.security_code_scan_output
                                    ++ converted "Generic" "gitleaks" r.gitleaks_output))))))))

pub record Groups : Type 0 where
  pub high : List CliVulnerability
  pub medium : List CliVulnerability
  pub low : List CliVulnerability
  pub info : List CliVulnerability

abbrev pub is_high : String → Bool
is_high s = s == "HIGH" || (s == "high" || s == "High")

abbrev pub is_medium : String → Bool
is_medium s = s == "MEDIUM" || (s == "medium" || s == "Medium")

abbrev pub is_low : String → Bool
is_low s = s == "LOW" || (s == "low" || s == "Low")

-- `switch vuln.Severity`
abbrev pub grouped : CliVulnerability → Groups → Groups
grouped v g =
    if is_high v.severity
    then record g { high = g.high ++ v ∷ [] }
    else if is_medium v.severity
    then record g { medium = g.medium ++ v ∷ [] }
    else if is_low v.severity
    then record g { low = g.low ++ v ∷ [] }
    else record g { info = g.info ++ v ∷ [] }

unfoldable pub group_loop : Groups → List CliVulnerability → Groups
group_loop g [] = g
group_loop g (v ∷ vs) = group_loop (grouped v g) vs

-- The groups of `PrintVulns`.
unfoldable pub group_vulns : List CliVulnerability → Groups
unfolding group_loop
group_vulns vs = group_loop (record { high = []; medium = []; low = []; info = [] }) vs
