-- ===== src/Types.antt =====
-- api/types/types.go: the records that the components exchange. Time stamps are left out: the
-- program writes them and decides nothing by them.
use husky_ci.Base.{ℕ, String, Bool, List, [], ℤ}

-- `Repository`; `map[string]bool` is a function, false at a missing key.
pub record Repository : Type 0 where
  pub url : String
  pub branch : String
  pub language_exclusions : String → Bool
  pub enry_output : String

pub record SecurityTest : Type 0 where
  pub name : String
  pub image : String
  pub image_tag : String
  pub cmd : String
  pub test_type : String
  pub language : String
  pub is_default : Bool
  pub time_out_in_seconds : ℤ

pub record Container : Type 0 where
  pub cid : String
  pub security_test : SecurityTest
  pub c_status : String
  pub c_output : String
  pub c_result : String
  pub c_info : String

pub record Code : Type 0 where
  pub language : String
  pub files : List String

-- `HuskyCIVulnerability`
pub record Vulnerability : Type 0 where
  pub language : String
  pub security_tool : String
  pub severity : String
  pub confidence : String
  pub file : String
  pub line : String
  pub code : String
  pub details : String
  pub vuln_type : String
  pub title : String
  pub vunerable_below : String
  pub version : String
  pub occurrences : ℕ

-- The zero value `types.HuskyCIVulnerability{}`.
abbrev pub no_vulnerability : Vulnerability
no_vulnerability = record {
  language = "";
  security_tool = "";
  severity = "";
  confidence = "";
  file = "";
  line = "";
  code = "";
  details = "";
  vuln_type = "";
  title = "";
  vunerable_below = "";
  version = "";
  occurrences = 0;
}

-- `HuskyCISecurityTestOutput`
pub record TestOutput : Type 0 where
  pub no_sec_vulns : List Vulnerability
  pub low_vulns : List Vulnerability
  pub medium_vulns : List Vulnerability
  pub high_vulns : List Vulnerability

abbrev pub no_output : TestOutput
no_output = record { no_sec_vulns = []; low_vulns = []; medium_vulns = []; high_vulns = [] }

-- `HuskyCIResults`; the structs that only group the tools by language are flattened, and each
-- field keeps the name of the tool's output.
pub record HuskyResults : Type 0 where
  pub gosec_output : TestOutput
  pub bandit_output : TestOutput
  pub safety_output : TestOutput
  pub npm_audit_output : TestOutput
  pub yarn_audit_output : TestOutput
  pub brakeman_output : TestOutput
  pub spot_bugs_output : TestOutput
  pub gitleaks_output : TestOutput
  pub trivy_output : TestOutput
  pub tfsec_output : TestOutput
  pub security_code_scan_output : TestOutput

abbrev pub no_results : HuskyResults
no_results = record {
  gosec_output = no_output;
  bandit_output = no_output;
  safety_output = no_output;
  npm_audit_output = no_output;
  yarn_audit_output = no_output;
  brakeman_output = no_output;
  spot_bugs_output = no_output;
  gitleaks_output = no_output;
  trivy_output = no_output;
  tfsec_output = no_output;
  security_code_scan_output = no_output;
}

pub record Analysis : Type 0 where
  pub rid : String
  pub url : String
  pub branch : String
  pub commit_authors : List String
  pub status : String
  pub result : String
  pub error_found : String
  pub containers : List Container
  pub codes : List Code
  pub husky_results : HuskyResults

pub record TokenRequest : Type 0 where
  pub repository_url : String

pub record DbToken : Type 0 where
  pub husky_token : String
  pub url : String
  pub is_valid : Bool
  pub salt : String
  pub uuid : String

-- `User`
pub record User : Type 0 where
  pub username : String
  pub password : String
  pub salt : String
  pub iterations : ℤ
  pub key_len : ℤ
  pub hash_function : String
  pub new_password : String
  pub confirm_new_password : String

-- `DockerAPIAddresses`
pub record DockerAddresses : Type 0 where
  pub current_host_index : ℤ
  pub host_list : List String
