-- ===== src/Tests/Outputs.antt =====
-- The output for SonarQube, and the targets, the polling and the report of the command line, at
-- concrete inputs.
use husky_ci.Base.{
  pos, if◌then◌else◌, ◌≤◌, String, Bool, ◌==◌, ◌≡◌, refl, true, false, none, some, List, [], ◌∷◌,
  map, not, arith, ◌⧺◌,
}
use husky_ci.Base.Lists.{All}
use husky_ci.Base.Outcome.{gives}
use husky_ci.Base.Reply.{found, refused}
use husky_ci.Types.{Analysis, HuskyResults, no_results, no_output, no_vulnerability}
use husky_ci.Input.{slice_contains}
use husky_ci.Input.Duplicates.{Unique}
use husky_ci.Database.Query.{keys}
use husky_ci.Client.Sonar.{Library, SonarIssue, sonar_output, all_vulns, rule_id_of}
use husky_ci.Client.Rules.{rule_ids, issue_ids, sonar_output_lem}
use husky_ci.Cli.Targets.{Target, Targets, Checks, Current, target_set, get_current_target}
use husky_ci.Cli.Current.{set-get_current_target}
use husky_ci.Cli.Report.{CliVulnerability, convert_api_vulnerabilities, is_high, group_vulns}
use husky_ci.Cli.Poll.{Poll, expired, asked, no_answer, answered, Progress, check_status}
use husky_ci.Cli.Status.{Ends, check_status-Ends}
use husky_ci.Cli.Groups.{total, count_of, IsSorted, group_vulns_lem}
use husky_ci.Cli.Commands.{IsSound, set, Command-IsSound}

abbrev library : Library
library = record {
  to_lower = λ s. s;
  atoi = λ s. if s == "7" then found (pos 7) else refused "invalid syntax";
  join = λ folder name. folder ⧺ "/" ⧺ name;
}

abbrev results : HuskyResults
results = record no_results {
  gosec_output = record no_output {
    low_vulns = no_vulnerability ∷ [];
    high_vulns = record no_vulnerability { title = "G104"; line = "7" } ∷ no_vulnerability ∷ [];
  };
}

sonar_output_lem_example :
    let out = sonar_output library "." results in
    Unique (rule_ids out.rules)
    × ((id : String)
        → slice_contains (rule_ids out.rules) id
          ≡ slice_contains (map rule_id_of (all_vulns results)) id)
    × (issue_ids out.issues ≡ map rule_id_of (all_vulns results))
    × All (λ (i : SonarIssue). 1 ≤ i.start_line) out.issues
sonar_output_lem_example = sonar_output_lem library "." results

abbrev checks : Checks
checks = record { is_name = λ name. not (name == ""); parse_url = λ url. gives ("https", "api") }

abbrev target : Target
target = record { current = some true; endpoint = some "https://a"; token_storage = none }

abbrev targets : Targets
targets =
    ("a", some target)
    ∷ ("b", some (record target { current = some false; endpoint = some "https://b" }))
    ∷ []

abbrev switched : Targets
switched =
    ("a", some (record target { current = some false }))
    ∷ ("b", some (record target { endpoint = some "https://b" }))
    ∷ []

set_b : target_set "b" targets ≡ gives ("https://b", switched)
unfolding target_set
set_b = refl

set-get_current_target_example :
    (cur : Current) × (get_current_target "" "t" switched ≡ gives cur)
    × (cur.label ≡ "b")
    × (cur.endpoint ≡ "https://b")
set-get_current_target_example = set-get_current_target "b" "t" "https://b" targets switched set_b

keys-Unique : Unique (keys targets)
unfolding slice_contains
keys-Unique = (refl, (refl, tt))

Command-IsSound_example : IsSound switched
Command-IsSound_example =
    Command-IsSound checks targets switched (keys-Unique, omega arith)
      (set "b" "https://b" targets switched set_b)

abbrev finished : Analysis
finished = record {
  rid = "r";
  url = "file://r";
  branch = "local";
  commit_authors = [];
  status = "finished";
  result = "failed";
  error_found = "";
  containers = [];
  codes = [];
  husky_results = results;
}

abbrev polls : List Poll
polls =
    asked (answered 404 (refused "EOF"))
    ∷ asked (no_answer "connection reset")
    ∷ asked (answered 200 (found finished))
    ∷ expired
    ∷ []

abbrev waiting : Progress
waiting = record { status = "running"; errors = []; vulnerabilities = [] }

check_status-Ends_example : Ends polls (check_status "r" none polls waiting)
check_status-Ends_example = check_status-Ends "r" none polls waiting

abbrev severe : CliVulnerability → Bool
severe v = is_high v.severity

abbrev shown : List CliVulnerability
shown = convert_api_vulnerabilities results

group_vulns_lem_example :
    (total severe (group_vulns shown) ≡ count_of severe shown) × IsSorted (group_vulns shown)
group_vulns_lem_example = group_vulns_lem severe shown
