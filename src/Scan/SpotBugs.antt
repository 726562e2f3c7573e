-- ===== src/Scan/SpotBugs.antt =====
-- api/securitytest/spotbugs.go
use husky_ci.Base.{
  ℕ, String, ◌==◌, Bool, ◌||◌, ◌&&◌, not, Option, none, some, List, [], ◌∷◌, if◌then◌else◌, ◌⧺◌,
  contains, ℤ, lt_const, itoa, is_empty,
}
use husky_ci.Types.{Vulnerability, no_vulnerability, TestOutput, no_output}
use husky_ci.Scan.Filing.{Level, low, medium, high, push, file_all}
use husky_ci.Scan.State.{
  ScanInfo, Decoded, decoded, failed, Analyzed, conclude, conclude_error, scan_error,
}

abbrev pub medium_severity_value : ℕ
medium_severity_value = 15

abbrev pub high_severity_value : ℕ
high_severity_value = 10

pub record SourceLine : Type 0 where
  pub class_name : String
  pub start : String
  pub end_line : String
  pub source_file : String
  pub source_path : String

pub record SpotBugsIssue : Type 0 where
  pub issue_type : String
  pub priority : String
  pub rank : String
  pub abbreviation : String
  pub category : String
  pub source_lines : List SourceLine
  pub short_message : String

-- The attributes of `Errors` are kept as their texts.
pub record SpotBugsOutput : Type 0 where
  pub issues : List SpotBugsIssue
  pub errors : String
  pub missing_classes : String

abbrev is_positive : ℤ → Bool
is_positive z = not (lt_const z 1)

abbrev confidence_of : String → String
confidence_of priority =
    if priority == "1" then "HIGH" else if priority == "2" then "MEDIUM" else "LOW"

-- The severity that the rank decides, with the list that it goes to.
abbrev pub rank_level : ℤ → Level
rank_level rank =
    if lt_const rank high_severity_value
    then high
    else if lt_const rank medium_severity_value
    then medium
    else low

abbrev rank_severity : ℤ → String
rank_severity rank =
    if lt_const rank high_severity_value
    then "HIGH"
    else if lt_const rank medium_severity_value
    then "MEDIUM"
    else "LOW"

abbrev parsed_level : Decoded ℤ → Option Level
parsed_level (failed err) = none
parsed_level (decoded rank) = some (rank_level rank)

abbrev parsed_severity : Decoded ℤ → String
parsed_severity (failed err) = ""
parsed_severity (decoded rank) = rank_severity rank

-- strconv.Atoi is `atoi`, xml.Unmarshal is `unmarshal`.
module _ (atoi : String → Decoded ℤ) where
  -- Every line of an issue has the level of the issue's rank, and none if the rank is no number.
  abbrev pub spot_level : SpotBugsIssue → SourceLine → Option Level
  spot_level issue line = parsed_level (atoi issue.rank)

  abbrev pub spot_vuln : SpotBugsIssue → SourceLine → Vulnerability
  spot_vuln issue line = record no_vulnerability {
    language = "Java";
    security_tool = "SpotBugs";
    severity = parsed_severity (atoi issue.rank);
    confidence = confidence_of issue.priority;
    file = line.source_path;
    line = line.start;
    code = "Code beetween Line " ⧺ line.start ⧺ " and Line " ⧺ line.end_line ⧺ ".";
    details = issue.issue_type;
    vuln_type = issue.abbreviation;
    title = issue.issue_type;
  }

  -- The two nested loops.
  unfoldable pub spot_loop : TestOutput → List SpotBugsIssue → TestOutput
  spot_loop out [] = out
  spot_loop out (issue ∷ issues) =
      spot_loop (file_all (spot_level issue) (spot_vuln issue) out issue.source_lines) issues

  -- `parseXMLtoJSON`
  unfoldable pub parse_xml : (String → Decoded SpotBugsOutput) → String → Decoded SpotBugsOutput
  parse_xml unmarshal text = elim (unmarshal text) [
    | failed err ↦ failed err
    | decoded bugs ↦ elim (atoi bugs.errors) [
      | failed err ↦ failed err
      | decoded errors ↦ elim (atoi bugs.missing_classes) [
        | failed err ↦ failed err
        | decoded missing ↦
            if is_empty bugs.issues && (is_positive errors || is_positive missing)
            then failed (
                "spotbugs has risen errors because of ["
                ⧺ itoa missing
                ⧺ "] missing classes and ["
                ⧺ itoa errors
                ⧺ "] errors while analysing")
            else decoded bugs
      ]
    ]
  ]

  -- The branch of `prepareSpotBugsVulns` for a build that failed.
  abbrev build_vuln : String → Vulnerability
  build_vuln err = record no_vulnerability {
    language = "Java";
    security_tool = "SpotBugs";
    severity = "LOW";
    confidence = "HIGH";
    details = "An error occured running huskyCI scan on your Java project: " ⧺ err;
    title = "Error while running SpotBugs scan.";
  }

  abbrev build_error : ScanInfo → String → Analyzed
  build_error s err =
      conclude
        (record s { error_found = some err; vulnerabilities = push low (build_vuln err) no_output })

  unfoldable pub analyze_spot_bugs : (String → Decoded SpotBugsOutput) → ScanInfo → Analyzed
  unfolding contains parse_xml spot_loop
  analyze_spot_bugs unmarshal s =
      let output = s.container.c_output in
      if contains output "ERROR_RUNNING_GRADLE_BUILD"
      then build_error s "error running gradle"
      else if contains output "ERROR_RUNNING_MAVEN_BUILD"
      then build_error s "error running maven"
      else if contains output "ERROR_UNSUPPORTED_JAVA_PROJECT"
      then build_error s "error unsuported java project"
      else if output == ""
      then conclude s
      else elim (parse_xml unmarshal output) [
        | failed err ↦ conclude_error s (scan_error s err)
        | decoded bugs ↦ conclude (record s { vulnerabilities = spot_loop no_output bugs.issues })
      ]
