-- ===== src/Scan/State.antt =====
-- api/securitytest/securitytest.go: the state of a scan and the verdict that is written into its
-- container; `HandleScanError` of api/util/util.go.
use Prim.Native.String.{len}
use husky_ci.Base.{
  ℕ, String, Bool, ◌||◌, ◌&&◌, Option, none, some, List, if◌then◌else◌, ltb, is_some, is_empty, not,
  ◌⧺◌, contains, is_blank,
}
use husky_ci.Types.{Container, Code, TestOutput}

-- `SecTestScanInfo`. `FinalOutput` is left out: it only hands the decoded report from an
-- `analyze…` function to its `prepare…Vulns`, which has it as an argument here.
pub record ScanInfo : Type 0 where
  pub rid : String
  pub url : String
  pub branch : String
  pub security_test_name : String
  pub language_exclusions : String → Bool
  pub error_found : Option String
  pub req_not_found : Bool
  pub warning_found : Bool
  pub package_not_found : Bool
  pub yarn_lock_not_found : Bool
  pub yarn_error_running : Bool
  pub gitleaks_error_running : Bool
  pub gitleaks_timeout : Bool
  pub security_code_scan_error_running : Bool
  pub commit_authors_not_found : Bool
  pub commit_authors : List String
  pub codes : List Code
  pub container : Container
  pub vulnerabilities : TestOutput
  pub docker_host : String

-- json.Unmarshal or xml.Unmarshal: the value, or the message of the error.
pub data Decoded (A : Type 0) : Type 0 where
  decoded : A → Decoded A
  failed : String → Decoded A

-- The longest container output that is kept, in bytes.
abbrev pub c_output_max_size : ℕ
c_output_max_size = 1_000_000

-- The container before the verdict: the output is cut if it is too large.
abbrev finished : Container → Container
finished c = record c {
  c_status = "finished";
  c_output =
      if ltb c_output_max_size (len c.c_output)
      then "Container Output is too large."
      else c.c_output;
  c_result = "passed";
  c_info = "No issues found.";
}

abbrev warned : Container → String → Container
warned c info = record c { c_info = info; c_result = "warning" }

unfoldable pub verdict : ScanInfo → Container → Container
verdict s c =
    if is_some s.error_found
    then record c {
      c_status = "error running";
      c_result = "error";
      c_info = "Error found running container";
    }
    else if s.req_not_found
    then warned c "requeriments.txt was not found."
    else if s.package_not_found
    then warned c "package-lock.json was not found."
    else if s.yarn_lock_not_found
    then warned c "yarn.lock was not found."
    else if s.commit_authors_not_found
    then record c { c_info = "Could not get authors. Probably master branch is being analyzed." }
    else if s.security_code_scan_error_running
    then record c {
      c_status = "error running";
      c_result = "warning";
      c_info =
          "Could not run 'security-scan' tool. No .sln file was found or an invalid file extension is loaded.";
    }
    else if not (is_empty s.vulnerabilities.medium_vulns)
        || not (is_empty s.vulnerabilities.high_vulns)
    then record c { c_result = "failed"; c_info = "Issues found." }
    else if not (is_empty s.vulnerabilities.low_vulns)
    then record c { c_result = "passed"; c_info = "Warnings found." }
    else c

-- `prepareContainerAfterScan`
unfoldable pub prepare_container : ScanInfo → ScanInfo
unfolding verdict
prepare_container s = record s { container = verdict s (finished s.container) }

-- `HandleScanError`: the message of the error.
unfoldable pub handle_scan_error : String → String → String
unfolding contains is_blank
handle_scan_error c_output err =
    if (contains err "unexpected end of JSON input" || contains err "EOF") && is_blank c_output
    then "security tool produced no valid JSON output (empty or truncated). This may mean the tool had no code to analyze (e.g. zip extraction in dockerapi failed or workspace was empty): "
      ⧺ err
    else c_output ⧺ "\nerror from top: " ⧺ err

-- The ways in which an `analyze…` function returns: the scan and the error, nil if all went well.
abbrev pub Analyzed : Type 0
Analyzed = ScanInfo × Option String

-- scan.prepareContainerAfterScan(); return nil
abbrev pub conclude : ScanInfo → Analyzed
conclude s = (prepare_container s, none)

-- scan.ErrorFound = err; return scan.ErrorFound
abbrev pub fail_with : ScanInfo → String → Analyzed
fail_with s err = (record s { error_found = some err }, some err)

-- The same with prepareContainerAfterScan() in between.
abbrev pub conclude_error : ScanInfo → String → Analyzed
conclude_error s err = (prepare_container (record s { error_found = some err }), some err)

-- util.HandleScanError on the container's output.
abbrev pub scan_error : ScanInfo → String → String
scan_error s err = handle_scan_error s.container.c_output err
