-- ===== src/Client/Summary.antt =====
-- `prepareAllSummary` of client/analysis/output.go and `MonitorAnalysis` of
-- client/analysis/analysis.go; the exit code of client/cmd/main.go.
use husky_ci.Base.{
  ℕ, ◌+◌, String, ◌==◌, Bool, true, false, not, ◌||◌, ◌&&◌, List, [], ◌∷◌, if◌then◌else◌, length,
  is_empty, any,
}
use husky_ci.Base.Reply.{Reply, found, refused}
use husky_ci.Types.{HuskyResults, Analysis}
use husky_ci.Run.Results.{
  Tool, gosec, bandit, safety, brakeman, npmaudit, yarnaudit, gitleaks, spotbugs, tfsec,
  securitycodescan, output_of,
}

-- The summary of a tool: `HuskyCISummary`.
pub record ToolSummary : Type 0 where
  pub no_sec_vuln : ℕ
  pub low_vuln : ℕ
  pub medium_vuln : ℕ
  pub high_vuln : ℕ
  pub found_vuln : Bool
  pub found_info : Bool

-- The number of excluded findings is set for four tools only.
abbrev counts_no_sec : Tool → Bool
counts_no_sec gosec = true
counts_no_sec bandit = true
counts_no_sec brakeman = true
counts_no_sec gitleaks = true
counts_no_sec _ = false

unfoldable pub tool_summary : HuskyResults → Tool → ToolSummary
tool_summary r t =
    let out = output_of t r in
    record {
      no_sec_vuln = if counts_no_sec t then length out.no_sec_vulns else 0;
      low_vuln = length out.low_vulns;
      medium_vuln = length out.medium_vulns;
      high_vuln = length out.high_vulns;
      found_vuln = not (is_empty out.medium_vulns) || not (is_empty out.high_vulns);
      found_info = not (is_empty out.low_vulns) || not (is_empty out.no_sec_vulns);
    }

-- The tools of the total, which leave out trivy.
abbrev pub tools : List Tool
tools =
    gosec ∷ bandit ∷ safety ∷ brakeman ∷ npmaudit ∷ yarnaudit ∷ gitleaks ∷ spotbugs ∷ tfsec
    ∷ securitycodescan ∷ []

abbrev pub sum_of : (Tool → ℕ) → List Tool → ℕ
sum_of f [] = 0
sum_of f (t ∷ ts) = f t + sum_of f ts

-- `TotalSummary`, whose flags are also `types.FoundVuln` and `types.FoundInfo`.
unfoldable pub total_summary : HuskyResults → ToolSummary
unfolding tool_summary
total_summary r =
    let blocking = any (λ t. (tool_summary r t).found_vuln) tools in
    record {
      no_sec_vuln = sum_of (λ t. (tool_summary r t).no_sec_vuln) tools;
      low_vuln = sum_of (λ t. (tool_summary r t).low_vuln) tools;
      medium_vuln = sum_of (λ t. (tool_summary r t).medium_vuln) tools;
      high_vuln = sum_of (λ t. (tool_summary r t).high_vuln) tools;
      found_vuln = blocking;
      found_info = not blocking && any (λ t. (tool_summary r t).found_info) tools;
    }

-- `handleVulnerabilityResults`
unfoldable pub exit_code : Bool → Bool → ℕ
exit_code false false = 0
exit_code false true = 0
exit_code true info = 190

-- How `MonitorAnalysis` returns.
pub data Monitored : Type 0 where
  timed_out : Monitored
  not_got : String → Monitored
  ended_in_error : Analysis → Monitored
  done : Analysis → Monitored

-- `MonitorAnalysis`, given what `GetAnalysis` returns at each tick before the timeout.
unfoldable pub monitor : List (Reply Analysis) → Monitored
monitor [] = timed_out
monitor (refused err ∷ replies) = not_got err
monitor (found a ∷ replies) =
    let later = monitor replies in
    if a.status == "finished"
    then done a
    else if a.status == "error running"
    then ended_in_error a
    else later

abbrev pub finish_with : Monitored → ℕ
finish_with (done a) =
    exit_code (total_summary a.husky_results).found_vuln (total_summary a.husky_results).found_info
finish_with _ = 1

-- The exit code of `main` once the analysis has been started.
unfoldable pub client_exit : List (Reply Analysis) → ℕ
unfolding exit_code total_summary
client_exit replies = finish_with (monitor replies)
