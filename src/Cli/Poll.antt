-- ===== src/Cli/Poll.antt =====
-- `CheckStatus` of cli/analysis/analysis.go: the client polls the API until the analysis has ended.
use husky_ci.Base.{
  ℕ, suc, String, ◌==◌, not, Option, none, some, List, [], ◌∷◌, ◌++◌, if◌then◌else◌, eqb, ltb,
}
use husky_ci.Base.Reply.{Reply, found, refused}
use husky_ci.Types.{Analysis}
use husky_ci.Cli.Report.{CliVulnerability, convert_api_vulnerabilities}

-- What a request meets: it cannot be made, it fails, it never comes back, for the client of
-- cli/util/http.go sets no time limit, or it is answered with a status and a body that decodes to an
-- analysis or does not.
pub data Answer : Type 0 where
  no_request : String → Answer
  no_answer : String → Answer
  no_return : Answer
  answered : ℕ → Reply Analysis → Answer

-- What a round of the `select` meets.
pub data Poll : Type 0 where
  expired : Poll
  asked : Answer → Poll

-- What the loop changes of the client's `Analysis`, without the time stamps.
pub record Progress : Type 0 where
  pub status : String
  pub errors : List String
  pub vulnerabilities : List CliVulnerability

-- The loop polls still, it has returned an error, or it waits for a request that never comes back.
pub data Checked : Type 0 where
  polling : Progress → Checked
  checked : Option String → Progress → Checked
  hanging : Checked

abbrev pub updated : Analysis → Progress → Progress
updated a p = record {
  status = a.status;
  errors = if a.error_found == "" then p.errors else p.errors ++ a.error_found ∷ [];
  vulnerabilities = convert_api_vulnerabilities a.husky_results;
}

abbrev pub failure : Analysis → String
failure a = if a.error_found == "" then "Unknown error occurred during analysis" else a.error_found

-- One answer: the loop goes on, or it returns.
abbrev pub after_analysis : Analysis → Progress → Checked
after_analysis a p =
    if a.status == "finished"
    then checked none (updated a p)
    else if a.status == "error running"
    then checked (some (failure a)) (updated a p)
    else polling (updated a p)

abbrev pub after_body : Reply Analysis → Progress → Checked
after_body (refused err) p = polling p
after_body (found a) p = after_analysis a p

abbrev pub after_answer : ℕ → Answer → Progress → Checked
after_answer count (no_request err) p = checked (some err) p
after_answer count (no_answer err) p = polling p
after_answer count no_return p = hanging
after_answer count (answered status body) p =
    if eqb status 404
    then (if ltb count 3 then polling p else checked (some "analysis not found") p)
    else if eqb status 401
    then checked (some "authentication failed") p
    else if not (eqb status 200)
    then polling p
    else after_body body p

abbrev pub resumed : (Progress → Checked) → Checked → Checked
resumed go (polling p) = go p
resumed go (checked err p) = checked err p
resumed go hanging = hanging

-- The loop; `count` is the number of requests so far.
unfoldable pub check_loop : ℕ → List Poll → Progress → Checked
check_loop count [] p = polling p
check_loop count (expired ∷ polls) p = checked (some "analysis timed out after 60 minutes") p
check_loop count (asked a ∷ polls) p =
    resumed (λ q. check_loop (suc count) polls q) (after_answer (suc count) a p)

abbrev pub on_target : Option String → List Poll → Progress → Checked
on_target (some err) polls p = checked (some err) p
on_target none polls p = check_loop 0 polls p

-- `CheckStatus`, with the identifier of the analysis and the error of the target.
unfoldable pub check_status : (rid : String) → Option String → List Poll → Progress → Checked
unfolding check_loop
check_status rid target polls p =
    if rid == ""
    then checked (some "no RID available - analysis was not started successfully") p
    else on_target target polls p
