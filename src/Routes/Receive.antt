-- ===== src/Routes/Receive.antt =====
-- `ReceiveRequest` of api/routes/analysis.go: the checks before an analysis is started.
use husky_ci.Base.{
  ℕ, String, ◌==◌, Bool, true, false, not, ◌||◌, Option, none, some, List, [], ◌∷◌, ◌++◌,
  if◌then◌else◌,
}
use husky_ci.Base.Reply.{Reply, found, refused}
use husky_ci.Types.{Repository, Analysis}
use husky_ci.Input.{Patterns, Checked, check_valid_input, extract_rid}
use husky_ci.Run.Scans.{is_file_url}

-- What the handler uses: `write` is the error of an answer that is written with `c.JSON`, and
-- `authorized` is `HasAuthorization` with the token of the request; then the files of an upload,
-- and the database. The extraction by the Docker API is left out: the handler only logs how it
-- ends.
pub record Api : Type 0 where
  pub patterns : Patterns
  pub write : ℕ → Option String
  pub authorized : String → Bool
  pub zip_exists : String → Bool
  pub dir_exists : String → Bool
  pub extract : String → Option String
  pub find_repository : String → Option String
  pub insert_repository : Repository → Option String
  pub find_analysis : (url branch : String) → Reply Analysis

-- The statuses of the answers, the error that the handler returns, and the repository with which
-- `StartAnalysis` is started.
pub record Handled : Type 0 where
  pub answers : List ℕ
  pub error : Option String
  pub started : Option Repository

-- err == mongo.ErrNoDocuments || err.Error() == "No data found"
abbrev pub is_no_data : String → Bool
is_no_data err = err == "mongo: no documents in result" || err == "No data found"

module _ (api : Api) where
  abbrev pub reject : ℕ → Handled
  reject status = record { answers = status ∷ []; error = api.write status; started = none }

  abbrev pub begin : Repository → Handled
  begin repo = record { answers = 201 ∷ []; error = api.write 201; started = some repo }

  -- An analysis that is running is not started again.
  abbrev pub not_running : Repository → Reply Analysis → Handled
  not_running repo (refused err) = if is_no_data err then begin repo else reject 500
  not_running repo (found a) = if a.status == "running" then reject 409 else begin repo

  abbrev pub inserted : Repository → Option String → Handled
  inserted repo none = begin repo
  inserted repo (some err) = reject 500

  abbrev pub looked_up : Repository → Option String → Handled
  looked_up repo none = not_running repo (api.find_analysis repo.url repo.branch)
  looked_up repo (some err) =
      if is_no_data err then inserted repo (api.insert_repository repo) else reject 500

  -- Steps 02 to 04.
  unfoldable pub register : Repository → Handled
  register repo = looked_up repo (api.find_repository repo.url)

  abbrev pub extracted : Repository → Option String → Handled
  extracted repo none = register repo
  extracted repo (some err) = reject 500

  -- Step 01a.
  unfoldable pub check_upload : Repository → Handled
  unfolding register
  check_upload repo =
      let rid = extract_rid repo.url in
      if not (is_file_url repo.url)
      then register repo
      else if rid == ""
      then reject 400
      else if not (api.zip_exists rid)
      then reject 400
      else if api.dir_exists rid
      then register repo
      else extracted repo (api.extract rid)

  -- The answers of the checks on the input come before those of the rest.
  abbrev pub preceded : List ℕ → Handled → Handled
  preceded sent h = record h { answers = sent ++ h.answers }

  abbrev pub after_input : Repository → String × Checked → Handled
  after_input repo (url, (sent, some err)) = record {
    answers = sent;
    error = some err;
    started = none;
  }
  after_input repo (url, (sent, none)) = preceded sent (check_upload (record repo { url = url }))

  abbrev pub authorized_for : Repository → Bool → Handled
  authorized_for repo false = reject 401
  authorized_for repo true = after_input repo (check_valid_input api.write api.patterns repo)

  -- `ReceiveRequest` on the decoded body.
  unfoldable pub receive_request : Reply Repository → Handled
  receive_request (refused err) = reject 400
  receive_request (found repo) = authorized_for repo (api.authorized repo.url)
