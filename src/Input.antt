-- ===== src/Input.antt =====
-- api/util/util.go and api/util/zip.go: the checks on what a request holds.
pub mod Duplicates
use husky_ci.Base.{
  ℕ, String, ◌==◌, Bool, false, ◌||◌, Option, none, some, List, [], ◌∷◌, if◌then◌else◌, contains,
  split_text, ◌⧺◌,
}
use husky_ci.Base.Reply.{Reply, found, refused}
use husky_ci.Types.{Repository}
use husky_ci.Run.Scans.{is_file_url}

-- The four constant patterns: what `FindString` finds in a URL, and what `MatchString` says of a
-- branch and of an RID. All four compile, so that no match fails.
pub record Patterns : Type 0 where
  pub find_file : String → Option String
  pub find_git : String → Option String
  pub is_branch : String → Bool
  pub is_rid : String → Bool

abbrev pub git_part : String → Option String → Reply String
git_part url (some part) = found part
git_part url none = refused ("Invalid URL format: " ⧺ url)

abbrev pub file_part : Patterns → String → Option String → Reply String
file_part ps url (some part) = found part
file_part ps url none = git_part url (ps.find_git url)

-- `CheckMaliciousRepoURL`
unfoldable pub check_repo_url : Patterns → String → Reply String
check_repo_url ps url = file_part ps url (ps.find_file url)

-- The statuses with which a check has answered the request, and its error. A check that answers
-- returns what `c.JSON` returns (`write`), which is nil when the answer could be written.
abbrev pub Checked : Type 0
Checked = List ℕ × Option String

module _ (write : ℕ → Option String) where
  abbrev pub answer : ℕ → Checked
  answer status = (status ∷ [], write status)

  -- `CheckMaliciousRepoBranch`
  unfoldable pub check_branch : Patterns → String → Checked
  check_branch ps branch = if ps.is_branch branch then ([], none) else answer 400

  -- `CheckMaliciousRID`
  unfoldable pub check_rid : Patterns → String → Checked
  check_rid ps rid = if ps.is_rid rid then ([], none) else answer 400

  abbrev pub with_url : String → Checked → String × Checked
  with_url url (sent, none) = (url, (sent, none))
  with_url url (sent, some err) = ("", (sent, some err))

  abbrev pub checked_url : Patterns → String → Reply String → String × Checked
  checked_url ps branch (refused err) = ("", answer 400)
  checked_url ps branch (found url) = with_url url (check_branch ps branch)

  -- `CheckValidInput`: the URL, the answers that it made, and its error.
  unfoldable pub check_valid_input : Patterns → Repository → String × Checked
  check_valid_input ps repo = checked_url ps repo.branch (check_repo_url ps repo.url)

-- `ExtractRIDFromFileURL`
abbrev rid_part : List String → String
rid_part (scheme ∷ rid ∷ []) = rid
rid_part _ = ""

unfoldable pub extract_rid : String → String
extract_rid url = if is_file_url url then rid_part (split_text url "://") else ""

-- The token of a request: its header Husky-Token, its User-Agent in lower case, and the two
-- environment variables.
pub record Client : Type 0 where
  pub header : String
  pub user_agent : String
  pub cli_token : String
  pub client_token : String

abbrev or_else : String → String → String
or_else s t = if s == "" then t else s

-- `GetTokenFromRequest`
unfoldable pub get_token : Client → String
get_token c =
    let fallback = or_else c.cli_token (or_else c.client_token "") in
    let for_client =
      if contains c.user_agent "huskyci-client"
      then or_else c.client_token fallback
      else fallback in
    let for_cli =
      if contains c.user_agent "huskyci-cli" then or_else c.cli_token for_client else for_client in
    or_else c.header for_cli

-- `SliceContains`
unfoldable pub slice_contains : List String → String → Bool
slice_contains [] s = false
slice_contains (v ∷ vs) s = v == s || slice_contains vs s

-- The loop of `RemoveDuplicates`, which writes the kept items over the front of the slice; `seen` is the map.
unfoldable pub remove_from : List String → List String → List String
unfolding slice_contains
remove_from seen [] = []
remove_from seen (v ∷ vs) =
    let dropped = remove_from seen vs in
    let kept = v ∷ remove_from (v ∷ seen) vs in if slice_contains seen v then dropped else kept

-- `RemoveDuplicates`
unfoldable pub remove_duplicates : List String → List String
remove_duplicates s = remove_from [] s
