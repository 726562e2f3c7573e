-- ===== src/Routes/Bypass.antt =====
-- Requests that pass the checks of api/routes/analysis.go without being checked.
use husky_ci.Base.{String, ◌≡◌, ◌∙◌, ap, arith, true, false, none, some, [], ◌∷◌, if◌then◌else◌}
use husky_ci.Base.Reply.{found, refused}
use husky_ci.Types.{Repository}
use husky_ci.Input.{
  Patterns, Checked, check_valid_input, check_repo_url, check_branch, checked_url, with_url, answer,
  file_part, git_part,
}
use husky_ci.Run.Scans.{is_file_url}
use husky_ci.Token.Defs.{TokenDb, Crypto, has_authorization}
use husky_ci.Routes.Receive.{
  Api, check_upload, preceded, receive_request, authorized_for, after_input,
}

module _ (api : Api) (repo : Repository) where
  after_checks :
      (result : String × Checked)
      → api.authorized repo.url ≡ true
      → check_valid_input api.write api.patterns repo ≡ result
      → receive_request api (found repo) ≡ after_input api repo result
  unfolding receive_request
  after_checks result allowed e = ap (authorized_for api repo) allowed ∙ ap (after_input api repo) e

  url_checked :
      (url : String)
      → check_repo_url api.patterns repo.url ≡ found url
      → check_valid_input api.write api.patterns repo
        ≡ with_url api.write url (check_branch api.write api.patterns repo.branch)
  unfolding check_valid_input
  url_checked url e = ap (checked_url api.write api.patterns repo.branch) e

  bad_branch :
      (url : String)
      → api.patterns.is_branch repo.branch ≡ false
      → api.write 400 ≡ none
      → with_url api.write url (check_branch api.write api.patterns repo.branch)
        ≡ (url, (400 ∷ [], none))
  unfolding check_branch
  bad_branch url bad written =
      ap (λ b. with_url api.write url (if b then ([], none) else answer api.write 400)) bad
      ∙ ap (λ e. with_url api.write url (400 ∷ [], e)) written

  good_branch :
      (url : String)
      → api.patterns.is_branch repo.branch ≡ true
      → with_url api.write url (check_branch api.write api.patterns repo.branch) ≡ (url, ([], none))
  unfolding check_branch
  good_branch url good =
      ap (λ b. with_url api.write url (if b then ([], none) else answer api.write 400)) good

  module _ (allowed : api.authorized repo.url ≡ true) (written : api.write 400 ≡ none) where
    -- Where the answer 400 to an invalid URL can be written, an authorized request goes on with an
    -- empty URL, as if the URL had been valid.
    pub invalid_url_goes_on :
        (err : String)
        → check_repo_url api.patterns repo.url ≡ refused err
        → receive_request api (found repo)
          ≡ preceded api (400 ∷ []) (check_upload api (record repo { url = "" }))
    unfolding check_valid_input
    invalid_url_goes_on err e =
        after_checks ("", (400 ∷ [], none)) allowed
          (ap (checked_url api.write api.patterns repo.branch) e
            ∙ ap (λ w. ("", (400 ∷ [], w))) written)

    -- Where the answer 400 to an invalid branch can be written, an authorized request with a valid
    -- URL goes on with that branch, as if it had been valid.
    pub invalid_branch_goes_on :
        (url : String)
        → check_repo_url api.patterns repo.url ≡ found url
        → api.patterns.is_branch repo.branch ≡ false
        → receive_request api (found repo)
          ≡ preceded api (400 ∷ []) (check_upload api (record repo { url = url }))
    invalid_branch_goes_on url e bad =
        after_checks (url, (400 ∷ [], none)) allowed
          (url_checked url e ∙ bad_branch url bad written)

module _ {S : Type 0} (db : TokenDb S) (c : Crypto) where
  file_authorized :
      (token url : String) (state : S)
      → is_file_url url ≡ true
      → has_authorization db c token url state ≡ true
  unfolding has_authorization
  file_authorized token url state e = ground (arith, e)

  git_found :
      (ps : Patterns) (raw url : String)
      → ps.find_file raw ≡ none
      → ps.find_git raw ≡ some url
      → check_repo_url ps raw ≡ found url
  unfolding check_repo_url
  git_found ps raw url no_file git = ap (file_part ps raw) no_file ∙ ap (git_part raw) git

  -- A URL that only begins like one of a file is authorized with every token: where the pattern of
  -- files does not match it and that of git finds a repository inside, a request with a valid
  -- branch goes on with that repository.
  pub file_prefix_bypasses_tokens :
      (api : Api) (repo : Repository) (token url : String) (state : S)
      → api.authorized ≡ (λ u. has_authorization db c token u state)
      → is_file_url repo.url ≡ true
      → api.patterns.find_file repo.url ≡ none
      → api.patterns.find_git repo.url ≡ some url
      → api.patterns.is_branch repo.branch ≡ true
      → receive_request api (found repo)
        ≡ preceded api [] (check_upload api (record repo { url = url }))
  file_prefix_bypasses_tokens api repo token url state tokens file no_file git branch =
      after_checks api repo (url, ([], none))
        (ap (λ f. f repo.url) tokens ∙ file_authorized token repo.url state file)
        (url_checked api repo url (git_found api.patterns repo.url url no_file git)
          ∙ good_branch api repo url branch)
