-- ===== src/Routes/Guards.antt =====
-- What `ReceiveRequest` of api/routes/analysis.go lets through.
use husky_ci.Base.{
  ℕ, ◌≤◌, String, ◌==◌, ◌≡◌, ◌≢◌, ◌⊎◌, refl, subst, Bool, true, false, not, Option, none, some, [],
  ◌∷◌, is_some, if-elim,
}
use husky_ci.Base.Reply.{Reply, found, refused}
use husky_ci.Types.{Repository, Analysis}
use husky_ci.Input.{Checked, extract_rid}
use husky_ci.Run.Scans.{is_file_url}
use husky_ci.Routes.Receive.{
  Api, Handled, is_no_data, not_running, inserted, looked_up, register, extracted, check_upload,
  after_input, authorized_for, receive_request,
}

module _ (api : Api) where
  -- An analysis is started only if none is running that the database finds.
  abbrev Guarded : Option Repository → Type 0
  Guarded none = Unit
  Guarded (some r) =
      api.find_repository r.url ≡ none
      → (a : Analysis) → api.find_analysis r.url r.branch ≡ found a
      → (a.status == "running") ≡ false

  abbrev GuardedHandling : Handled → Type 0
  GuardedHandling h = Guarded h.started

  inserted-Guarded :
      (repo : Repository) (o : Option String)
      → api.find_repository repo.url ≢ none
      → GuardedHandling (inserted api repo o)
  inserted-Guarded repo none new = λ known. absurd (new known)
  inserted-Guarded repo (some err) new = tt

  not_running-Guarded :
      (repo : Repository) (reply : Reply Analysis)
      → api.find_analysis repo.url repo.branch ≡ reply
      → GuardedHandling (not_running api repo reply)
  not_running-Guarded repo (refused err) e =
      if-elim GuardedHandling (is_no_data err) _ _ (λ missing _ a f. cc (e, f)) (λ failing. tt)
  not_running-Guarded repo (found a) e =
      if-elim GuardedHandling (a.status == "running") _ _ (λ running. tt)
        (λ idle _ b f. let same : a ≡ b = cc (e, f) in rw (← same) idle)

  looked_up-Guarded :
      (repo : Repository) (o : Option String)
      → api.find_repository repo.url ≡ o
      → GuardedHandling (looked_up api repo o)
  looked_up-Guarded repo none e = not_running-Guarded repo _ refl
  looked_up-Guarded repo (some err) e =
      if-elim GuardedHandling (is_no_data err) _ _
        (λ missing. inserted-Guarded repo _ (λ known. cc (known, e))) (λ failing. tt)

  register-Guarded : (repo : Repository) → GuardedHandling (register api repo)
  unfolding register
  register-Guarded repo = looked_up-Guarded repo _ refl

  extracted-Guarded :
      (repo : Repository) (o : Option String) → GuardedHandling (extracted api repo o)
  extracted-Guarded repo none = register-Guarded repo
  extracted-Guarded repo (some err) = tt

  check_upload-Guarded : (repo : Repository) → GuardedHandling (check_upload api repo)
  unfolding check_upload
  check_upload-Guarded repo =
      let P = GuardedHandling in
      if-elim P (not (is_file_url repo.url)) _ _ (λ _. register-Guarded repo)
        (λ _.
          if-elim P (extract_rid repo.url == "") _ _ (λ _. tt)
            (λ _.
              if-elim P (not (api.zip_exists (extract_rid repo.url))) _ _ (λ _. tt)
                (λ _.
                  if-elim P (api.dir_exists (extract_rid repo.url)) _ _ (λ _. register-Guarded repo)
                    (λ _. extracted-Guarded repo _))))

  after_input-Guarded :
      (repo : Repository) (o : String × Checked) → GuardedHandling (after_input api repo o)
  after_input-Guarded repo (url, (sent, some err)) = tt
  after_input-Guarded repo (url, (sent, none)) = check_upload-Guarded (record repo { url = url })

  authorized_for-Guarded :
      (repo : Repository) (ok : Bool) → GuardedHandling (authorized_for api repo ok)
  authorized_for-Guarded repo false = tt
  authorized_for-Guarded repo true = after_input-Guarded repo _

  receive_request-Guarded :
      (parsed : Reply Repository) → GuardedHandling (receive_request api parsed)
  unfolding receive_request
  receive_request-Guarded (refused err) = tt
  receive_request-Guarded (found repo) = authorized_for-Guarded repo _

  -- A request starts no analysis of a known repository and branch whose last analysis the
  -- database reports as running.
  pub started_not_running :
      (parsed : Reply Repository) (r : Repository) (a : Analysis)
      → (receive_request api parsed).started ≡ some r
      → api.find_repository r.url ≡ none
      → api.find_analysis r.url r.branch ≡ found a
      → (a.status == "running") ≡ false
  started_not_running parsed r a e known = subst Guarded e (receive_request-Guarded parsed) known a

  -- One answer, which is 201 where an analysis is started and another status where none is.
  abbrev pub AnswersOnce : Handled → Type 0
  AnswersOnce h =
      ((h.answers ≡ 201 ∷ []) × (is_some h.started ≡ true))
      ⊎ ((status : ℕ) × (h.answers ≡ status ∷ []) × (400 ≤ status) × (h.started ≡ none))
