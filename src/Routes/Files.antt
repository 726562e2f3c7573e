-- ===== src/Routes/Files.antt =====
-- `UploadZip` and `GetAnalysis` of api/routes/analysis.go.
use husky_ci.Base.{
  ℕ, String, ◌==◌, ◌≡◌, ◌∙◌, refl, ap, Bool, true, false, Option, none, some, List, [], ◌∷◌, ◌++◌,
  if◌then◌else◌, ◌⧺◌, if-elim, subst,
}
use husky_ci.Base.Reply.{Reply, found, refused}
use husky_ci.Types.{Analysis}
use husky_ci.Input.{Patterns, Checked, check_rid, answer}
use husky_ci.Routes.Receive.{is_no_data}

-- What `UploadZip` uses: the header and the query parameter of the request, the storage directory,
-- the form's file (its extension and an error to open it), and an error to create or to write the
-- file of a name.
pub record Upload : Type 0 where
  pub patterns : Patterns
  pub write : ℕ → Option String
  pub request_id : String
  pub query : String
  pub ensure_storage : Option String
  pub form_file : Reply String
  pub open_file : Option String
  pub save : String → Option String

-- The answers, the error, and the name of the file that was written, without its directory.
pub record Uploaded : Type 0 where
  pub answers : List ℕ
  pub error : Option String
  pub saved : Option String

module _ (u : Upload) where
  abbrev refuse : List ℕ → ℕ → Uploaded
  refuse sent status = record {
    answers = sent ++ status ∷ [];
    error = u.write status;
    saved = none;
  }

  abbrev saved_as : List ℕ → String → Option String → Uploaded
  saved_as sent name none = record {
    answers = sent ++ 201 ∷ [];
    error = u.write 201;
    saved = some name;
  }
  saved_as sent name (some err) = refuse sent 500

  abbrev opened : List ℕ → String → Option String → Uploaded
  opened sent rid none = saved_as sent (rid ⧺ ".zip") (u.save (rid ⧺ ".zip"))
  opened sent rid (some err) = refuse sent 500

  abbrev with_form : List ℕ → String → Reply String → Uploaded
  with_form sent rid (refused err) = refuse sent 400
  with_form sent rid (found ext) =
      if ext == ".zip" then opened sent rid u.open_file else refuse sent 400

  abbrev with_storage : List ℕ → String → Option String → Uploaded
  with_storage sent rid none = with_form sent rid u.form_file
  with_storage sent rid (some err) = refuse sent 500

  abbrev after_rid : String → Checked → Uploaded
  after_rid rid (sent, some err) = record { answers = sent; error = some err; saved = none }
  after_rid rid (sent, none) = with_storage sent rid u.ensure_storage

  abbrev pub requested : String
  requested = if u.query == "" then u.request_id else u.query

  -- `UploadZip`
  unfoldable pub upload_zip : Uploaded
  upload_zip =
      if requested == ""
      then refuse [] 400
      else after_rid requested (check_rid u.write u.patterns requested)

  rid_answered :
      (rid : String)
      → u.patterns.is_rid rid ≡ false
      → u.write 400 ≡ none
      → check_rid u.write u.patterns rid ≡ (400 ∷ [], none)
  unfolding check_rid
  rid_answered rid bad written =
      ap (λ b. if b then ([], none) else answer u.write 400) bad ∙ ap (λ e. (400 ∷ [], e)) written

  -- Where the answer 400 to an RID with other characters than letters, digits and hyphens can be
  -- written, an upload that meets no other error is stored under that RID all the same, and is
  -- answered a second time, with 201.
  pub invalid_rid_saved :
      (requested == "") ≡ false
      → u.patterns.is_rid requested ≡ false
      → u.write 400 ≡ none
      → u.ensure_storage ≡ none
      → u.form_file ≡ found ".zip"
      → u.open_file ≡ none
      → u.save (requested ⧺ ".zip") ≡ none
      → (upload_zip.saved ≡ some (requested ⧺ ".zip")) × (upload_zip.answers ≡ 400 ∷ 201 ∷ [])
  unfolding upload_zip
  invalid_rid_saved given bad written ready form opens saves =
      let e =
        ap
          (λ b.
            if b
            then refuse [] 400
            else after_rid requested (check_rid u.write u.patterns requested))
          given
        ∙ ap (after_rid requested) (rid_answered requested bad written)
        ∙ ap (with_storage (400 ∷ []) requested) ready
        ∙ ap (with_form (400 ∷ []) requested) form
        ∙ ap (opened (400 ∷ []) requested) opens
        ∙ ap (saved_as (400 ∷ []) (requested ⧺ ".zip")) saves in
      (ap (λ (r : Uploaded). r.saved) e, ap (λ (r : Uploaded). r.answers) e)

-- What `GetAnalysis` answers: a status, and the analysis if it is shown.
pub record Shown : Type 0 where
  pub answers : List ℕ
  pub error : Option String
  pub shown : Option Analysis

module _ (write : ℕ → Option String) (authorized : String → Bool) where
  abbrev hide : List ℕ → ℕ → Shown
  hide sent status = record { answers = sent ++ status ∷ []; error = write status; shown = none }

  abbrev looked_up : List ℕ → Reply Analysis → Shown
  looked_up sent (refused err) = if is_no_data err then hide sent 404 else hide sent 500
  looked_up sent (found a) =
      if authorized a.url
      then record { answers = sent ++ 200 ∷ []; error = write 200; shown = some a }
      else hide sent 401

  abbrev after_check : Reply Analysis → Checked → Shown
  after_check reply (sent, some err) = record { answers = sent; error = some err; shown = none }
  after_check reply (sent, none) = looked_up sent reply

  -- `GetAnalysis`
  unfoldable pub get_analysis : Patterns → String → (String → Reply Analysis) → Shown
  get_analysis ps rid find = after_check (find rid) (check_rid write ps rid)

  abbrev Allowed : (String → Reply Analysis) → String → Option Analysis → Type 0
  Allowed find rid none = Unit
  Allowed find rid (some a) = (find rid ≡ found a) × (authorized a.url ≡ true)

  looked_up-Allowed :
      (find : String → Reply Analysis) (rid : String) (sent : List ℕ) (reply : Reply Analysis)
      → find rid ≡ reply
      → Allowed find rid (looked_up sent reply).shown
  looked_up-Allowed find rid sent (refused err) e =
      if-elim (λ (s : Shown). Allowed find rid s.shown) (is_no_data err) _ _ (λ _. tt) (λ _. tt)
  looked_up-Allowed find rid sent (found a) e =
      if-elim (λ (s : Shown). Allowed find rid s.shown) (authorized a.url) _ _ (λ ok. (e, ok))
        (λ _. tt)

  after_check-Allowed :
      (find : String → Reply Analysis) (rid : String) (checked : Checked)
      → Allowed find rid (after_check (find rid) checked).shown
  after_check-Allowed find rid (sent, some err) = tt
  after_check-Allowed find rid (sent, none) = looked_up-Allowed find rid sent _ refl

  -- An analysis is shown only if it is the one of the RID, and the token is authorized for its URL.
  pub shown_authorized :
      (ps : Patterns) (rid : String) (find : String → Reply Analysis) (a : Analysis)
      → (get_analysis ps rid find).shown ≡ some a
      → (find rid ≡ found a) × (authorized a.url ≡ true)
  unfolding get_analysis
  shown_authorized ps rid find a e =
      subst (Allowed find rid) e (after_check-Allowed find rid (check_rid write ps rid))
