-- ===== src/Database/Requests.antt =====
-- The operations of `PostgresRequests`, api/db/postgres.go.
use husky_ci.Base.{
  ℕ, pos, negsuc, ℤ, String, ◌==◌, Bool, false, not, ◌&&◌, ◌||◌, Option, is_some, List, [], ◌∷◌,
  if◌then◌else◌, is_empty, eqb,
}
use husky_ci.Base.Reply.{Reply, found, refused, ◌>>=◌}
use husky_ci.Types.{Repository, SecurityTest, Analysis, User, DbToken, DockerAddresses}
use husky_ci.Database.Query.{
  Params, configure_query, configure_insert_query, configure_update_query, configure_upsert_query,
}
use husky_ci.Database.Rows.{
  Value, texts, containers, results, codes, pg_array, encoded, Row, repository_row,
  security_test_row, updated_test_row, analysis_row, user_row, access_token_row,
}
use husky_ci.Database.Postgres.{Cell, Retriever, retrieve_from_db, first_of}

abbrev pub is_zero : ℤ → Bool
is_zero (pos n) = eqb n 0
is_zero (negsuc n) = false

-- `types.SecurityTest{} == t`
abbrev pub no_security_test : SecurityTest → Bool
no_security_test t =
    t.name == ""
    && t.image == ""
    && t.image_tag == ""
    && t.cmd == ""
    && t.test_type == ""
    && t.language == ""
    && not t.is_default
    && is_zero t.time_out_in_seconds

-- `types.User{} == u`
abbrev pub no_user : User → Bool
no_user u =
    u.username == ""
    && u.password == ""
    && u.salt == ""
    && is_zero u.iterations
    && is_zero u.key_len
    && u.hash_function == ""
    && u.new_password == ""
    && u.confirm_new_password == ""

-- `types.DBToken{} == t`; the token is the zero value only if its time stamp is zero too.
abbrev pub no_token : DbToken → Option String → Bool
no_token t created_at =
    t.husky_token == ""
    && t.url == ""
    && not t.is_valid
    && not (is_some created_at)
    && t.salt == ""
    && t.uuid == ""

-- What an operation that writes returns, and the state after it.
abbrev pub Write : Type 0 → Type 0
Write S = Reply ℕ × S

-- `if rowsAff == 0 { return errors.New(err) }`
abbrev pub counted : {S : Type 0} → String → Write S → Write S
counted err (refused e, s) = (refused e, s)
counted err (found n, s) = (if eqb n 0 then refused err else found n, s)

-- `if v, ok := m[k].(T); ok { ...; m[k] = converted }`
unfoldable pub at_key : String → (Value → Reply Value) → Row → Reply Row
at_key k f [] = found []
at_key k f ((j, v) ∷ row) =
    let later = at_key k f row >>= λ (rest : Row). found ((j, v) ∷ rest) in
    let here = f v >>= λ (v' : Value). found ((j, v') ∷ row) in if j == k then here else later

module _ {S J : Type 0} (db : Retriever S J) where
  -- The `FindOneDB` operations: `SELECT * FROM` a table, with a decoder of the struct.
  abbrev pub find_one :
      {A : Type 0}
      → (List (Params (Cell J)) → Reply (List A))
      → String
      → List String
      → Row
      → S
      → Option (Reply A)
  find_one into query arrays params s =
      let (q, values) = configure_query query params in
      first_of (retrieve_from_db db into q arrays values s)

  abbrev find_all :
      {A : Type 0}
      → (List (Params (Cell J)) → Reply (List A))
      → String
      → Row
      → S
      → Option (Reply (List A))
  find_all into query params s =
      let (q, values) = configure_query query params in retrieve_from_db db into q [] values s

  unfoldable pub find_one_repository :
      (List (Params (Cell J)) → Reply (List Repository)) → Row → S → Option (Reply Repository)
  find_one_repository into = find_one into "SELECT * FROM \"repository\"" []

  unfoldable pub find_one_security_test :
      (List (Params (Cell J)) → Reply (List SecurityTest)) → Row → S → Option (Reply SecurityTest)
  find_one_security_test into = find_one into "SELECT * FROM \"securityTest\"" []

  unfoldable pub find_one_analysis :
      (List (Params (Cell J)) → Reply (List Analysis)) → Row → S → Option (Reply Analysis)
  find_one_analysis into = find_one into "SELECT * FROM \"analysis\"" ("commitAuthors" ∷ [])

  unfoldable pub find_one_user :
      (List (Params (Cell J)) → Reply (List User)) → Row → S → Option (Reply User)
  find_one_user into = find_one into "SELECT * FROM \"user\"" []

  unfoldable pub find_one_access_token :
      (List (Params (Cell J)) → Reply (List DbToken)) → Row → S → Option (Reply DbToken)
  find_one_access_token into = find_one into "SELECT * FROM \"accessToken\"" []

  unfoldable pub find_all_repository :
      (List (Params (Cell J)) → Reply (List Repository))
      → Row
      → S
      → Option (Reply (List Repository))
  find_all_repository into = find_all into "SELECT * FROM repository"

  unfoldable pub find_all_security_test :
      (List (Params (Cell J)) → Reply (List SecurityTest))
      → Row
      → S
      → Option (Reply (List SecurityTest))
  find_all_security_test into = find_all into "SELECT * FROM \"securityTest\""

  unfoldable pub find_all_analysis :
      (List (Params (Cell J)) → Reply (List Analysis)) → Row → S → Option (Reply (List Analysis))
  find_all_analysis into = find_all into "SELECT * FROM analysis"

  -- The end of the `InsertDB` operations.
  abbrev pub insert_row : String → Row → S → Write S
  insert_row query row s =
      let (q, values) = configure_insert_query query row in
      counted "No data was inserted" (db.exec q values s)

  abbrev pub unless : Bool → String → S → Write S → Write S
  unless test err s next = if test then (refused err, s) else next

  unfoldable pub insert_repository : String → Option String → S → Write S
  insert_repository url created_at s =
      unless (url == "" || not (is_some created_at)) "Empty repository data" s
        (insert_row "INSERT into repository" (repository_row url created_at) s)

  unfoldable pub insert_security_test : SecurityTest → S → Write S
  insert_security_test t s =
      unless (no_security_test t) "Empty SecurityTest data" s
        (insert_row "INSERT into \"securityTest\"" (security_test_row t) s)

  unfoldable pub insert_user : User → S → Write S
  insert_user u s =
      unless (no_user u) "Empty User data" s (insert_row "INSERT into \"user\"" (user_row u) s)

  unfoldable pub insert_access_token : DbToken → Option String → S → Write S
  insert_access_token t created_at s =
      unless (no_token t created_at) "Empty DBToken data" s
        (insert_row "INSERT into \"accessToken\"" (access_token_row t created_at) s)

  abbrev marshalled : Value → Reply Value
  marshalled v = do b ← db.marshal v; found (encoded b)

  abbrev to_array : Value → Reply Value
  to_array (texts l) = found (pg_array l)
  to_array v = found v

  abbrev containers_json : Value → Reply Value
  containers_json (containers l) = marshalled (containers l)
  containers_json v = found v

  abbrev results_json : Value → Reply Value
  results_json (results r) = marshalled (results r)
  results_json v = found v

  abbrev codes_json : Value → Reply Value
  codes_json (codes l) = marshalled (codes l)
  codes_json v = found v

  -- `ConfigureAnalysisData`
  unfoldable pub configure_analysis_data : Row → Reply Row
  unfolding at_key
  configure_analysis_data row = do
    r1 ← at_key "commitAuthors" to_array row
    r2 ← at_key "containers" containers_json r1
    r3 ← at_key "huskyciresults" results_json r2
    at_key "codes" codes_json r3

  abbrev pub with_data : Reply Row → S → (Row → Write S) → Write S
  with_data (refused err) s next = (refused err, s)
  with_data (found row) s next = next row

  unfoldable pub insert_analysis : Analysis → Option String → S → Write S
  unfolding configure_analysis_data
  insert_analysis a started_at s = unless (a.url == "") "Empty Analysis data" s (
      with_data (configure_analysis_data (analysis_row a started_at)) s
        (λ row. insert_row "INSERT into analysis" row s))

  -- The end of the `UpdateOneDB` operations.
  abbrev pub update_row : String → Row → Row → S → Write S
  update_row query found_by new s =
      let (q, values) = configure_update_query query found_by new in
      counted "No data was updated" (db.exec q values s)

  -- The two tests at the head of the operations that update.
  abbrev pub guarded : Bool → Row → S → Write S → Write S
  guarded no_fields found_by s next =
      unless no_fields "Empty fields to be updated" s
        (unless (is_empty found_by) "Empty fields to search" s next)

  unfoldable pub update_one_repository : Row → Row → S → Write S
  update_one_repository found_by new s =
      guarded (is_empty new) found_by s (update_row "UPDATE repository" found_by new s)

  unfoldable pub upsert_one_security_test : Row → SecurityTest → S → Write S
  upsert_one_security_test found_by t s = guarded (no_security_test t) found_by s (
      let (q, values) =
        configure_upsert_query "INSERT into \"securityTest\"" found_by (updated_test_row t) in
      counted "No data was updated" (db.exec q values s))

  unfoldable pub update_one_analysis : Row → Row → S → Write S
  unfolding configure_analysis_data
  update_one_analysis found_by new s = guarded (is_empty new) found_by s (
      with_data (configure_analysis_data new) s
        (λ row. update_row "UPDATE analysis" found_by row s))

  unfoldable pub update_one_user : Row → User → S → Write S
  update_one_user found_by u s =
      guarded (no_user u) found_by s (update_row "UPDATE \"user\"" found_by (user_row u) s)

  unfoldable pub update_one_analysis_container : Row → Row → S → Write S
  unfolding configure_analysis_data
  update_one_analysis_container found_by new s = guarded (is_empty new) found_by s (
      with_data (configure_analysis_data new) s
        (λ row. update_row "UPDATE analysis" found_by row s))

  unfoldable pub update_one_access_token : Row → DbToken → Option String → S → Write S
  update_one_access_token found_by t created_at s =
      guarded (no_token t created_at) found_by s
        (update_row "UPDATE \"accessToken\"" found_by (access_token_row t created_at) s)

-- `FindAndModifyDockerAPIAddresses` of Postgres
unfoldable pub find_and_modify_addresses : DockerAddresses
find_and_modify_addresses = record { current_host_index = pos 0; host_list = [] }
