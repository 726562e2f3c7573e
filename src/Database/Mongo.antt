-- ===== src/Database/Mongo.antt =====
-- `MongoRequests` of api/db/huskydb.go over `DB` of api/db/mongo/mongo.go.
use husky_ci.Base.{ℕ, pos, ℤ, String, ◌==◌, Option, List, [], ◌∷◌, ◌++◌, if◌then◌else◌}
use husky_ci.Base.Reply.{Reply, found, ◌>>=◌}
use husky_ci.Types.{Repository, SecurityTest, Analysis, User, DbToken, DockerAddresses}
use husky_ci.Database.Rows.{
  text, number, Row, mongo_repository, mongo_security_test, mongo_analysis, mongo_user,
  mongo_access_token, updated_test_row, access_token_row,
}
use husky_ci.Database.Requests.{is_zero}

-- `bson.M{"$and": query}`, or `bson.M{}`.
pub data Filter : Type 0 where
  and : List Row → Filter
  everything : Filter

-- An update: `bson.M{op: row}`, such as `$set`, or a document as it stands.
pub data Update : Type 0 where
  operator : String → Row → Update
  document : Row → Update

-- `mongo.Collection`, with the selected database; the state is of type `S`.
pub record Collection (S : Type 0) : Type 0 where
  pub insert_one : String → Row → S → Option String × S
  pub update_one : String → Filter → Update → S → Option String × S
  pub upsert_one : String → Filter → Update → S → Reply ℕ × S
  pub find_one : String → Filter → S → Reply Row
  pub find : String → Filter → S → Reply (List Row)
  pub find_one_and_update : String → Filter → Update → S → Reply Row × S

-- The query of all operations: `for k, v := range mapParams { query = append(query, bson.M{k: v}) }`.
unfoldable pub query_loop : List Row → Row → List Row
query_loop query [] = query
query_loop query ((k, v) ∷ params) = query_loop (query ++ ((k, v) ∷ []) ∷ []) params

unfoldable pub and_query : Row → Filter
unfolding query_loop
and_query params = and (query_loop [] params)

-- `omitempty`
abbrev pub text_unless_empty : String → String → Row
text_unless_empty key value = if value == "" then [] else (key, text value) ∷ []

abbrev pub number_unless_zero : String → ℤ → Row
number_unless_zero key value = if is_zero value then [] else (key, number value) ∷ []

-- The struct `types.User` as a document.
abbrev pub user_document : User → Row
user_document u =
    (("username", text u.username) ∷ ("password", text u.password) ∷ [])
    ++ text_unless_empty "salt" u.salt
    ++ number_unless_zero "iterations" u.iterations
    ++ number_unless_zero "keylen" u.key_len
    ++ text_unless_empty "hashfunction" u.hash_function
    ++ text_unless_empty "newPassword" u.new_password
    ++ text_unless_empty "confirmNewPassword" u.confirm_new_password

module _ {S : Type 0} (db : Collection S) where
  abbrev find_row : {A : Type 0} → (Row → Reply A) → String → Row → S → Reply A
  find_row decode collection params s = db.find_one collection (and_query params) s >>= decode

  abbrev decode_all : {A : Type 0} → (Row → Reply A) → List Row → Reply (List A)
  decode_all decode [] = found []
  decode_all decode (r ∷ rows) = decode r >>= λ a. decode_all decode rows >>= λ as'. found (a ∷ as')

  abbrev find_rows : {A : Type 0} → (Row → Reply A) → String → Row → S → Reply (List A)
  find_rows decode collection params s =
      db.find collection (and_query params) s >>= decode_all decode

  unfoldable pub find_one_repository : (Row → Reply Repository) → Row → S → Reply Repository
  find_one_repository decode = find_row decode "repository"

  unfoldable pub find_one_security_test : (Row → Reply SecurityTest) → Row → S → Reply SecurityTest
  find_one_security_test decode = find_row decode "securityTest"

  unfoldable pub find_one_analysis : (Row → Reply Analysis) → Row → S → Reply Analysis
  find_one_analysis decode = find_row decode "analysis"

  unfoldable pub find_one_user : (Row → Reply User) → Row → S → Reply User
  find_one_user decode = find_row decode "user"

  unfoldable pub find_one_access_token : (Row → Reply DbToken) → Row → S → Reply DbToken
  find_one_access_token decode = find_row decode "accessToken"

  unfoldable pub find_all_repository : (Row → Reply Repository) → Row → S → Reply (List Repository)
  find_all_repository decode = find_rows decode "repository"

  unfoldable pub find_all_security_test :
      (Row → Reply SecurityTest) → Row → S → Reply (List SecurityTest)
  find_all_security_test decode = find_rows decode "securityTest"

  unfoldable pub find_all_analysis : (Row → Reply Analysis) → Row → S → Reply (List Analysis)
  find_all_analysis decode = find_rows decode "analysis"

  unfoldable pub insert_repository : String → Option String → S → Option String × S
  insert_repository url created_at = db.insert_one "repository" (mongo_repository url created_at)

  unfoldable pub insert_security_test : SecurityTest → S → Option String × S
  insert_security_test t = db.insert_one "securityTest" (mongo_security_test t)

  unfoldable pub insert_analysis : Analysis → Option String → S → Option String × S
  insert_analysis a started_at = db.insert_one "analysis" (mongo_analysis a started_at)

  unfoldable pub insert_user : User → S → Option String × S
  insert_user u = db.insert_one "user" (mongo_user u)

  unfoldable pub insert_access_token : DbToken → Option String → S → Option String × S
  insert_access_token t created_at = db.insert_one "accessToken" (mongo_access_token t created_at)

  unfoldable pub update_one_repository : Row → Row → S → Option String × S
  update_one_repository params new = db.update_one "repository" (and_query params) (document new)

  unfoldable pub upsert_one_security_test : Row → SecurityTest → S → Reply ℕ × S
  upsert_one_security_test params t =
      db.upsert_one "securityTest" (and_query params) (operator "$set" (updated_test_row t))

  unfoldable pub update_one_analysis : Row → Row → S → Option String × S
  update_one_analysis params new = db.update_one "analysis" (and_query params) (operator "$set" new)

  unfoldable pub update_one_user : Row → User → S → Option String × S
  update_one_user params u = db.update_one "user" (and_query params) (document (user_document u))

  unfoldable pub update_one_analysis_container : Row → Row → S → Option String × S
  update_one_analysis_container params new =
      db.update_one "analysis" (and_query params) (operator "$set" new)

  unfoldable pub update_one_access_token : Row → DbToken → Option String → S → Option String × S
  update_one_access_token params t created_at =
      db.update_one "accessToken" (and_query params) (document (access_token_row t created_at))

  unfoldable pub find_and_modify_addresses :
      (Row → Reply DockerAddresses) → S → Reply DockerAddresses × S
  find_and_modify_addresses decode s =
      let (r, s') =
        db.find_one_and_update "dockerAPIAddresses" everything
          (operator "$inc" (("currentHostIndex", number (pos 1)) ∷ [])) s in
      (r >>= decode, s')
