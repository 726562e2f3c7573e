-- ===== src/Tests/Databases.antt =====
-- The statements of Postgres and the documents of MongoDB at concrete inputs.
use husky_ci.Base.{
  ℕ, pos, String, ◌≡◌, refl, sym, ap, ◌∙◌, suc, true, false, Option, none, some, is_some, List, [],
  ◌∷◌, ◌++◌, ◌+◌, ◌⧺◌, length, itoa, contains, false,
}
use husky_ci.Base.Reply.{Reply, found, refused, ◌>>=◌, >>=-eq-found}
use husky_ci.Types.{Repository, Analysis, User, DbToken, no_results}
use husky_ci.Database.Query.{
  Params, keys, with_clause, configure_update_query, configure_insert_query,
}
use husky_ci.Database.Clauses.{clause, values_of, configure_update_query_lem}
use husky_ci.Database.Columns.{columns, marks, configure_insert_query_lem}
use husky_ci.Database.Arrays.{is_unquoted, convert_string_to_slice}
use husky_ci.Database.Rows.{text, Row}
use husky_ci.Database.Postgres.{Cursor, Cell, Retriever, plain}
use husky_ci.Database.Requests.{
  update_one_repository, update_one_analysis, update_one_user, update_one_analysis_container,
  update_one_access_token, find_one_repository, find_one_security_test, find_one_analysis,
  find_one_user, find_one_access_token,
}
use husky_ci.Database.Guards.{HasWhere, updates-HasWhere}
use husky_ci.Database.Answers.{KeepsLength, finds_return}
use husky_ci.Database.Mongo.{
  Collection, Update, document, operator, update_one_user as update_user_document,
}
use husky_ci.Token.Defs.{invalidate}
use husky_ci.Token.Mongo.{mongo_tokens, mongo_never_deactivates}
use husky_ci.Tests.Tokens.{crypto}
use husky_ci.Tests.World.{brakeman_test}

abbrev by_url : Params String
by_url = ("repositoryURL", "u") ∷ ("repositoryBranch", "b") ∷ []

abbrev new_status : Params String
new_status = ("status", "finished") ∷ ("result", "passed") ∷ []

update_text : configure_update_query "UPDATE analysis" by_url new_status ≡ (
  "UPDATE analysis SET \"status\" = $3, \"result\" = $4 WHERE \"repositoryURL\" = $1 AND \"repositoryBranch\" = $2",
  "u" ∷ "b" ∷ "finished" ∷ "passed" ∷ [],
)
unfolding configure_update_query contains itoa
update_text = refl

configure_update_query_lem_example : configure_update_query "UPDATE analysis" by_url new_status ≡ (
  with_clause
      (with_clause "UPDATE analysis" (clause "SET" "," (1 + length by_url) (keys new_status)))
      (clause "WHERE" " AND" 1 (keys by_url)),
  values_of by_url ++ values_of new_status,
)
configure_update_query_lem_example = configure_update_query_lem "UPDATE analysis" by_url new_status

insert_text :
    configure_insert_query {V = String} "INSERT INTO user"
      (("username", "ana") ∷ ("salt", "s") ∷ [])
    ≡ (
      "INSERT INTO user"
          ⧺ " "
          ⧺ ("(" ⧺ columns "username" ("salt" ∷ []))
          ⧺ " "
          ⧺ ("VALUES (" ⧺ marks 1 "username" ("salt" ∷ [])),
      "ana" ∷ "s" ∷ [],
    )
insert_text = configure_insert_query_lem "INSERT INTO user" "username" "ana" (("salt", "s") ∷ [])

-- A database whose state is the number of the statements that were executed.
abbrev cursor : Cursor (Cell String)
cursor = record {
  column_names = found ("name" ∷ []);
  scans = found (plain "gosec" ∷ []) ∷ [];
  rows_err = none;
  close_err = none;
}

abbrev retriever : Retriever ℕ String
retriever = record {
  run_query = λ query values s. found cursor;
  exec = λ query values s. (found 1, s + 1);
  json = λ t. none;
  marshal = λ v. found "{}";
}

abbrev user : User
user = record {
  username = "ana";
  password = "p";
  salt = "s";
  iterations = pos 10;
  key_len = pos 8;
  hash_function = "SHA512";
  new_password = "";
  confirm_new_password = "";
}

abbrev token : DbToken
token = record { husky_token = "t"; url = "u"; is_valid = true; salt = "s"; uuid = "i" }

abbrev one_value : Row
one_value = ("name", text "gosec") ∷ []

updates-HasWhere_example :
    HasWhere retriever 0 (update_one_repository retriever one_value one_value 0)
    × HasWhere retriever 0 (update_one_analysis retriever one_value one_value 0)
    × HasWhere retriever 0 (update_one_user retriever one_value user 0)
    × HasWhere retriever 0 (update_one_analysis_container retriever one_value one_value 0)
    × HasWhere retriever 0 (update_one_access_token retriever one_value token none 0)
updates-HasWhere_example = updates-HasWhere retriever one_value one_value user token none 0

-- Decoders that read as many values as there are rows.
abbrev each_row : {A : Type 0} → A → List (Params (Cell String)) → Reply (List A)
each_row a [] = found []
each_row a (row ∷ rows) = each_row a rows >>= λ read. found (a ∷ read)

each_row-KeepsLength : {A : Type 0} (a : A) → KeepsLength (each_row a)
each_row-KeepsLength a [] answer h = ap (count 0) (sym h)
  where
    count : {A : Type 0} → ℕ → Reply (List A) → ℕ
    count d (found xs) = length xs
    count d (refused err) = d
each_row-KeepsLength a (row ∷ rows) answer h =
    let (read, e, h1) = >>=-eq-found (each_row a rows) _ h in
    ap (count 0) (sym h1) ∙ ap (λ (n : ℕ). suc n) (each_row-KeepsLength a rows read e)
  where
    count : {A : Type 0} → ℕ → Reply (List A) → ℕ
    count d (found xs) = length xs
    count d (refused err) = d

abbrev repository : Repository
repository = record {
  url = "u";
  branch = "b";
  language_exclusions = λ name. false;
  enry_output = "";
}

abbrev analysis : Analysis
analysis = record {
  rid = "r";
  url = "u";
  branch = "b";
  commit_authors = [];
  status = "finished";
  result = "passed";
  error_found = "";
  containers = [];
  codes = [];
  husky_results = no_results;
}

closes_of : {c : Cursor (Cell String)} → found cursor ≡ found c → c.close_err ≡ none
closes_of {c} e = ap err (sym e)
  where
    err : Reply (Cursor (Cell String)) → Option String
    err (found r) = r.close_err
    err (refused e) = none

finds_return_example :
    (is_some (find_one_repository retriever (each_row repository) one_value 0) ≡ true)
    × (is_some (find_one_security_test retriever (each_row brakeman_test) one_value 0) ≡ true)
    × (is_some (find_one_analysis retriever (each_row analysis) one_value 0) ≡ true)
    × (is_some (find_one_user retriever (each_row user) one_value 0) ≡ true)
    × (is_some (find_one_access_token retriever (each_row token) one_value 0) ≡ true)
finds_return_example =
    finds_return retriever (each_row repository) (each_row brakeman_test) (each_row analysis)
      (each_row user) (each_row token) (each_row-KeepsLength repository)
      (each_row-KeepsLength brakeman_test) (each_row-KeepsLength analysis)
      (each_row-KeepsLength user) (each_row-KeepsLength token) (λ query values s c e. closes_of e)
      one_value 0

-- What the regular expression does to other values.
luke_loses_a_letter : convert_string_to_slice "{Luke}" ≡ "uke" ∷ []
unfolding convert_string_to_slice is_unquoted
luke_loses_a_letter = refl

-- A collection whose driver refuses documents, and which has one token.
abbrev refusing : Collection ℕ
refusing = record {
  insert_one = λ collection row s. (none, s + 1);
  update_one = λ collection filter update s. refuse update s;
  upsert_one = λ collection filter update s. (found 1, s + 1);
  find_one = λ collection filter s. found one_value;
  find = λ collection filter s. found (one_value ∷ []);
  find_one_and_update = λ collection filter update s. (found one_value, s);
}
  where
    refuse : Update → ℕ → Option String × ℕ
    refuse (document row) s = (some "update document must contain key beginning with '$'", s)
    refuse (operator op row) s = (none, s + 1)

mongo_never_deactivates_example :
    ((err : String) × (invalidate (mongo_tokens refusing (λ row. found token) "now") crypto "aTpi" 0
        ≡ refused err))
    × ((err : String) × (update_user_document refusing one_value user 0 ≡ (some err, 0)))
mongo_never_deactivates_example =
    mongo_never_deactivates refusing (λ row. found token) "now"
      (λ collection filter row s. ("update document must contain key beginning with '$'", refl))
      crypto "aTpi" one_value user 0
