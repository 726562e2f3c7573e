-- ===== src/Database/Answers.antt =====
-- That the operations of api/db/postgres.go that find one row index no empty answer.
use husky_ci.Base.{
  ◌≡◌, refl, ◌∙◌, String, ◌==◌, true, false, not, none, some, is_some, Option, List, [], ◌∷◌,
  length, is_empty, map, if-elim, if◌then◌else◌, arith,
}
use husky_ci.Base.Reply.{Reply, found, refused, >>=-eq-found, ensure-found}
use husky_ci.Types.{User, DbToken, Repository, SecurityTest, Analysis}
use husky_ci.Database.Query.{Params, configure_query}
use husky_ci.Database.Rows.{Value, Row}
use husky_ci.Database.Arrays.{convert_string_to_slice}
use husky_ci.Database.Postgres.{
  Cell, Retriever, Cursor, scan_rows, unless_err, read_rows, get_values_from_db, retrieve_from_db,
  first_of, decoded, array_column, each_column, json_row,
}
use husky_ci.Database.Requests.{
  find_one, find_one_repository, find_one_security_test, find_one_analysis, find_one_user,
  find_one_access_token,
}

filled_of :
    {A : Type 0} (xs ys : List A)
    → not (is_empty xs) ≡ true
    → ◌≡◌ {A = Reply (List A)} (found xs) (found ys)
    → is_empty ys ≡ false
filled_of [] ys h e = cc
filled_of (x ∷ xs) [] h e = cc
filled_of (x ∷ xs) (y ∷ ys) h e = refl

-- `GetValuesFromDB` returns no empty answer.
read_rows-filled :
    {V : Type 0} (cursor : Cursor V) {rows : List (Params V)}
    → read_rows cursor ≡ found rows
    → is_empty rows ≡ false
unfolding read_rows
read_rows-filled cursor {rows} h =
    let (cols, e2, h2) = >>=-eq-found cursor.column_names _ h in
    let (all, e3, h3) = >>=-eq-found (scan_rows cols [] cursor.scans) _ h2 in
    let (u, e4, h4) = >>=-eq-found (unless_err cursor.rows_err) _ h3 in
    let (some_rows, e5) = ensure-found (not (is_empty all)) "No data found" (found all) h4 in
    filled_of all rows some_rows e5

-- A decoder of rows: `Marshal` and `Unmarshal` keep the number of the elements of an array.
abbrev pub KeepsLength : {A C : Type 0} → (List (Params C) → Reply (List A)) → Type 0
KeepsLength {A} {C} into =
    (rows : List (Params C)) (answer : List A)
    → into rows ≡ found answer
    → length answer ≡ length rows

length-map : {A B : Type 0} (f : A → B) (xs : List A) → length (map f xs) ≡ length xs
length-map f [] = refl
length-map f (x ∷ xs) = omega (arith, length-map f xs)

length-each_column :
    {J : Type 0} (slice : String → List String) (columns : List String)
    (rows : List (Params (Cell J)))
    → length (each_column slice columns rows) ≡ length rows
length-each_column slice [] rows = refl
length-each_column slice (column ∷ columns) rows =
    length-each_column slice columns
      (if column == "" then rows else map (array_column slice column) rows)
    ∙ if-elim (λ (r : List (Params (Cell _))). length r ≡ length rows) (column == "") rows
        (map (array_column slice column) rows) (λ same. refl)
        (λ other. length-map (array_column slice column) rows)

filled :
    {A B : Type 0} (xs : List A) (ys : List B)
    → is_empty xs ≡ false
    → length ys ≡ length xs
    → is_empty ys ≡ false
filled [] ys h e = cc
filled (x ∷ xs) [] h e = absurd (omega arith)
filled (x ∷ xs) (y ∷ ys) h e = refl

-- `Close` gives no error for the rows of any query.
abbrev pub ClosesRows : {S J : Type 0} → Retriever S J → Type 0
ClosesRows {S} {J} db =
    (query : String) (values : List Value) (s : S) (cursor : Cursor (Cell J))
    → db.run_query query values s ≡ found cursor
    → cursor.close_err ≡ none

-- What was retrieved holds a row, or is an error.
abbrev HasFirst : {A : Type 0} → Option (Reply (List A)) → Type 0
HasFirst r = is_some (first_of r) ≡ true

has_first :
    {A : Type 0} (r : Reply (List A))
    → ((answer : List A) → r ≡ found answer → is_empty answer ≡ false)
    → HasFirst (some r)
has_first (refused err) h = refl
has_first (found []) h = let bad = h [] refl in cc
has_first (found (a ∷ as')) h = refl

decoded-first :
    {A V : Type 0} (into : List (Params V) → Reply (List A)) (queried : Reply (Cursor V))
    → ((cursor : Cursor V) → queried ≡ found cursor → cursor.close_err ≡ none)
    → ((rows : List (Params V)) (answer : List A)
        → is_empty rows ≡ false
        → into rows ≡ found answer
        → is_empty answer ≡ false)
    → HasFirst (decoded into (get_values_from_db queried))
unfolding get_values_from_db
decoded-first into (refused err) closes fills = refl
decoded-first into (found cursor) closes fills =
    rw (closes cursor refl) (of_rows (read_rows cursor) refl)
  where
    of_rows :
        (r : Reply (List (Params _))) → read_rows cursor ≡ r → HasFirst (decoded into (some r))
    of_rows (refused err) e = refl
    of_rows (found rows) e =
        has_first (into rows) (λ answer e1. fills rows answer (read_rows-filled cursor e) e1)

module _ {S J A : Type 0} (db : Retriever S J) (into : List (Params (Cell J)) → Reply (List A))
    (keeps : KeepsLength into) (closes : ClosesRows db) where
  pub find_one-returns :
      (query : String) (arrays : List String) (params : Row) (s : S)
      → is_some (find_one db into query arrays params s) ≡ true
  unfolding retrieve_from_db
  find_one-returns query arrays params s =
      let built = configure_query query params in
      decoded-first
        (λ rows. into (map (json_row db.json) (each_column convert_string_to_slice arrays rows)))
        (db.run_query built.0 built.1 s) (closes built.0 built.1 s)
        (λ rows answer some_rows e. filled rows answer some_rows (
          keeps (map (json_row db.json) (each_column convert_string_to_slice arrays rows)) answer e
          ∙ length-map (json_row db.json) (each_column convert_string_to_slice arrays rows)
          ∙ length-each_column convert_string_to_slice arrays rows))

-- The five operations of `PostgresRequests` that find one row return for every search and every
-- answer of the database: where no row is found the answer is an error, and `response[0]` is
-- there otherwise. The conditions are that decoding keeps the number of the rows, and that closing
-- the rows never fails: the process ends where it does.
pub finds_return :
    {S J : Type 0} (db : Retriever S J)
    (to_repository : List (Params (Cell J)) → Reply (List Repository))
    (to_test : List (Params (Cell J)) → Reply (List SecurityTest))
    (to_analysis : List (Params (Cell J)) → Reply (List Analysis))
    (to_user : List (Params (Cell J)) → Reply (List User))
    (to_token : List (Params (Cell J)) → Reply (List DbToken))
    → KeepsLength to_repository
    → KeepsLength to_test
    → KeepsLength to_analysis
    → KeepsLength to_user
    → KeepsLength to_token
    → ClosesRows db
    → (params : Row) (s : S)
    → (is_some (find_one_repository db to_repository params s) ≡ true)
      × (is_some (find_one_security_test db to_test params s) ≡ true)
      × (is_some (find_one_analysis db to_analysis params s) ≡ true)
      × (is_some (find_one_user db to_user params s) ≡ true)
      × (is_some (find_one_access_token db to_token params s) ≡ true)
unfolding find_one_repository find_one_security_test find_one_analysis find_one_user
    find_one_access_token
finds_return db r t a u k kr kt ka ku kk closes params s = (
  find_one-returns db r kr closes "SELECT * FROM \"repository\"" [] params s,
  find_one-returns db t kt closes "SELECT * FROM \"securityTest\"" [] params s,
  find_one-returns db a ka closes "SELECT * FROM \"analysis\"" ("commitAuthors" ∷ []) params s,
  find_one-returns db u ku closes "SELECT * FROM \"user\"" [] params s,
  find_one-returns db k kk closes "SELECT * FROM \"accessToken\"" [] params s,
)
