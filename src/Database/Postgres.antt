-- ===== src/Database/Postgres.antt =====
-- `PostgresRequests` of api/db/postgres.go over `SQLConfig` of api/db/postgres/sql.go.
use husky_ci.Base.{
  ℕ, String, ◌==◌, not, Option, none, some, List, [], ◌∷◌, ◌++◌, map, if◌then◌else◌, is_empty,
}
use husky_ci.Base.Reply.{Reply, found, refused, ◌>>=◌, ◌>>◌, ensure}
use husky_ci.Database.Query.{Params}
use husky_ci.Database.Arrays.{convert_string_to_slice}
use husky_ci.Database.Rows.{Value}

-- `sql.Rows`: the columns, what `Scan` gives at each row, `Err` after the last, and `Close`.
pub record Cursor (V : Type 0) : Type 0 where
  pub column_names : Reply (List String)
  pub scans : List (Reply (List V))
  pub rows_err : Option String
  pub close_err : Option String

-- `m[colName] = *rowVal`; a scan fills one value for each column.
abbrev pub zip_row {ℓ} : {V : Type ℓ} → List String → List V → List (String × V)
zip_row [] vs = []
zip_row (c ∷ cs) [] = []
zip_row (c ∷ cs) (v ∷ vs) = (c, v) ∷ zip_row cs vs

-- The deferred `CloseRows`: where it fails, `log.Fatal` ends the process, which is `none`.
abbrev pub closing {ℓ} : {A : Type ℓ} → Option String → A → Option A
closing none result = some result
closing (some err) result = none

-- `if err != nil { return err }` for a function that returns an error alone.
abbrev pub unless_err : Option String → Reply (Unit {0})
unless_err none = found tt
unless_err (some err) = refused err

module _ {V : Type 0} where
  -- `for HasNextRow() { ... }`
  unfoldable pub scan_rows :
      List String → List (Params V) → List (Reply (List V)) → Reply (List (Params V))
  scan_rows cols out [] = found out
  scan_rows cols out (refused err ∷ scans) = refused err
  scan_rows cols out (found vs ∷ scans) = scan_rows cols (out ++ zip_row cols vs ∷ []) scans

  -- `GetValuesFromDB` after the query.
  unfoldable pub read_rows : Cursor V → Reply (List (Params V))
  unfolding scan_rows
  read_rows cursor = do
    cols ← cursor.column_names
    rows ← scan_rows cols [] cursor.scans
    unless_err cursor.rows_err
    ensure (not (is_empty rows)) "No data found"
    found rows

  -- `GetValuesFromDB`, given what `db.Query` returns; `none` is the end of the process.
  unfoldable pub get_values_from_db : Reply (Cursor V) → Option (Reply (List (Params V)))
  unfolding read_rows
  get_values_from_db (refused err) = some (refused err)
  get_values_from_db (found cursor) = closing cursor.close_err (read_rows cursor)

-- A value of a row as the driver returns it (`bytes` is `[]uint8`) and as `RetrieveFromDB` leaves
-- it; a decoded JSON text is of type `J`.
pub data Cell (J : Type 0) : Type 0 where
  bytes : String → Cell J
  plain : String → Cell J
  strings : List String → Cell J
  parsed : J → Cell J

-- The libraries that the operations call. `json` is `Unmarshal` into an interface, `into` is
-- `Marshal` of the rows and `Unmarshal` into the response.
pub record Retriever (S J : Type 0) : Type 0 where
  pub run_query : String → List Value → S → Reply (Cursor (Cell J))
  pub exec : String → List Value → S → Reply ℕ × S
  pub json : String → Option J
  pub marshal : Value → Reply String

module _ {J : Type 0} where
  abbrev pub array_cell : (String → List String) → Cell J → Cell J
  array_cell slice (bytes b) = strings (slice b)
  array_cell slice (plain s) = plain s
  array_cell slice (strings l) = strings l
  array_cell slice (parsed j) = parsed j

  -- `row[column] = arrayValue`
  abbrev pub array_column : (String → List String) → String → Params (Cell J) → Params (Cell J)
  array_column slice column [] = []
  array_column slice column ((k, v) ∷ row) =
      (k, if k == column then array_cell slice v else v) ∷ array_column slice column row

  abbrev pub each_column :
      (String → List String) → List String → List (Params (Cell J)) → List (Params (Cell J))
  each_column slice [] rows = rows
  each_column slice (column ∷ columns) rows =
      each_column slice columns
        (if column == "" then rows else map (array_column slice column) rows)

  abbrev pub or_bytes : String → Option J → Cell J
  or_bytes b none = bytes b
  or_bytes b (some j) = parsed j

  abbrev pub json_cell : (String → Option J) → Cell J → Cell J
  json_cell json (bytes b) = or_bytes b (json b)
  json_cell json (plain s) = plain s
  json_cell json (strings l) = strings l
  json_cell json (parsed j) = parsed j

  abbrev pub json_row : (String → Option J) → Params (Cell J) → Params (Cell J)
  json_row json [] = []
  json_row json ((k, v) ∷ row) = (k, json_cell json v) ∷ json_row json row

-- `response[0]` of what was retrieved; `none` is the panic of an index out of range, or the end of
-- the process.
abbrev pub first_of {ℓ} : {A : Type ℓ} → Option (Reply (List A)) → Option (Reply A)
first_of none = none
first_of (some (refused err)) = some (refused err)
first_of (some (found [])) = none
first_of (some (found (a ∷ as'))) = some (found a)

abbrev pub decoded :
    {A C : Type 0} → (List C → Reply (List A)) → Option (Reply (List C)) → Option (Reply (List A))
decoded into none = none
decoded into (some (refused err)) = some (refused err)
decoded into (some (found rows)) = some (into rows)

module _ {S J : Type 0} (db : Retriever S J) where
  -- `RetrieveFromDB`
  unfoldable pub retrieve_from_db :
      {A : Type 0}
      → (List (Params (Cell J)) → Reply (List A))
      → String
      → List String
      → List Value
      → S
      → Option (Reply (List A))
  unfolding get_values_from_db convert_string_to_slice
  retrieve_from_db into query array_columns params s =
      decoded
        (λ rows.
          into (map (json_row db.json) (each_column convert_string_to_slice array_columns rows)))
        (get_values_from_db (db.run_query query params s))
