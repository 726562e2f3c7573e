-- ===== src/Database/Query.antt =====
-- `ConfigureQuery`, `ConfigureInsertQuery`, `ConfigureUpdateQuery` and `ConfigureUpsertQuery` of
-- api/db/postgres.go. A Go map is the list of its entries in the order in which `range` visits
-- them, which is any order; a value is only passed on, so its type is a parameter.
use husky_ci.Base.{
  ℕ, suc, String, ◌==◌, List, [], ◌∷◌, ◌++◌, if◌then◌else◌, contains, ◌⧺◌, length, is_empty, eqb,
  itoa, pos,
}

-- `"k" = $i`, with the space that stands before it.
abbrev pub condition : String → ℕ → String
condition k i = " \"" ⧺ k ⧺ "\" = $" ⧺ itoa (pos i)

abbrev pub unless_contains : String → String → String → String
unless_contains s mark t = if contains s mark then s else t

abbrev pub if_contains : String → String → String → String
if_contains s mark t = if contains s mark then t else s

-- `map[string]interface{}`
abbrev pub Params : Type 0 → Type 0
Params V = List (String × V)

-- `for key := range params`
abbrev pub keys {ℓ} : {V : Type ℓ} → List (String × V) → List String
keys [] = []
keys ((k, v) ∷ ps) = k ∷ keys ps

-- `if clause != "" { query = query + " " + clause }`
abbrev pub with_clause : String → String → String
with_clause query clause = if clause == "" then query else query ⧺ " " ⧺ clause

-- The first loop of `ConfigureUpsertQuery`; `n` is `len(searchValues)`.
unfoldable pub conflict_loop : ℕ → ℕ → String → List String → String
conflict_loop n i q [] = q
conflict_loop n i q (k ∷ ks) =
    conflict_loop n (suc i)
      (unless_contains q "CONFLICT" "ON CONFLICT ("
        ⧺ "\""
        ⧺ k
        ⧺ "\""
        ⧺ (if eqb i n then ")" else ", "))
      ks

-- ` "k" = EXCLUDED."k"`
abbrev pub excluded : String → String
excluded k = " \"" ⧺ k ⧺ "\" = EXCLUDED.\"" ⧺ k ⧺ "\""

unfoldable pub excluded_loop : String → List String → String
excluded_loop q [] = q
excluded_loop q (k ∷ ks) =
    let opened = unless_contains q "UPDATE" "DO UPDATE SET" in
    excluded_loop (if_contains opened "=" (opened ⧺ ",") ⧺ excluded k) ks

module _ {V : Type 0} where
  unfoldable pub search_loop : ℕ → String → List V → Params V → String × List V
  search_loop i q values [] = (q, values)
  search_loop i q values ((k, v) ∷ ps) =
      search_loop (suc i) (if_contains q "=" (q ⧺ " AND") ⧺ condition k i) (values ++ v ∷ []) ps

  -- `ConfigureQuery`
  unfoldable pub configure_query : String → Params V → String × List V
  unfolding search_loop
  configure_query query params =
      search_loop 1 (if is_empty params then query else query ⧺ " WHERE") [] params

  -- The two loops of `ConfigureUpdateQuery`: `start` is `WHERE` or `SET`, `sep` is ` AND` or `,`.
  unfoldable pub clause_loop :
      (start sep : String) → ℕ → String → List V → Params V → ℕ × (String × List V)
  clause_loop start sep i q values [] = (i, (q, values))
  clause_loop start sep i q values ((k, v) ∷ ps) =
      let opened = unless_contains q start start in
      let joined = if_contains opened "=" (opened ⧺ sep) in
      clause_loop start sep (suc i) (joined ⧺ condition k i) (values ++ v ∷ []) ps

  -- `ConfigureUpdateQuery`
  unfoldable pub configure_update_query : String → Params V → Params V → String × List V
  unfolding clause_loop
  configure_update_query query found_by new =
      let (i, (where_part, values)) = clause_loop "WHERE" " AND" 1 "" [] found_by in
      let (n, (set_part, values')) = clause_loop "SET" "," i "" values new in
      (with_clause (with_clause query set_part) where_part, values')

  -- The loop of `ConfigureInsertQuery`; `n` is `len(params)`.
  unfoldable pub insert_loop :
      ℕ → ℕ → String → String → List V → Params V → String × (String × List V)
  insert_loop n i args marks values [] = (args, (marks, values))
  insert_loop n i args marks values ((k, v) ∷ ps) =
      let close = if eqb i n then ")" else ", " in
      insert_loop n (suc i) (args ⧺ "\"" ⧺ k ⧺ "\"" ⧺ close) (marks ⧺ "$" ⧺ itoa (pos i) ⧺ close)
        (values ++ v ∷ []) ps

  -- `ConfigureInsertQuery`
  unfoldable pub configure_insert_query : String → Params V → String × List V
  unfolding insert_loop
  configure_insert_query query params =
      let (args, (marks, values)) = insert_loop (length params) 1 "(" "VALUES (" [] params in
      (query ⧺ " " ⧺ args ⧺ " " ⧺ marks, values)

  -- `ConfigureUpsertQuery`
  unfoldable pub configure_upsert_query : String → Params V → Params V → String × List V
  unfolding conflict_loop excluded_loop configure_insert_query
  configure_upsert_query query found_by new =
      let (inserted, values) = configure_insert_query query new in
      let conflict = conflict_loop (length found_by) 1 "" (keys found_by) in
      let update = excluded_loop "" (keys new) in
      (with_clause (with_clause inserted conflict) update, values)
