-- ===== src/Database/Guards.antt =====
-- What the operations of api/db/postgres.go never do: they index no empty answer, and they send
-- no UPDATE that has no WHERE.
use husky_ci.Base.{
  ◌+◌, String, ◌==◌, ◌≡◌, ◌⊎◌, inl, inr, refl, subst, eq_iff, Bool, true, false, Option, List, [],
  ◌∷◌, length, is_empty, contains, ◌⧺◌, if-elim,
}
use husky_ci.Base.Reply.{Reply, found, refused}
use husky_ci.Base.TextLaws.{contains-append_left, contains-append_right}
use husky_ci.Types.{User, DbToken}
use husky_ci.Database.Query.{keys, configure_update_query, with_clause, condition}
use husky_ci.Database.Clauses.{clause, more, configure_update_query_lem}
use husky_ci.Database.Rows.{Value, Row, user_row, access_token_row}
use husky_ci.Database.Postgres.{Retriever}
use husky_ci.Database.Requests.{
  Write, counted, unless, guarded, update_row, with_data, configure_analysis_data,
  update_one_repository, update_one_analysis, update_one_user, update_one_analysis_container,
  update_one_access_token, no_user, no_token,
}

never_empty : (part : String) → part ≡ "" → contains part "WHERE" ≡ true → ⊥
unfolding contains
never_empty part e h = let bad : false ≡ true = subst (λ p. contains p "WHERE" ≡ true) e h in cc

contains-with_clause :
    (query part : String)
    → contains part "WHERE" ≡ true
    → contains (with_clause query part) "WHERE" ≡ true
unfolding contains
contains-with_clause query part h =
    if-elim (λ (q : String). contains q "WHERE" ≡ true) (part == "") query (query ⧺ " " ⧺ part)
      (λ same. absurd (never_empty part ((eq_iff part "").0 same) h))
      (λ other.
        contains-append_right query (" " ⧺ part) "WHERE" (contains-append_right " " part "WHERE" h))

module _ {S J : Type 0} (db : Retriever S J) where
  -- The state is as before, or it is what a query with a WHERE has made of it.
  abbrev pub HasWhere : S → Write S → Type 0
  HasWhere s w =
      (w.1 ≡ s)
      ⊎ ((q : String) × (values : List Value) × (contains q "WHERE" ≡ true)
          × (w.1 ≡ (db.exec q values s).1))

contains-where :
    (k : String) (ks : List String) → contains (clause "WHERE" " AND" 1 (k ∷ ks)) "WHERE" ≡ true
unfolding clause contains
contains-where k ks =
    contains-append_left ("WHERE" ⧺ condition k 1) (more " AND" 2 ks) "WHERE"
      (contains-append_left "WHERE" (condition k 1) "WHERE" refl)

counted_state : {S : Type 0} (err : String) (w : Write S) → (counted err w).1 ≡ w.1
counted_state err (refused e, s) = refl
counted_state err (found n, s) = refl

module _ {S J : Type 0} (db : Retriever S J) where
  unless-HasWhere :
      (test : Bool) (err : String) (s : S) (next : Write S)
      → HasWhere db s next
      → HasWhere db s (unless db test err s next)
  unless-HasWhere true err s next h = inl refl
  unless-HasWhere false err s next h = h

  update_row-HasWhere :
      (query k : String) (v : Value) (ps new : Row) (s : S)
      → HasWhere db s (update_row db query ((k, v) ∷ ps) new s)
  update_row-HasWhere query k v ps new s =
      let found_by : Row = (k, v) ∷ ps in
      let built = configure_update_query query found_by new in
      inr (
        built.0,
        built.1,
        rw (configure_update_query_lem query found_by new) (
            contains-with_clause
              (with_clause query (clause "SET" "," (1 + length found_by) (keys new)))
              (clause "WHERE" " AND" 1 (keys found_by)) (contains-where k (keys ps))),
        counted_state "No data was updated" (db.exec built.0 built.1 s),
      )

  guarded-HasWhere :
      (no_fields : Bool) (query : String) (found_by new : Row) (s : S)
      → HasWhere db s (guarded db no_fields found_by s (update_row db query found_by new s))
  guarded-HasWhere no_fields query [] new s =
      unless-HasWhere no_fields "Empty fields to be updated" s (refused "Empty fields to search", s)
        (inl refl)
  guarded-HasWhere no_fields query ((k, v) ∷ ps) new s =
      unless-HasWhere no_fields "Empty fields to be updated" s
        (update_row db query ((k, v) ∷ ps) new s) (update_row-HasWhere query k v ps new s)

  with_data-HasWhere :
      (r : Reply Row) (query k : String) (v : Value) (ps : Row) (s : S)
      → HasWhere db s (with_data db r s (λ row. update_row db query ((k, v) ∷ ps) row s))
  with_data-HasWhere (refused err) query k v ps s = inl refl
  with_data-HasWhere (found row) query k v ps s = update_row-HasWhere query k v ps row s

  guarded_data-HasWhere :
      (no_fields : Bool) (r : Reply Row) (query : String) (found_by : Row) (s : S)
      → HasWhere db s (
          guarded db no_fields found_by s
            (with_data db r s (λ row. update_row db query found_by row s)))
  guarded_data-HasWhere no_fields r query [] s =
      unless-HasWhere no_fields "Empty fields to be updated" s (refused "Empty fields to search", s)
        (inl refl)
  guarded_data-HasWhere no_fields r query ((k, v) ∷ ps) s =
      unless-HasWhere no_fields "Empty fields to be updated" s
        (with_data db r s (λ row. update_row db query ((k, v) ∷ ps) row s))
        (with_data-HasWhere r query k v ps s)

-- No operation of `PostgresRequests` that updates a table changes all its rows: whatever is
-- searched for, either the state stays as it was, or the statement that was executed has a
-- `WHERE`.
pub updates-HasWhere :
    {S J : Type 0} (db : Retriever S J) (found_by new : Row) (u : User) (t : DbToken)
    (created_at : Option String) (s : S)
    → HasWhere db s (update_one_repository db found_by new s)
      × HasWhere db s (update_one_analysis db found_by new s)
      × HasWhere db s (update_one_user db found_by u s)
      × HasWhere db s (update_one_analysis_container db found_by new s)
      × HasWhere db s (update_one_access_token db found_by t created_at s)
unfolding update_one_repository update_one_analysis update_one_user update_one_analysis_container
    update_one_access_token
updates-HasWhere db found_by new u t created_at s = (
  guarded-HasWhere db (is_empty new) "UPDATE repository" found_by new s,
  guarded_data-HasWhere db (is_empty new) (configure_analysis_data db new) "UPDATE analysis"
      found_by s,
  guarded-HasWhere db (no_user u) "UPDATE \"user\"" found_by (user_row u) s,
  guarded_data-HasWhere db (is_empty new) (configure_analysis_data db new) "UPDATE analysis"
      found_by s,
  guarded-HasWhere db (no_token t created_at) "UPDATE \"accessToken\"" found_by
      (access_token_row t created_at) s,
)
