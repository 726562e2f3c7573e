-- ===== src/Database/Columns.antt =====
-- What `ConfigureInsertQuery` of api/db/postgres.go builds.
use husky_ci.Base.{
  ℕ, suc, ◌+◌, String, ◌≡◌, refl, ◌∙◌, arith, true, false, List, [], ◌∷◌, ◌++◌, ◌⧺◌, length, eqb,
  itoa, pos,
}
use husky_ci.Base.Lists.{snoc_append}
use husky_ci.Base.TextLaws.{⧺-assoc}
use husky_ci.Database.Query.{Params, keys, insert_loop, configure_insert_query}
use husky_ci.Database.Clauses.{values_of, triple}

-- The quoted keys with commas between them, and a closing bracket.
pub columns : String → List String → String
columns k [] = "\"" ⧺ k ⧺ "\"" ⧺ ")"
columns k (k' ∷ ks) = ("\"" ⧺ k ⧺ "\"" ⧺ ", ") ⧺ columns k' ks

-- As many placeholders as keys, numbered from `i`.
pub marks : ℕ → String → List String → String
marks i k [] = "$" ⧺ itoa (pos i) ⧺ ")"
marks i k (k' ∷ ks) = ("$" ⧺ itoa (pos i) ⧺ ", ") ⧺ marks (suc i) k' ks

module _ {V : Type 0} where
  insert_loop_lem :
      (n i : ℕ) (args places : String) (values : List V) (k : String) (v : V) (ps : Params V)
      → n ≡ i + length ps
      → insert_loop n i args places values ((k, v) ∷ ps)
        ≡ (args ⧺ columns k (keys ps), (places ⧺ marks i k (keys ps), values ++ v ∷ values_of ps))
  unfolding insert_loop columns marks
  insert_loop_lem n i args places values k v [] h =
      let last : eqb i n ≡ true = ground arith in rw last refl
  insert_loop_lem n i args places values k v ((k', v') ∷ ps) h =
      let inner : eqb i n ≡ false = ground arith in
      rw inner (
        insert_loop_lem n (suc i) (args ⧺ "\"" ⧺ k ⧺ "\"" ⧺ ", ")
          (places ⧺ "$" ⧺ itoa (pos i) ⧺ ", ") (values ++ v ∷ []) k' v' ps (omega arith)
        ∙ triple (⧺-assoc args ("\"" ⧺ k ⧺ "\"" ⧺ ", ") (columns k' (keys ps)))
            (⧺-assoc places ("$" ⧺ itoa (pos i) ⧺ ", ") (marks (suc i) k' (keys ps)))
            (snoc_append values v (v' ∷ values_of ps)))

-- `ConfigureInsertQuery` of a map that is not empty: the columns are the keys in the order of the
-- visit, and there is one placeholder for each, numbered from one in the order of the values.
pub configure_insert_query_lem :
    {V : Type 0} (query k : String) (v : V) (ps : Params V)
    → configure_insert_query query ((k, v) ∷ ps) ≡ (
      query ⧺ " " ⧺ ("(" ⧺ columns k (keys ps)) ⧺ " " ⧺ ("VALUES (" ⧺ marks 1 k (keys ps)),
      v ∷ values_of ps,
    )
unfolding configure_insert_query
configure_insert_query_lem query k v ps =
    rw (insert_loop_lem (suc (length ps)) 1 "(" "VALUES (" [] k v ps (omega arith)) refl
