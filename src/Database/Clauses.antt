-- ===== src/Database/Clauses.antt =====
-- What the queries of api/db/postgres.go read like: the placeholders of a query are numbered from
-- one in the order of the values that go with it.
use husky_ci.Base.{
  ℕ, suc, ◌+◌, String, ◌≡◌, refl, sym, ◌∙◌, arith, true, false, List, [], ◌∷◌, ◌++◌, contains, ◌⧺◌,
  length, itoa, pos,
}
use husky_ci.Base.Lists.{snoc_append}
use husky_ci.Base.TextLaws.{⧺-assoc, ⧺-nil, contains-append_left, contains-append_right}
use mathlib.Core.List.{append-nil}
use husky_ci.Database.Query.{
  Params, keys, condition, unless_contains, if_contains, with_clause, clause_loop,
  configure_update_query,
}

-- The conditions on the keys, numbered from `i` and each after `sep`.
unfoldable pub more : String → ℕ → List String → String
more sep i [] = ""
more sep i (k ∷ ks) = (sep ⧺ condition k i) ⧺ more sep (suc i) ks

-- The conditions after the word `start`, with `sep` between them.
unfoldable pub clause : (start sep : String) → ℕ → List String → String
unfolding more
clause start sep i [] = ""
clause start sep i (k ∷ ks) = (start ⧺ condition k i) ⧺ more sep (suc i) ks

abbrev pub values_of {ℓ} : {V : Type ℓ} → List (String × V) → List V
values_of [] = []
values_of ((k, v) ∷ ps) = v ∷ values_of ps

marks_equals : contains "\" = $" "=" ≡ true
unfolding contains
marks_equals = refl

contains-condition : (s k : String) (i : ℕ) → contains (s ⧺ condition k i) "=" ≡ true
contains-condition s k i = contains-append_right s (condition k i) "=" (
    contains-append_right " \"" (k ⧺ "\" = $" ⧺ itoa (pos i)) "=" (
      contains-append_right k ("\" = $" ⧺ itoa (pos i)) "="
        (contains-append_left "\" = $" (itoa (pos i)) "=" marks_equals)))

if_contains-true : (s mark t : String) → contains s mark ≡ true → if_contains s mark t ≡ t
if_contains-true s mark t h = rw h refl

if_contains-false : (s mark t : String) → contains s mark ≡ false → if_contains s mark t ≡ s
if_contains-false s mark t h = rw h refl

unless_contains-true : (s mark t : String) → contains s mark ≡ true → unless_contains s mark t ≡ s
unless_contains-true s mark t h = rw h refl

-- The text after a round that is not the first.
next_text :
    (start sep q k : String) (i : ℕ)
    → contains q start ≡ true
    → contains q "=" ≡ true
    → (let opened = unless_contains q start start in
        if_contains opened "=" (opened ⧺ sep) ⧺ condition k i)
      ≡ q ⧺ (sep ⧺ condition k i)
next_text start sep q k i h e =
    rw (unless_contains-true q start start h)
      (rw (if_contains-true q "=" (q ⧺ sep) e) (⧺-assoc q sep (condition k i)))

pub triple :
    {A B C : Type 0} {a a' : A} {b b' : B} {c c' : C}
    → a ≡ a'
    → b ≡ b'
    → c ≡ c'
    → ◌≡◌ {A = A × (B × C)} (a, (b, c)) (a', (b', c'))
triple p q r = cc

module _ {V : Type 0} (start sep : String) where
  clause_loop-more :
      (i : ℕ) (q : String) (values : List V) (ps : Params V)
      → contains q start ≡ true
      → contains q "=" ≡ true
      → clause_loop start sep i q values ps
        ≡ (i + length ps, (q ⧺ more sep i (keys ps), values ++ values_of ps))
  unfolding clause_loop more
  clause_loop-more i q values [] h e =
      triple (omega arith) (sym (⧺-nil q)) (sym (append-nil values))
  clause_loop-more i q values ((k, v) ∷ ps) h e =
      let t = sep ⧺ condition k i in
      rw (next_text start sep q k i h e) (
        clause_loop-more (suc i) (q ⧺ t) (values ++ v ∷ []) ps (contains-append_left q t start h)
          (contains-append_left q t "=" e)
        ∙ triple (omega arith) (⧺-assoc q t (more sep (suc i) (keys ps)))
            (snoc_append values v (values_of ps)))

  -- A whole loop: its clause, with the numbers and the values that follow those of `values`.
  clause_loop_lem :
      (i : ℕ) (values : List V) (ps : Params V)
      → contains "" start ≡ false
      → contains start start ≡ true
      → contains start "=" ≡ false
      → clause_loop start sep i "" values ps
        ≡ (i + length ps, (clause start sep i (keys ps), values ++ values_of ps))
  unfolding clause_loop clause
  clause_loop_lem i values [] empty whole plain =
      triple (omega arith) refl (sym (append-nil values))
  clause_loop_lem i values ((k, v) ∷ ps) empty whole plain =
      let t = condition k i in
      rw (empty, plain)
        (clause_loop-more (suc i) (start ⧺ t) (values ++ v ∷ []) ps
            (contains-append_left start t start whole) (contains-condition start k i)
          ∙ triple (omega arith) refl (snoc_append values v (values_of ps)))

-- `ConfigureUpdateQuery`: the query sets the new columns and then searches by the others. The
-- placeholders of the search are numbered from one and those of the new columns follow, which is
-- the order of the values; every key occurs in its clause, in the order of the map's visit.
pub configure_update_query_lem :
    {V : Type 0} (query : String) (found_by new : Params V)
    → configure_update_query query found_by new ≡ (
      with_clause
          (with_clause query (clause "SET" "," (1 + length found_by) (keys new)))
          (clause "WHERE" " AND" 1 (keys found_by)),
      values_of found_by ++ values_of new,
    )
unfolding configure_update_query contains
configure_update_query_lem query found_by new =
    rw (clause_loop_lem "WHERE" " AND" 1 [] found_by refl refl refl) (
      rw (clause_loop_lem "SET" "," (1 + length found_by) (values_of found_by) new refl refl refl)
        refl)
