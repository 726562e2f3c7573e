-- ===== src/Run/Races.antt =====
-- Executions of the pattern of `Run.Join` that its comments rule out.
use mathlib.Core.List.{append_assoc}
use husky_ci.Base.{
  ◌<◌, String, ◌≡◌, sym, refl, true, none, some, List, [], ◌∷◌, ◌++◌, length, arith, length-append,
}
use husky_ci.Run.Join.{
  Task, leaving, returned, panicked, Join, start, send, crash, close_wait, see_end, see_error,
  leave, Reach, here, next, ended,
}

module _ {A : Type 0} where
  has_one :
      (pre : List (Task A)) (t : Task A) (post : List (Task A)) → 0 < length (pre ++ (t ∷ post))
  has_one pre t post = omega (arith, length-append pre (t ∷ post))

  -- Where two goroutines end in an error, there is an execution that panics: the second sends on
  -- the channel that the caller has closed.
  pub two_errors_panic :
      (pre : List (Task A)) (t : Task A) (mid : List (Task A)) (u : Task A) (post : List (Task A))
      (err err' : String)
      → t.error ≡ some err
      → u.error ≡ some err'
      → (j : Join A) × Reach (start (pre ++ (t ∷ mid ++ (u ∷ post)))) j × (j.phase ≡ panicked)
  two_errors_panic pre t mid u post err err' e f =
      let rest = mid ++ (u ∷ post) in
      let j₀ = start (pre ++ (t ∷ rest)) in
      let j₁ : Join A = record (ended pre t rest j₀) { queue = err ∷ [] } in
      let j₂ : Join A = record j₁ { queue = []; sync_closed = true; phase = leaving (some err) } in
      let j₃ : Join A = record j₂ { err_closed = true; phase = returned (some err) } in
      let r₁ : Reach j₀ j₁ =
        next here (send pre t rest err refl refl e refl (has_one pre t rest)) in
      let r₂ : Reach j₀ j₂ = next r₁ (see_error err [] refl refl) in
      let r₃ : Reach j₀ j₃ = next r₂ (leave (some err) refl) in
      (
        record (ended (pre ++ mid) u post j₃) { phase = panicked },
        next r₃
            (crash (pre ++ mid) u post err' refl (sym (append_assoc pre mid (u ∷ post))) f refl),
        refl,
      )

  -- Where the only goroutine ends in an error, there is an execution in which the caller returns
  -- nil.
  pub error_may_be_lost :
      (t : Task A) (err : String)
      → t.error ≡ some err
      → (j : Join A) × Reach (start (t ∷ [])) j × (j.phase ≡ returned none)
  error_may_be_lost t err e =
      let j₀ = start (t ∷ []) in
      let j₁ : Join A = record (ended [] t [] j₀) { queue = err ∷ [] } in
      let j₂ : Join A = record j₁ { wait_closed = true } in
      let j₃ : Join A = record j₂ { phase = leaving none } in
      let r₁ : Reach j₀ j₁ = next here (send [] t [] err refl refl e refl (has_one [] t [])) in
      let r₂ : Reach j₀ j₂ = next r₁ (close_wait refl refl refl) in
      let r₃ : Reach j₀ j₃ = next r₂ (see_end refl refl) in
      (record j₃ { err_closed = true; phase = returned none }, next r₃ (leave none refl), refl)
