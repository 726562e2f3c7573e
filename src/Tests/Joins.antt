-- ===== src/Tests/Joins.antt =====
-- Two goroutines that end without an error, and two of which one or both end in one.
use husky_ci.Base.{◌≡◌, ◌≢◌, ◌⊎◌, refl, true, none, some, List, [], ◌∷◌, arith}
use husky_ci.Run.Join.{
  Task, Join, start, Step, finish, send, close_wait, see_end, see_error, leave, Reach, here, next,
  ended, leaving, returned, panicked,
}
use husky_ci.Run.Progress.{no_deadlock, Over}
use husky_ci.Run.Outcome.{returns_nil}
use husky_ci.Run.Panics.{no_panic}
use husky_ci.Run.Races.{two_errors_panic, error_may_be_lost}

abbrev fine : Task (Unit {0})
fine = record { effect = tt; error = none }

abbrev other : Task (Unit {0})
other = record { effect = tt; error = none }

abbrev broken : Task (Unit {0})
broken = record { effect = tt; error = some "timeout" }

abbrev both : List (Task (Unit {0}))
both = fine ∷ other ∷ []

-- The second ends before the first.
abbrev j₁ : Join (Unit {0})
j₁ = ended (fine ∷ []) other [] (start both)

abbrev j₂ : Join (Unit {0})
j₂ = ended [] fine [] j₁

abbrev j₃ : Join (Unit {0})
j₃ = record j₂ { wait_closed = true }

abbrev j₄ : Join (Unit {0})
j₄ = record j₃ { phase = leaving none }

abbrev j₅ : Join (Unit {0})
j₅ = record j₄ { err_closed = true; phase = returned none }

abbrev path₁ : Reach (start both) j₁
path₁ = next here (finish (fine ∷ []) other [] refl refl refl)

abbrev path₅ : Reach (start both) j₅
path₅ =
    next
      (next (next (next path₁ (finish [] fine [] refl refl refl)) (close_wait refl refl refl))
        (see_end refl refl))
      (leave none refl)

no_deadlock_example : Over j₁.phase ⊎ ((k : Join (Unit {0})) × Step j₁ k)
no_deadlock_example = no_deadlock both j₁ path₁

returns_nil_example : j₅.running ≡ []
returns_nil_example = returns_nil both j₅ path₅ refl

abbrev one_broken : List (Task (Unit {0}))
one_broken = broken ∷ fine ∷ []

abbrev k₁ : Join (Unit {0})
k₁ = record (ended [] broken (fine ∷ []) (start one_broken)) { queue = "timeout" ∷ [] }

abbrev k₂ : Join (Unit {0})
k₂ = record k₁ { queue = []; sync_closed = true; phase = leaving (some "timeout") }

abbrev k₃ : Join (Unit {0})
k₃ = record k₂ { err_closed = true; phase = returned (some "timeout") }

abbrev path₃ : Reach (start one_broken) k₃
path₃ =
    next
      (next (next here (send [] broken (fine ∷ []) "timeout" refl refl refl refl (omega arith)))
        (see_error "timeout" [] refl refl))
      (leave (some "timeout") refl)

no_panic_example : k₃.phase ≢ panicked
no_panic_example = no_panic one_broken k₃ (omega arith) path₃

two_errors_panic_example :
    (j : Join (Unit {0})) × Reach (start (broken ∷ fine ∷ broken ∷ [])) j × (j.phase ≡ panicked)
two_errors_panic_example =
    two_errors_panic [] broken (fine ∷ []) broken [] "timeout" "timeout" refl refl

error_may_be_lost_example :
    (j : Join (Unit {0})) × Reach (start (broken ∷ [])) j × (j.phase ≡ returned none)
error_may_be_lost_example = error_may_be_lost broken "timeout" refl
