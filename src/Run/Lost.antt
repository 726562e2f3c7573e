-- ===== src/Run/Lost.antt =====
-- The goroutines of api/securitytest/run.go append to the same slice without synchronisation: an
-- append loads the slice and stores a longer one, and others may do so in between.
use husky_ci.Base.{◌≡◌, ◌∙◌, refl, none, List, [], ◌∷◌, ◌++◌}
use husky_ci.Types.{Container}
use husky_ci.Run.Results.{RunAllInfo, set_to_analysis}
use husky_ci.Run.Verdict.{verdict_of, set_to_analysis-eq}

-- A goroutine that has yet to execute
-- `results.Containers = append(results.Containers, scan.Container)`: before it loads the slice, and
-- after, with what it has loaded.
pub data Append : Type 0 where
  to_load : Container → Append
  to_store : Container → List Container → Append

-- `results.Containers`, and the goroutines that have not ended.
pub record Appending : Type 0 where
  pub containers : List Container
  pub waiting : List Append

pub data Advance (s : Appending) : Appending → Type 0 where
  load :
      (pre : List Append) (c : Container) (post : List Append)
      → s.waiting ≡ pre ++ (to_load c ∷ post)
      → Advance s (record s { waiting = pre ++ (to_store c s.containers ∷ post) })
  store :
      (pre : List Append) (c : Container) (seen : List Container) (post : List Append)
      → s.waiting ≡ pre ++ (to_store c seen ∷ post)
      → Advance s (record { containers = seen ++ c ∷ []; waiting = pre ++ post })

pub data Advances (s : Appending) : Appending → Type 0 where
  start : Advances s s
  then_step : {t u : Appending} → Advances s t → Advance t u → Advances s u

-- A container may be lost: for every two scans, there is an execution of their two appends after
-- which the results hold the container of the second only, and the final result that
-- `setToAnalysis` sets, if the results hold no error, is the verdict without the first, also where
-- that scan has failed.
pub container_may_be_lost :
    (run : RunAllInfo) (c d : Container)
    → run.error_found ≡ none
    → (s : Appending) × Advances
        (record { containers = run.containers; waiting = to_load c ∷ to_load d ∷ [] })
        s
      × (s.waiting ≡ [])
      × ((set_to_analysis (record run { containers = s.containers })).final_result
          ≡ verdict_of (run.containers ++ d ∷ []))
container_may_be_lost run c d fine =
    let xs = run.containers in
    let s₀ : Appending = record { containers = xs; waiting = to_load c ∷ to_load d ∷ [] } in
    let s₁ : Appending = record { containers = xs; waiting = to_store c xs ∷ to_load d ∷ [] } in
    let s₂ : Appending = record { containers = xs; waiting = to_store c xs ∷ to_store d xs ∷ [] } in
    let s₃ : Appending = record { containers = xs ++ c ∷ []; waiting = to_store d xs ∷ [] } in
    let s₄ : Appending = record { containers = xs ++ d ∷ []; waiting = [] } in
    let r₁ : Advances s₀ s₁ = then_step start (load [] c (to_load d ∷ []) refl) in
    let r₂ : Advances s₀ s₂ = then_step r₁ (load (to_store c xs ∷ []) d [] refl) in
    let r₃ : Advances s₀ s₃ = then_step r₂ (store [] c xs (to_store d xs ∷ []) refl) in
    (
      s₄,
      then_step r₃ (store [] d xs [] refl),
      refl,
      set_to_analysis-eq (record run { containers = xs ++ d ∷ [] }) ∙ rw fine refl,
    )
