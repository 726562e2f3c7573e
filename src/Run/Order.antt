-- ===== src/Run/Order.antt =====
-- The results of the scans of api/securitytest/run.go, where the goroutines change them one after
-- another.
use mathlib.Core.List.{append_assoc, append-nil}
use husky_ci.Base.{
  ◌≡◌, ◌∙◌, refl, sym, ap, ◌==◌, Bool, true, false, none, some, List, [], ◌∷◌, ◌++◌, Shuffle,
  gather, gather-Shuffle, Shuffle-append_left, if◌then◌else◌, Bool-cases, inl, inr,
}
use husky_ci.Types.{Container, Vulnerability, SecurityTest}
use husky_ci.Scan.Filing.{Level, at}
use husky_ci.Run.Results.{RunAllInfo, Tool, output_of, set_to_analysis}
use husky_ci.Run.Vulns.{collects, at-set_vulns}
use husky_ci.Run.Verdict.{verdict_of, verdict-Shuffle, verdict_loop-verdict_of, set_to_analysis-eq}
use husky_ci.Run.Scans.{World, Scanned, not_made, made, Goroutine, generic_task, language_task}

-- A scan of `runGenericScans`, with its test, or of `runLanguageScans`.
pub data Scan : Type 0 where
  generic : SecurityTest → Scanned → Scan
  language : Scanned → Scan

abbrev pub goroutine : World → Scan → Goroutine
goroutine w (generic test s) = generic_task w test s
goroutine w (language s) = language_task s

-- The goroutines change the results one after another, from left to right.
abbrev pub run_each : World → List Scan → RunAllInfo → RunAllInfo
run_each w [] run = run
run_each w (x ∷ xs) run = run_each w xs ((goroutine w x).effect run)

-- The container that a scan leaves: after an error only that of a language is kept.
abbrev pub container_of : Scan → List Container
container_of (generic test (not_made err)) = []
container_of (generic test (made (s, some err))) = []
container_of (generic test (made (s, none))) = s.container ∷ []
container_of (language (not_made err)) = []
container_of (language (made (s, err))) = s.container ∷ []

-- Whether the findings of a generic scan are kept.
abbrev pub keeps_findings : World → SecurityTest → Bool
keeps_findings w test =
    if w.equal_fold test.name "gitauthors" then false else test.name == "gitleaks"

-- The findings of a level that it leaves for a tool: none after an error.
abbrev pub findings_of : World → Tool → Level → Scan → List Vulnerability
findings_of w t m (generic test (not_made err)) = []
findings_of w t m (generic test (made (s, some err))) = []
findings_of w t m (generic test (made (s, none))) =
    if keeps_findings w test
    then (if collects t s.security_test_name then at m s.vulnerabilities else [])
    else []
findings_of w t m (language (not_made err)) = []
findings_of w t m (language (made (s, some err))) = []
findings_of w t m (language (made (s, none))) =
    if collects t s.security_test_name then at m s.vulnerabilities else []

module _ (w : World) {B : Type 0} (view : RunAllInfo → List B) (adds : Scan → List B) where
  -- A goroutine appends its own items, whatever the results.
  abbrev Appends : Type 0
  Appends = (x : Scan) (run : RunAllInfo) → view ((goroutine w x).effect run) ≡ view run ++ adds x

  view-run_each :
      Appends
      → (xs : List Scan) (run : RunAllInfo) → view (run_each w xs run) ≡ view run ++ gather adds xs
  view-run_each h [] run = sym (append-nil (view run))
  view-run_each h (x ∷ xs) run =
      view-run_each h xs ((goroutine w x).effect run)
      ∙ ap (λ l. l ++ gather adds xs) (h x run)
      ∙ append_assoc (view run) (adds x) (gather adds xs)

  gathers :
      Appends
      → (scans order : List Scan) (run : RunAllInfo) → Shuffle scans order
      → Shuffle (view run ++ gather adds scans) (view (run_each w order run))
  gathers h scans order run s =
      rw (view-run_each h order run) (Shuffle-append_left (view run) (gather-Shuffle adds s))

abbrev containers_of : RunAllInfo → List Container
containers_of run = run.containers

goroutine-containers : (w : World) → Appends w containers_of container_of
unfolding generic_task language_task
goroutine-containers w (generic test (not_made err)) run = sym (append-nil run.containers)
goroutine-containers w (generic test (made (s, some err))) run = sym (append-nil run.containers)
goroutine-containers w (generic test (made (s, none))) run =
    elim (Bool-cases (w.equal_fold test.name "gitauthors")) [
      | inl authors ↦ rw authors refl
      | inr other ↦ elim (Bool-cases (test.name == "gitleaks")) [
        | inl leaks ↦ rw (other, leaks) refl
        | inr neither ↦ rw (other, neither) refl
      ]
    ]
goroutine-containers w (language (not_made err)) run = sym (append-nil run.containers)
goroutine-containers w (language (made (s, some err))) run = refl
goroutine-containers w (language (made (s, none))) run = refl

abbrev findings : Tool → Level → RunAllInfo → List Vulnerability
findings t m run = at m (output_of t run.husky_results)

or_nothing :
    {B : Type 0} (b : Bool) (xs ys : List B)
    → (if b then xs ++ ys else xs) ≡ xs ++ (if b then ys else [])
or_nothing true xs ys = refl
or_nothing false xs ys = sym (append-nil xs)

goroutine-findings :
    (w : World) (t : Tool) (m : Level) → Appends w (findings t m) (findings_of w t m)
unfolding generic_task language_task
goroutine-findings w t m (generic test (not_made err)) run = sym (append-nil _)
goroutine-findings w t m (generic test (made (s, some err))) run = sym (append-nil _)
goroutine-findings w t m (generic test (made (s, none))) run =
    elim (Bool-cases (w.equal_fold test.name "gitauthors")) [
      | inl authors ↦ rw authors (sym (append-nil _))
      | inr other ↦ elim (Bool-cases (test.name == "gitleaks")) [
        | inl leaks ↦
            rw (other, leaks)
              (at-set_vulns t m s run.husky_results
                ∙ or_nothing (collects t s.security_test_name) _ _)
        | inr neither ↦ rw (other, neither) (sym (append-nil _))
      ]
    ]
goroutine-findings w t m (language (not_made err)) run = sym (append-nil _)
goroutine-findings w t m (language (made (s, some err))) run = sym (append-nil _)
goroutine-findings w t m (language (made (s, none))) run =
    at-set_vulns t m s run.husky_results ∙ or_nothing (collects t s.security_test_name) _ _

module _ (w : World) (scans order : List Scan) (run : RunAllInfo)
    (ordered : Shuffle scans order) where
  -- Let the goroutines of the generic and of the language scans change the results one after
  -- another, in any order. Then the containers are those that were there and those of the scans,
  -- in some order: of a generic scan only if it has ended without an error. (The program does not
  -- keep the goroutines apart.)
  pub scans_containers :
      Shuffle (run.containers ++ gather container_of scans) (run_each w order run).containers
  scans_containers =
      gathers w containers_of container_of (goroutine-containers w) scans order run ordered

  -- Let the goroutines of the generic and of the language scans change the results one after
  -- another, in any order. Then the findings of each level of each tool are those that were there
  -- and those of that level of the scans that ended without an error and are collected under the
  -- tool, of the generic scans only gitleaks, in some order. (The program does not keep the
  -- goroutines apart.)
  pub scans_findings :
      (t : Tool) (m : Level)
      → Shuffle
          (at m (output_of t run.husky_results) ++ gather (findings_of w t m) scans)
          (at m (output_of t (run_each w order run).husky_results))
  scans_findings t m =
      gathers w (findings t m) (findings_of w t m) (goroutine-findings w t m) scans order run
        ordered

  -- Let the goroutines of the generic and of the language scans change the results one after
  -- another, in any order, and let the results hold no error then. Then the final result that
  -- `setToAnalysis` sets is the verdict over the containers that were there and those of the
  -- scans, whatever the order. (The program does not keep the goroutines apart.)
  pub scans_verdict :
      (run_each w order run).error_found ≡ none
      → (set_to_analysis (run_each w order run)).final_result
        ≡ verdict_of (run.containers ++ gather container_of scans)
  scans_verdict fine =
      set_to_analysis-eq (run_each w order run)
      ∙ rw fine (sym (verdict_loop-verdict_of (run_each w order run).containers))
      ∙ sym (verdict-Shuffle _ _ scans_containers)
      ∙ verdict_loop-verdict_of _
