-- ===== src/Client/Exit.antt =====
-- When the client blocks a pipeline: the exit code of client/cmd/main.go.
use husky_ci.Base.{
  ℕ, ◌+◌, ◌<◌, ◌≡◌, ◌↔◌, ◌⊎◌, refl, ap, inl, inr, String, ◌==◌, Bool, true, false, not, ◌||◌, List,
  [], ◌∷◌, length, is_empty, any, arith, All,
}
use husky_ci.Base.Reply.{Reply, found, refused}
use husky_ci.Types.{HuskyResults, Analysis, Vulnerability}
use husky_ci.Run.Results.{Tool, output_of}
use husky_ci.Client.Summary.{
  tool_summary, tools, sum_of, total_summary, exit_code, timed_out, monitor, client_exit,
  finish_with,
}

-- A flag that says whether a number is positive.
abbrev Marks : Bool → ℕ → Type 0
Marks true n = 0 < n
Marks false n = n ≡ 0

Marks-length : (xs : List Vulnerability) → Marks (not (is_empty xs)) (length xs)
Marks-length [] = refl
Marks-length (x ∷ xs) = omega arith

Marks-or : (a b : Bool) (m n : ℕ) → Marks a m → Marks b n → Marks (a || b) (m + n)
Marks-or true b m n h k = omega (arith, h)
Marks-or false true m n h k = omega (arith, h, k)
Marks-or false false m n h k = omega (arith, h, k)

tool_summary-Marks :
    (r : HuskyResults) (t : Tool)
    → Marks
        (tool_summary r t).found_vuln
        ((tool_summary r t).medium_vuln + (tool_summary r t).high_vuln)
unfolding tool_summary
tool_summary-Marks r t =
    Marks-or _ _ _ _ (Marks-length (output_of t r).medium_vulns)
      (Marks-length (output_of t r).high_vulns)

module _ (r : HuskyResults) where
  serious_sum : List Tool → ℕ
  serious_sum = sum_of (λ t. (tool_summary r t).medium_vuln + (tool_summary r t).high_vuln)

  any-Marks :
      (ts : List Tool) → Marks (any (λ t. (tool_summary r t).found_vuln) ts) (serious_sum ts)
  unfolding serious_sum
  any-Marks [] = refl
  any-Marks (t ∷ ts) = Marks-or _ _ _ _ (tool_summary-Marks r t) (any-Marks ts)

  serious_sum-eq :
      (ts : List Tool)
      → serious_sum ts
        ≡ sum_of (λ t. (tool_summary r t).medium_vuln) ts
          + sum_of (λ t. (tool_summary r t).high_vuln) ts
  unfolding serious_sum
  serious_sum-eq [] = omega arith
  serious_sum-eq (t ∷ ts) = omega (arith, serious_sum-eq ts)

code_cases : (flag info : Bool) (n : ℕ) → Marks flag n → (exit_code flag info ≡ 190) ↔ (0 < n)
unfolding exit_code
code_cases true info n h = (λ _. h, λ _. refl)
code_cases false true n h = (λ e. absurd (omega arith), λ k. absurd (omega (arith, h, k)))
code_cases false false n h = (λ e. absurd (omega arith), λ k. absurd (omega (arith, h, k)))

-- The client blocks the pipeline, with the exit code 190, exactly if the totals that it reports
-- count a finding of the level medium or high.
pub blocks_iff_serious :
    (r : HuskyResults)
    → (exit_code (total_summary r).found_vuln (total_summary r).found_info ≡ 190)
      ↔ (0 < (total_summary r).medium_vuln + (total_summary r).high_vuln)
unfolding total_summary
blocks_iff_serious r = rw (← serious_sum-eq r tools) (code_cases _ _ _ (any-Marks r tools))

-- A reply with an analysis that runs, or that ended with nothing reported.
abbrev pub Unreported : Reply Analysis → Type 0
Unreported (found a) = (a.status ≡ "running") ⊎ (a.status ≡ "")
Unreported (refused err) = ⊥

not_ended :
    (status : String)
    → (status ≡ "running") ⊎ (status ≡ "")
    → ((status == "finished") ≡ false) × ((status == "error running") ≡ false)
not_ended status (inl e) = rw e (refl, refl)
not_ended status (inr e) = rw e (refl, refl)

monitor-Unreported :
    (replies : List (Reply Analysis)) → All Unreported replies → monitor replies ≡ timed_out
unfolding monitor
monitor-Unreported [] h = refl
monitor-Unreported (found a ∷ replies) (e, h) =
    let (f, g) = not_ended a.status e in rw (f, g) (monitor-Unreported replies h)
monitor-Unreported (refused err ∷ replies) (e, h) = elim e [ ]

-- While the replies of the API show an analysis that runs, or one whose status is empty, the client
-- goes on to poll: if there is no other reply until the time is over, it ends with the exit code 1.
pub silent_analysis_times_out :
    (replies : List (Reply Analysis))
    → All Unreported replies
    → (monitor replies ≡ timed_out) × (client_exit replies ≡ 1)
unfolding client_exit
silent_analysis_times_out replies h = let e = monitor-Unreported replies h in (e, ap finish_with e)
