-- ===== src/Cli/Status.antt =====
-- How `CheckStatus` of cli/analysis/analysis.go ends.
use husky_ci.Base.{
  ℕ, suc, ◌≡◌, ◌⊎◌, inl, inr, refl, sym, subst, String, ◌==◌, Bool, true, false, Option, none, some,
  is_some, List, [], ◌∷◌, arith, eqb, ltb, Bool-cases, eq_iff, ◌||◌,
}
use husky_ci.Base.Reply.{Reply, found, refused}
use husky_ci.Types.{Analysis}
use husky_ci.Cli.Report.{convert_api_vulnerabilities}
use husky_ci.Cli.Poll.{
  Answer, no_request, no_answer, no_return, answered, Poll, expired, asked, Progress, Checked,
  polling, checked, hanging, after_analysis, after_body, after_answer, resumed, check_loop,
  on_target, check_status,
}

-- The 60 minutes are over at some round.
abbrev pub has_expired : List Poll → Bool
has_expired [] = false
has_expired (expired ∷ polls) = true
has_expired (asked a ∷ polls) = has_expired polls

abbrev pub hangs : Answer → Bool
hangs no_return = true
hangs _ = false

-- A request never comes back, before the 60 minutes are over.
abbrev pub has_hung : List Poll → Bool
has_hung [] = false
has_hung (expired ∷ polls) = false
has_hung (asked a ∷ polls) = hangs a || has_hung polls

-- One of the answers was the analysis.
pub data Answered (a : Analysis) : List Poll → Type 0 where
  here : (polls : List Poll) → Answered a (asked (answered 200 (found a)) ∷ polls)
  later : (poll : Poll) (polls : List Poll) → Answered a polls → Answered a (poll ∷ polls)

-- No error is returned but for an analysis that has finished, whose findings are then held.
abbrev pub IsTrue : List Poll → Option String → Progress → Type 0
IsTrue polls err p =
    (is_some err ≡ true)
    ⊎ ((a : Analysis) × Answered a polls
        × (a.status ≡ "finished")
        × (p.status ≡ "finished")
        × (p.vulnerabilities ≡ convert_api_vulnerabilities a.husky_results))

-- What is returned is true; where nothing is, the time is not over or a request never comes back.
abbrev pub Ends : List Poll → Checked → Type 0
Ends polls (checked err p) = IsTrue polls err p
Ends polls (polling p) = has_expired polls ≡ false
Ends polls hanging = has_hung polls ≡ true

-- What one answer makes of the loop: it goes on, or what it returns is true.
Goes : List Poll → Checked → Type 0
Goes polls (polling p) = Unit
Goes polls (checked err p) = IsTrue polls err p
Goes polls hanging = has_hung polls ≡ true

after_analysis-Goes :
    (a : Analysis) (polls : List Poll) (p : Progress)
    → Goes (asked (answered 200 (found a)) ∷ polls) (after_analysis a p)
unfolding Goes
after_analysis-Goes a polls p = elim (Bool-cases (a.status == "finished")) [
  | inl ended ↦
      let same = (eq_iff a.status "finished").0 ended in
      rw ended (inr (a, here polls, same, same, refl))
  | inr other ↦ elim (Bool-cases (a.status == "error running")) [
    | inl failed ↦ rw (other, failed) (inl refl)
    | inr running ↦ rw (other, running) tt
  ]
]

after_body-Goes :
    (body : Reply Analysis) (polls : List Poll) (p : Progress)
    → Goes (asked (answered 200 body) ∷ polls) (after_body body p)
unfolding Goes
after_body-Goes (refused err) polls p = tt
after_body-Goes (found a) polls p = after_analysis-Goes a polls p

after_answer-Goes :
    (count : ℕ) (answer : Answer) (polls : List Poll) (p : Progress)
    → Goes (asked answer ∷ polls) (after_answer count answer p)
unfolding Goes
after_answer-Goes count (no_request err) polls p = inl refl
after_answer-Goes count (no_answer err) polls p = tt
after_answer-Goes count no_return polls p = refl
after_answer-Goes count (answered status body) polls p = elim (Bool-cases (eqb status 404)) [
  | inl missing ↦ elim (Bool-cases (ltb count 3)) [
    | inl early ↦ rw (missing, early) tt
    | inr late ↦ rw (missing, late) (inl refl)
  ]
  | inr known ↦ elim (Bool-cases (eqb status 401)) [
    | inl denied ↦ rw (known, denied) (inl refl)
    | inr allowed ↦ elim (Bool-cases (eqb status 200)) [
      | inl fine ↦
          rw (known, allowed, fine)
            (subst (λ (n : ℕ). Goes (asked (answered n body) ∷ polls) (after_body body p))
              (sym (equal status 200 fine)) (after_body-Goes body polls p))
      | inr strange ↦ rw (known, allowed, strange) tt
    ]
  ]
]
  where
    equal : (m n : ℕ) → eqb m n ≡ true → m ≡ n
    equal m n h = ground arith

IsTrue-later :
    (poll : Poll) (polls : List Poll) (err : Option String) (p : Progress)
    → IsTrue polls err p
    → IsTrue (poll ∷ polls) err p
IsTrue-later poll polls err p (inl e) = inl e
IsTrue-later poll polls err p (inr (a, seen, ended, status, same)) =
    inr (a, later poll polls seen, ended, status, same)

Ends-later :
    (answer : Answer) (polls : List Poll) (c : Checked)
    → Ends polls c
    → Ends (asked answer ∷ polls) c
Ends-later answer polls (checked err p) h = IsTrue-later (asked answer) polls err p h
Ends-later answer polls (polling p) h = h
Ends-later answer polls hanging h = rw h (ground arith)

resumed-Ends :
    (c : Checked) (go : Progress → Checked) (answer : Answer) (polls : List Poll)
    → Goes (asked answer ∷ polls) c
    → ((p : Progress) → Ends polls (go p))
    → Ends (asked answer ∷ polls) (resumed go c)
unfolding Goes
resumed-Ends (checked err p) go answer polls g rest = g
resumed-Ends (polling p) go answer polls g rest = Ends-later answer polls (go p) (rest p)
resumed-Ends hanging go answer polls g rest = g

check_loop-Ends :
    (count : ℕ) (polls : List Poll) (p : Progress) → Ends polls (check_loop count polls p)
unfolding check_loop
check_loop-Ends count [] p = refl
check_loop-Ends count (expired ∷ polls) p = inl refl
check_loop-Ends count (asked answer ∷ polls) p =
    resumed-Ends (after_answer (suc count) answer p) (λ q. check_loop (suc count) polls q) answer
      polls (after_answer-Goes (suc count) answer polls p)
      (λ q. check_loop-Ends (suc count) polls q)

on_target-Ends :
    (target : Option String) (polls : List Poll) (p : Progress)
    → Ends polls (on_target target polls p)
on_target-Ends (some err) polls p = inl refl
on_target-Ends none polls p = check_loop-Ends 0 polls p

-- How `CheckStatus` ends, whatever the API answers. It returns no error only for an analysis that
-- was among the answers and has finished, and the client then holds the status and the findings of
-- that analysis. It polls still only while the 60 minutes are not over, and it hangs only where
-- one of its requests never comes back.
pub check_status-Ends :
    (rid : String) (target : Option String) (polls : List Poll) (p : Progress)
    → Ends polls (check_status rid target polls p)
unfolding check_status
check_status-Ends rid target polls p = elim (Bool-cases (rid == "")) [
  | inl missing ↦ rw missing (inl refl)
  | inr given ↦ rw given (on_target-Ends target polls p)
]
