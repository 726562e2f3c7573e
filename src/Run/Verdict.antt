-- ===== src/Run/Verdict.antt =====
-- The verdict of `setToAnalysis` of api/securitytest/run.go as a function of what the containers
-- hold, whatever their order: concurrent scans append their containers as they end.
use husky_ci.Base.{
  ℕ, ◌+◌, String, ◌==◌, ◌≡◌, refl, Bool, true, false, not, ◌&&◌, ◌||◌, List, [], ◌∷◌, if◌then◌else◌,
  arith, any, count, leb, eq_iff, any-Shuffle, count-Shuffle, Shuffle, is_some, Option-cases, inl,
  inr,
}
use husky_ci.Types.{Container}
use husky_ci.Run.Results.{RunAllInfo, verdict_loop, set_to_analysis, set_final_result}

abbrev pub is_failed : Container → Bool
is_failed c = c.c_result == "failed"

abbrev pub is_js : Container → Bool
is_js c = c.security_test.language == "JavaScript"

abbrev pub js_warning : Container → Bool
js_warning c = c.c_result == "warning" && is_js c

abbrev pub other_warning : Container → Bool
other_warning c = c.c_result == "warning" && not (is_js c)

-- One failed container fails the run. A warning counts unless it is the only one of a JavaScript
-- tool: npm audit and yarn audit each warn where the lock file of the other is used.
abbrev pub verdict_of : List Container → String
verdict_of cs =
    if any is_failed cs
    then "failed"
    else if any other_warning cs || leb 2 (count js_warning cs)
    then "warning"
    else "passed"

abbrev seen : Bool → ℕ
seen flag = if flag then 1 else 0

-- The verdict from the three tests, after a loop that began with `result` and `flag`.
abbrev closing : Bool → Bool → ℕ → String → String
closing failed other js result =
    if failed then "failed" else if other || leb 2 js then "warning" else result

exclusive : (r : String) → (r == "warning") ≡ true → (r == "failed") ≡ false
exclusive r h = rw ((eq_iff _ _).0 h) refl

closing_step :
    (warning failed js flag later other : Bool) (n : ℕ) (result : String)
    → (warning ≡ true → failed ≡ false)
    → (if warning
        then if js
          then closing later other (1 + n) (if flag then "warning" else result)
          else closing later other (seen flag + n) "warning"
        else if failed
        then "failed"
        else closing later other (seen flag + n) result)
      ≡ closing
          (failed || later)
          (warning && not js || other)
          (seen flag + ((if warning && js then 1 else 0) + n))
          result
closing_step true true _ _ _ _ n result h = cc (h refl)
closing_step true false true true true other n result h = ground arith
closing_step true false true true false other n result h = ground arith
closing_step true false true false later other n result h = ground arith
closing_step true false false flag later other n result h = ground arith
closing_step false failed js flag later other n result h = ground arith

verdict_loop-eq :
    (result : String) (flag : Bool) (cs : List Container)
    → verdict_loop result flag cs
      ≡ closing (any is_failed cs) (any other_warning cs) (seen flag + count js_warning cs) result
unfolding verdict_loop
verdict_loop-eq result true [] = refl
verdict_loop-eq result false [] = refl
verdict_loop-eq result flag (c ∷ cs) =
    rw
      (
        verdict_loop-eq result flag cs,
        verdict_loop-eq (if flag then "warning" else result) true cs,
        verdict_loop-eq "warning" flag cs,
      )
      (closing_step (c.c_result == "warning") (is_failed c) (is_js c) flag _ _ _ result
        (exclusive c.c_result))

zero_plus : (n : ℕ) → 0 + n ≡ n
zero_plus n = omega arith

pub verdict_loop-verdict_of : (cs : List Container) → verdict_loop "passed" false cs ≡ verdict_of cs
verdict_loop-verdict_of cs = rw (verdict_loop-eq "passed" false cs, zero_plus) refl

-- What an analysis that met no error reports is a function of the set of its containers: "failed"
-- if one of them failed, otherwise "warning" if one of a tool that is not for JavaScript has a
-- warning or two of JavaScript tools have one, otherwise "passed". An error makes it "error".
pub set_to_analysis-eq :
    (run : RunAllInfo)
    → (set_to_analysis run).final_result
      ≡ (if is_some run.error_found then "error" else verdict_of run.containers)
unfolding set_to_analysis
set_to_analysis-eq run = elim (Option-cases run.error_found) [
  | inl fine ↦ rw fine (verdict_loop-verdict_of run.containers)
  | inr (err, found) ↦ rw found refl
]

-- The verdict does not depend on the order in which the scans that run side by side ended.
pub verdict-Shuffle :
    (cs ds : List Container)
    → Shuffle cs ds
    → verdict_loop "passed" false cs ≡ verdict_loop "passed" false ds
verdict-Shuffle cs ds same =
    rw
      (
        verdict_loop-eq "passed" false cs,
        verdict_loop-eq "passed" false ds,
        any-Shuffle is_failed same,
        any-Shuffle other_warning same,
        count-Shuffle js_warning same,
      )
      refl

-- `setToAnalysis` leaves the same run whether `setFinalResult` was called before it or not.
pub set_to_analysis-set_final_result :
    (run : RunAllInfo) → set_to_analysis (set_final_result run) ≡ set_to_analysis run
unfolding set_to_analysis set_final_result
set_to_analysis-set_final_result run = elim (Option-cases run.error_found) [
  | inl fine ↦ rw fine refl
  | inr (err, found) ↦ rw found refl
]
