-- ===== src/Client/Rules.antt =====
-- The rules and the issues of the output for SonarQube.
use husky_ci.Base.{
  zero, suc, ℤ, pos, negsuc, ◌≤◌, ◌≡◌, refl, sym, ap, ◌∙◌, arith, String, List, [], ◌∷◌, ◌++◌, map,
  if◌then◌else◌, Bool-cases, inl, inr, All,
}
use husky_ci.Base.Reply.{Reply, found, refused}
use husky_ci.Base.Lists.{snoc_append}
use mathlib.Core.List.{append-nil}
use husky_ci.Types.{Vulnerability, TestOutput, HuskyResults}
use husky_ci.Input.{slice_contains, remove_from, remove_duplicates}
use husky_ci.Input.Duplicates.{Unique, remove_duplicates_lem}
use husky_ci.Client.Sonar.{
  SonarRule, SonarIssue, SonarOutput, Library, all_vulns, get_start_line, positive_or_one,
  rule_id_of, rule_of, issue_of, sonar_loop, sonar_output,
}

-- The rules of the findings whose identifiers are not in `seen`.
new_rules : Library → List String → List Vulnerability → List SonarRule
new_rules l seen [] = []
new_rules l seen (v ∷ vs) =
    let again = new_rules l seen vs in
    let first = rule_of l v ∷ new_rules l (rule_id_of v ∷ seen) vs in
    if slice_contains seen (rule_id_of v) then again else first

abbrev pub rule_ids : List SonarRule → List String
rule_ids rules = map (λ (r : SonarRule). r.id) rules

abbrev pub issue_ids : List SonarIssue → List String
issue_ids issues = map (λ (i : SonarIssue). i.rule_id) issues

outputs :
    {rs rs' : List SonarRule} {is is' : List SonarIssue}
    → rs ≡ rs'
    → is ≡ is'
    → ◌≡◌ {A = SonarOutput}
        (record { rules = rs; issues = is })
        (record { rules = rs'; issues = is' })
outputs p q = cc

module _ (l : Library) (path : String) where
  sonar_loop_lem :
      (seen : List String) (out : SonarOutput) (vs : List Vulnerability)
      → sonar_loop l path seen out vs ≡ record {
        rules = out.rules ++ new_rules l seen vs;
        issues = out.issues ++ map (issue_of l path) vs;
      }
  unfolding sonar_loop new_rules
  sonar_loop_lem seen out [] = outputs (sym (append-nil out.rules)) (sym (append-nil out.issues))
  sonar_loop_lem seen out (v ∷ vs) = elim (Bool-cases (slice_contains seen (rule_id_of v))) [
    | inl old ↦ rw old (
        sonar_loop_lem seen (record out { issues = out.issues ++ issue_of l path v ∷ [] }) vs
        ∙ outputs refl (snoc_append out.issues (issue_of l path v) (map (issue_of l path) vs)))
    | inr new ↦ rw new (
        sonar_loop_lem (rule_id_of v ∷ seen)
          (record {
            rules = out.rules ++ rule_of l v ∷ [];
            issues = out.issues ++ issue_of l path v ∷ [];
          })
          vs
        ∙ outputs (snoc_append out.rules (rule_of l v) (new_rules l (rule_id_of v ∷ seen) vs))
            (snoc_append out.issues (issue_of l path v) (map (issue_of l path) vs)))
  ]

  rule_ids-new_rules :
      (seen : List String) (vs : List Vulnerability)
      → rule_ids (new_rules l seen vs) ≡ remove_from seen (map rule_id_of vs)
  unfolding new_rules remove_from rule_of
  rule_ids-new_rules seen [] = refl
  rule_ids-new_rules seen (v ∷ vs) = elim (Bool-cases (slice_contains seen (rule_id_of v))) [
    | inl old ↦ rw (old) (rule_ids-new_rules seen vs)
    | inr new ↦ rw (new) (
        ap (λ (ids : List String). rule_id_of v ∷ ids)
          (rule_ids-new_rules (rule_id_of v ∷ seen) vs))
  ]

  issue_ids-map :
      (vs : List Vulnerability) → issue_ids (map (issue_of l path) vs) ≡ map rule_id_of vs
  unfolding issue_of
  issue_ids-map [] = refl
  issue_ids-map (v ∷ vs) = ap (λ (ids : List String). rule_id_of v ∷ ids) (issue_ids-map vs)

  positive-or_one : (r : Reply ℤ) → 1 ≤ positive_or_one r
  positive-or_one (refused err) = omega arith
  positive-or_one (found (pos zero)) = omega arith
  positive-or_one (found (pos (suc n))) = omega arith
  positive-or_one (found (negsuc n)) = omega arith

  lines_positive :
      (vs : List Vulnerability)
      → All (λ (i : SonarIssue). 1 ≤ i.start_line) (map (issue_of l path) vs)
  unfolding issue_of get_start_line
  lines_positive [] = tt
  lines_positive (v ∷ vs) = (positive-or_one (l.atoi v.line), lines_positive vs)

-- The output for SonarQube: no two rules have the same identifier; a rule is there exactly when a
-- collected finding has its identifier; there is one issue for each collected finding, in their
-- order and with the identifier of its rule; and every issue has a line from one on.
pub sonar_output_lem :
    (l : Library) (path : String) (r : HuskyResults)
    → let out = sonar_output l path r in
      Unique (rule_ids out.rules)
      × ((id : String)
          → slice_contains (rule_ids out.rules) id
            ≡ slice_contains (map rule_id_of (all_vulns r)) id)
      × (issue_ids out.issues ≡ map rule_id_of (all_vulns r))
      × All (λ (i : SonarIssue). 1 ≤ i.start_line) out.issues
unfolding sonar_output remove_duplicates
sonar_output_lem l path r =
    let vs = all_vulns r in
    let kept = remove_duplicates_lem (map rule_id_of vs) in
    rw (sonar_loop_lem l path [] (record { rules = []; issues = [] }) vs) (
      rw (rule_ids-new_rules l path [] vs)
        (kept.0, kept.1, issue_ids-map l path vs, lines_positive l path vs))

-- The findings of tfsec are not collected.
tfsec_left_out :
    (r : HuskyResults) (o : TestOutput) → all_vulns (record r { tfsec_output = o }) ≡ all_vulns r
unfolding all_vulns
tfsec_left_out r o = refl
