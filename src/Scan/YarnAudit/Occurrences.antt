-- ===== src/Scan/YarnAudit/Occurrences.antt =====
-- The counters of occurrences of api/securitytest/yarnaudit.go.
use husky_ci.Base.{
  ℕ, ◌+◌, String, ◌==◌, ◌≡◌, ◌∙◌, sym, refl, ap, arith, Bool, true, false, ◌||◌, List, [], ◌∷◌,
  ◌++◌, if◌then◌else◌, any, count, Bool-cases, inl, inr, eq_iff,
}
use husky_ci.Types.{Vulnerability, TestOutput, no_output}
use husky_ci.Scan.YarnAudit.{
  YarnIssue, yarn_vuln, same_finding, vuln_list_contains, record_finding, yarn_step, yarn_loop,
}

abbrev pub total : List Vulnerability → ℕ
total [] = 0
total (v ∷ vs) = v.occurrences + total vs

total-snoc :
    (vs : List Vulnerability) (v : Vulnerability) → total (vs ++ v ∷ []) ≡ total vs + v.occurrences
total-snoc [] v = omega arith
total-snoc (w ∷ vs) v = omega (arith, total-snoc vs v)

abbrev mine : Vulnerability → Vulnerability → Bool
mine v w = same_finding w v

vuln_list_contains-found :
    (vs : List Vulnerability) (v : Vulnerability) → (vuln_list_contains vs v).0 ≡ any (mine v) vs
unfolding vuln_list_contains
vuln_list_contains-found [] v = refl
vuln_list_contains-found (w ∷ vs) v = elim (Bool-cases (same_finding w v)) [
  | inl same ↦ rw same refl
  | inr other ↦ rw other (vuln_list_contains-found vs v)
]

vuln_list_contains-total :
    (vs : List Vulnerability) (v : Vulnerability)
    → total (vuln_list_contains vs v).1 ≡ total vs + (if (vuln_list_contains vs v).0 then 1 else 0)
unfolding vuln_list_contains
vuln_list_contains-total [] v = omega arith
vuln_list_contains-total (w ∷ vs) v = elim (Bool-cases (same_finding w v)) [
  | inl same ↦ rw same (omega arith)
  | inr other ↦ rw other (omega (arith, vuln_list_contains-total vs v))
]

-- A finding is counted once, whether it is new or not.
record_finding-total :
    (vs : List Vulnerability) (v : Vulnerability)
    → v.occurrences ≡ 1
    → total (record_finding vs v) ≡ total vs + 1
unfolding record_finding
record_finding-total vs v one = elim (Bool-cases (vuln_list_contains vs v).0) [
  | inl known ↦ rw known (vuln_list_contains-total vs v ∙ rw known refl)
  | inr new ↦ rw new (total-snoc _ v ∙ rw (vuln_list_contains-total vs v, new, one) (omega arith))
]

-- No two entries are of the same finding.
abbrev pub Distinct : List Vulnerability → Type 0
Distinct [] = Unit
Distinct (v ∷ vs) = (any (mine v) vs ≡ false) × Distinct vs

-- A test that reads only the module and the overview.
vuln_list_contains-any :
    (vs : List Vulnerability) (v w : Vulnerability)
    → any (mine w) (vuln_list_contains vs v).1 ≡ any (mine w) vs
unfolding vuln_list_contains
vuln_list_contains-any [] v w = refl
vuln_list_contains-any (u ∷ vs) v w = elim (Bool-cases (same_finding u v)) [
  | inl same ↦ rw same refl
  | inr other ↦ rw other (ap (λ b. mine w u || b) (vuln_list_contains-any vs v w))
]

vuln_list_contains-Distinct :
    (vs : List Vulnerability) (v : Vulnerability)
    → Distinct vs
    → Distinct (vuln_list_contains vs v).1
unfolding vuln_list_contains
vuln_list_contains-Distinct [] v d = tt
vuln_list_contains-Distinct (u ∷ vs) v (new, d) = elim (Bool-cases (same_finding u v)) [
  | inl same ↦ rw same (new, d)
  | inr other ↦ rw other (vuln_list_contains-any vs v u ∙ new, vuln_list_contains-Distinct vs v d)
]

any-snoc :
    (p : Vulnerability → Bool) (vs : List Vulnerability) (v : Vulnerability)
    → any p (vs ++ v ∷ []) ≡ (any p vs || p v)
any-snoc p [] v = ground arith
any-snoc p (w ∷ vs) v = ground (arith, any-snoc p vs v)

same_finding-sym : (v w : Vulnerability) → same_finding v w ≡ false → same_finding w v ≡ false
same_finding-sym v w h = ground (
  arith,
  eq_iff v.details w.details,
  eq_iff w.details v.details,
  eq_iff v.code w.code,
  eq_iff w.code v.code,
)

either_false : (a b : Bool) → (a || b) ≡ false → (a ≡ false) × (b ≡ false)
either_false a b h = (ground (arith, h), ground (arith, h))

Distinct-snoc :
    (vs : List Vulnerability) (v : Vulnerability)
    → Distinct vs
    → any (mine v) vs ≡ false
    → Distinct (vs ++ v ∷ [])
Distinct-snoc [] v d h = (refl, tt)
Distinct-snoc (w ∷ vs) v (new, d) h =
    let (a, b) = either_false (same_finding w v) (any (mine v) vs) h in
    (any-snoc (mine w) vs v ∙ rw (new, same_finding-sym w v a) refl, Distinct-snoc vs v d b)

-- Recording keeps the entries distinct.
record_finding-Distinct :
    (vs : List Vulnerability) (v : Vulnerability) → Distinct vs → Distinct (record_finding vs v)
unfolding record_finding
record_finding-Distinct vs v d = elim (Bool-cases (vuln_list_contains vs v).0) [
  | inl known ↦ rw known (vuln_list_contains-Distinct vs v d)
  | inr new ↦ rw new (
      Distinct-snoc _ v (vuln_list_contains-Distinct vs v d)
        (vuln_list_contains-any vs v v ∙ sym (vuln_list_contains-found vs v) ∙ new))
]

-- The severities that the loop has a case for.
abbrev pub known : YarnIssue → Bool
known issue =
    (issue.severity == "info" || issue.severity == "low")
    || issue.severity == "moderate"
    || (issue.severity == "high" || issue.severity == "critical")

abbrev pub all_total : TestOutput → ℕ
all_total out = total out.low_vulns + total out.medium_vulns + total out.high_vulns

abbrev pub AllDistinct : TestOutput → Type 0
AllDistinct out = Distinct out.low_vulns × Distinct out.medium_vulns × Distinct out.high_vulns

-- The output after a step, and what the step's severity counts for.
abbrev Counted : TestOutput → TestOutput × Bool → Type 0
Counted out (out', counted) =
    (all_total out' ≡ all_total out + (if counted then 1 else 0))
    × (AllDistinct out → AllDistinct out')

chosen :
    (l m h : Bool) (out low_out medium_out high_out : TestOutput)
    → Counted out (low_out, true)
    → Counted out (medium_out, true)
    → Counted out (high_out, true)
    → Counted out
        (if l then low_out else if m then medium_out else if h then high_out else out, l || m || h)
chosen true m h out a b c p q r = p
chosen false true h out a b c p q r = q
chosen false false true out a b c p q r = r
chosen false false false out a b c p q r = (omega arith, λ d. d)

yarn_step-Counted :
    (out : TestOutput) (issue : YarnIssue) → Counted out (yarn_step out issue, known issue)
unfolding yarn_step
yarn_step-Counted out issue =
    let v : String → Vulnerability = λ severity. record (yarn_vuln issue) { severity = severity } in
    chosen (issue.severity == "info" || issue.severity == "low") (issue.severity == "moderate")
      (issue.severity == "high" || issue.severity == "critical") out _ _ _
      (
        omega (arith, record_finding-total out.low_vulns (v "low") refl),
        λ (l, m, h). (record_finding-Distinct out.low_vulns (v "low") l, m, h),
      )
      (
        omega (arith, record_finding-total out.medium_vulns (v "medium") refl),
        λ (l, m, h). (l, record_finding-Distinct out.medium_vulns (v "medium") m, h),
      )
      (
        omega (arith, record_finding-total out.high_vulns (v "high") refl),
        λ (l, m, h). (l, m, record_finding-Distinct out.high_vulns (v "high") h),
      )

yarn_loop-counted :
    (out : TestOutput) (issues : List YarnIssue)
    → (all_total (yarn_loop out issues) ≡ all_total out + count known issues)
      × (AllDistinct out → AllDistinct (yarn_loop out issues))
unfolding yarn_loop
yarn_loop-counted out [] = (omega arith, λ d. d)
yarn_loop-counted out (issue ∷ issues) =
    let (e, k) = yarn_step-Counted out issue in
    let (f, m) = yarn_loop-counted (yarn_step out issue) issues in
    (omega (arith, e, f), λ d. m (k d))

-- From an empty output, the loop of `prepareYarnAuditVulns` makes a report in which no two entries
-- of one level have the same module and overview, and the occurrences add up to the number of
-- advisories whose severity the loop has a case for.
pub yarn_report_counts :
    (issues : List YarnIssue)
    → (all_total (yarn_loop no_output issues) ≡ count known issues)
      × AllDistinct (yarn_loop no_output issues)
yarn_report_counts issues =
    let (e, k) = yarn_loop-counted no_output issues in (omega (arith, e), k (tt, tt, tt))
