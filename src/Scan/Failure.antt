-- ===== src/Scan/Failure.antt =====
-- When a scan of api/securitytest fails the analysis: the result "failed" of its container.
use husky_ci.Base.{
  ℕ, zero, suc, String, ◌==◌, ◌≡◌, ◌∙◌, refl, arith, Bool, true, false, not, ◌&&◌, ◌||◌, Option,
  none, some, List, [], ◌∷◌, map, select, any, is_empty, is_some, if◌then◌else◌, eq_iff,
}
use husky_ci.Types.{Container, Vulnerability, TestOutput, no_output}
use husky_ci.Scan.State.{ScanInfo, prepare_container, verdict, Decoded, decoded}
use husky_ci.Scan.Filing.{Level, no_sec, low, medium, high, at, is_level, file_all, at-file_all}
use husky_ci.Scan.Gosec.{
  GosecIssue, GosecOutput, gosec_level, gosec_vuln, prepare_gosec_vulns, analyze_gosec, add_nosec,
}
use husky_ci.Scan.Tfsec.{
  TfsecResult, TfsecOutput, tfsec_level, tfsec_vuln, prepare_tfsec_vulns, analyze_tfsec,
}

-- Whether a scan ended in a way that keeps its findings from being judged.
abbrev pub blocked : ScanInfo → Bool
blocked s =
    is_some s.error_found
    || s.req_not_found
    || s.package_not_found
    || s.yarn_lock_not_found
    || s.commit_authors_not_found
    || s.security_code_scan_error_running

-- Whether there are findings of the two upper levels.
abbrev pub serious : TestOutput → Bool
serious out = not (is_empty out.medium_vulns) || not (is_empty out.high_vulns)

abbrev pub has_failed : Container → Bool
has_failed c = c.c_result == "failed"

has_failed-if :
    (b : Bool) (c d : Container)
    → has_failed (if b then c else d) ≡ (if b then has_failed c else has_failed d)
has_failed-if true c d = refl
has_failed-if false c d = refl

verdict_bools :
    (a b c d e f g h : Bool)
    → (if a
        then false
        else if b
        then false
        else if c
        then false
        else if d
        then false
        else if e
        then false
        else if f
        then false
        else if g
        then true
        else if h
        then false
        else false)
      ≡ (not (a || b || c || d || e || f) && g)
verdict_bools a b c d e f g h = ground arith

-- After `prepareContainerAfterScan` a container has the result "failed" exactly if the scan has no
-- error and none of the five flags that come before the findings, and has a finding of the level
-- medium or high.
pub prepare_container-failed :
    (s : ScanInfo)
    → has_failed (prepare_container s).container ≡ (not (blocked s) && serious s.vulnerabilities)
unfolding prepare_container verdict
prepare_container-failed s = simp has_failed-if (
    verdict_bools (is_some s.error_found) s.req_not_found s.package_not_found s.yarn_lock_not_found
      s.commit_authors_not_found s.security_code_scan_error_running (serious s.vulnerabilities)
      (not (is_empty s.vulnerabilities.low_vulns)))

is_empty-map : {A B : Type 0} (f : A → B) (xs : List A) → is_empty (map f xs) ≡ is_empty xs
is_empty-map f [] = refl
is_empty-map f (x ∷ xs) = refl

select-any : {A : Type 0} (p : A → Bool) (xs : List A) → not (is_empty (select p xs)) ≡ any p xs
select-any p [] = refl
select-any p (x ∷ xs) = ground (arith, select-any p xs)

any-or :
    {A : Type 0} (p q : A → Bool) (xs : List A) → (any p xs || any q xs) ≡ any (λ x. p x || q x) xs
any-or p q [] = refl
any-or p q (x ∷ xs) = ground (arith, any-or p q xs)

any-ext :
    {A : Type 0} (p q : A → Bool) → ((x : A) → p x ≡ q x) → (xs : List A) → any p xs ≡ any q xs
any-ext p q h [] = refl
any-ext p q h (x ∷ xs) = rw (h x, any-ext p q h xs) refl

module _ {A : Type 0} (level : A → Option Level) (vuln : A → Vulnerability) where
  some_filed :
      (l : Level) (xs : List A)
      → not (is_empty (at l (file_all level vuln no_output xs)))
        ≡ any (λ x. is_level l (level x)) xs
  some_filed no_sec xs =
      rw (at-file_all level vuln no_sec no_output xs, is_empty-map, select-any) refl
  some_filed low xs = rw (at-file_all level vuln low no_output xs, is_empty-map, select-any) refl
  some_filed medium xs =
      rw (at-file_all level vuln medium no_output xs, is_empty-map, select-any) refl
  some_filed high xs = rw (at-file_all level vuln high no_output xs, is_empty-map, select-any) refl

  serious-file_all :
      (xs : List A)
      → serious (file_all level vuln no_output xs)
        ≡ any (λ x. is_level medium (level x) || is_level high (level x)) xs
  serious-file_all xs = ground (
    arith,
    some_filed medium xs,
    some_filed high xs,
    any-or (λ (x : A). is_level medium (level x)) (λ (x : A). is_level high (level x)) xs,
  )

-- The severities that count, as gosec and tfsec name them.
abbrev pub counts : String → Bool
counts severity = severity == "MEDIUM" || severity == "HIGH"

is_level-if :
    (l : Level) (b : Bool) (x y : Option Level)
    → is_level l (if b then x else y) ≡ (if b then is_level l x else is_level l y)
is_level-if l true x y = refl
is_level-if l false x y = refl

if_both :
    (a b c : Bool) (h : (a ≡ true) → (b ≡ false) × (c ≡ false)) (k : b ≡ true → c ≡ false)
    → ((if a then false else if b then true else if c then false else false)
        || (if a then false else if b then false else if c then true else false))
      ≡ (b || c)
if_both true b c h k = ground (arith, h refl)
if_both false true c h k = refl
if_both false false true h k = refl
if_both false false false h k = refl

severity_counts :
    (t : String)
    → (is_level medium (
          if t == "LOW"
          then some low
          else if t == "MEDIUM"
          then some medium
          else if t == "HIGH"
          then some high
          else none)
        || is_level high (
            if t == "LOW"
            then some low
            else if t == "MEDIUM"
            then some medium
            else if t == "HIGH"
            then some high
            else none))
      ≡ counts t
severity_counts t = simp is_level-if (
    if_both (t == "LOW") (t == "MEDIUM") (t == "HIGH") (λ h. rw ((eq_iff _ _).0 h) (refl, refl))
      (λ h. rw ((eq_iff _ _).0 h) refl))

gosec_counts :
    (issue : GosecIssue)
    → (is_level medium (gosec_level issue) || is_level high (gosec_level issue))
      ≡ counts issue.severity
gosec_counts issue = severity_counts issue.severity

tfsec_counts :
    (r : TfsecResult)
    → (is_level medium (tfsec_level r) || is_level high (tfsec_level r)) ≡ counts r.severity
tfsec_counts r = severity_counts r.severity

serious-add_nosec : (n : ℕ) (out : TestOutput) → serious (add_nosec n out) ≡ serious out
unfolding add_nosec
serious-add_nosec zero out = refl
serious-add_nosec (suc n) out = serious-add_nosec n _

-- Let the output of a gosec scan be non-empty and decoded, and let the scan have no error and no
-- flag. Then `analyzeGosec` leaves the result "failed" exactly if gosec reports an issue of the
-- severity MEDIUM or HIGH, whatever the other severities and the excluded lines.
pub gosec_failed :
    (unmarshal : String → Decoded GosecOutput) (s : ScanInfo) (out : GosecOutput)
    → (s.container.c_output == "") ≡ false
    → unmarshal s.container.c_output ≡ decoded out
    → blocked s ≡ false
    → has_failed (analyze_gosec unmarshal s).0.container
      ≡ any (λ (i : GosecIssue). counts i.severity) out.gosec_issues
unfolding analyze_gosec prepare_gosec_vulns
gosec_failed unmarshal s out given parsed free =
    rw (given, parsed)
      (prepare_container-failed _
        ∙ rw free (
            serious-add_nosec _ _
            ∙ serious-file_all gosec_level gosec_vuln out.gosec_issues
            ∙ any-ext _ _ gosec_counts out.gosec_issues))

-- Let the output of a tfsec scan be decoded with a list of results, and let the scan have no error
-- and no flag. Then `analyzeTFSec` leaves the result "failed" exactly if a result has the severity
-- MEDIUM or HIGH; CRITICAL is none of these.
pub tfsec_failed :
    (unmarshal : String → Decoded TfsecOutput) (s : ScanInfo) (out : TfsecOutput)
    (results : List TfsecResult)
    → unmarshal s.container.c_output ≡ decoded out
    → out.results ≡ some results
    → blocked s ≡ false
    → has_failed (analyze_tfsec unmarshal s).0.container
      ≡ any (λ (r : TfsecResult). counts r.severity) results
unfolding analyze_tfsec prepare_tfsec_vulns
tfsec_failed unmarshal s out results parsed listed free =
    rw (parsed, listed)
      (prepare_container-failed _
        ∙ rw free
            (serious-file_all tfsec_level tfsec_vuln results ∙ any-ext _ _ tfsec_counts results))
