-- ===== src/Run/Vulns.antt =====
-- Where `setVulns` of api/securitytest/run.go puts the findings of a scan.
use mathlib.Core.List.{append-nil}
use husky_ci.Base.{
  snoc_append, String, Option, none, some, ◌==◌, ◌≡◌, refl, Bool, true, false, List, [], ◌∷◌, ◌++◌,
  if◌then◌else◌, eq_iff, Bool-cases, Option-cases, inl, inr, ◌&&◌,
}
use husky_ci.Types.{TestOutput, HuskyResults, Vulnerability}
use husky_ci.Scan.State.{ScanInfo}
use husky_ci.Scan.Filing.{Level, no_sec, low, medium, high, push, at, same_level, at-push}
use husky_ci.Run.Results.{
  Tool, gosec, bandit, safety, npmaudit, yarnaudit, brakeman, spotbugs, gitleaks, trivy, tfsec,
  securitycodescan, tool_case, output_of, set_output, add_vuln, add_vulns, set_vulns,
}

abbrev pub tool_name : Tool → String
tool_name gosec = "gosec"
tool_name bandit = "bandit"
tool_name safety = "safety"
tool_name npmaudit = "npmaudit"
tool_name yarnaudit = "yarnaudit"
tool_name brakeman = "brakeman"
tool_name spotbugs = "spotbugs"
tool_name gitleaks = "gitleaks"
tool_name trivy = "trivy"
tool_name tfsec = "tfsec"
tool_name securitycodescan = "securitycodescan"

-- Whether the findings of a scan of that name are collected under the tool: those of every tool
-- under its own name, and no findings under trivy.
abbrev pub collects : Tool → String → Bool
collects trivy name = false
collects t name = name == tool_name t

abbrev same_tool : Tool → Tool → Bool
same_tool gosec gosec = true
same_tool bandit bandit = true
same_tool safety safety = true
same_tool npmaudit npmaudit = true
same_tool yarnaudit yarnaudit = true
same_tool brakeman brakeman = true
same_tool spotbugs spotbugs = true
same_tool gitleaks gitleaks = true
same_tool trivy trivy = true
same_tool tfsec tfsec = true
same_tool securitycodescan securitycodescan = true
same_tool _ _ = false

abbrev is_case : Tool → Option Tool → Bool
is_case t none = false
is_case t (some u) = same_tool t u

is_case-if :
    (t : Tool) (b : Bool) (x y : Option Tool)
    → is_case t (if b then x else y) ≡ (if b then is_case t x else is_case t y)
is_case-if t true x y = refl
is_case-if t false x y = refl

if_same {ℓ} : {A : Type ℓ} (b : Bool) (c : A) → (if b then c else c) ≡ c
if_same true c = refl
if_same false c = refl

is_case-eq-collects : (t : Tool) (name : String) → is_case t (tool_case name) ≡ collects t name
unfolding tool_case
is_case-eq-collects trivy name = simp (is_case-if, if_same)
is_case-eq-collects t name = elim (Bool-cases (name == tool_name t)) [
  | inl same ↦ rw ((eq_iff _ _).0 same) refl
  | inr other ↦ simp (other, is_case-if, if_same)
]

output_of-set_output :
    (t u : Tool) (o : TestOutput) (r : HuskyResults)
    → output_of t (set_output u o r) ≡ (if same_tool t u then o else output_of t r)
output_of-set_output gosec gosec o r = refl
output_of-set_output bandit gosec o r = refl
output_of-set_output safety gosec o r = refl
output_of-set_output npmaudit gosec o r = refl
output_of-set_output yarnaudit gosec o r = refl
output_of-set_output brakeman gosec o r = refl
output_of-set_output spotbugs gosec o r = refl
output_of-set_output gitleaks gosec o r = refl
output_of-set_output trivy gosec o r = refl
output_of-set_output tfsec gosec o r = refl
output_of-set_output securitycodescan gosec o r = refl
output_of-set_output t u o r = refl

same_tool→eq : (t u : Tool) → same_tool t u ≡ true → t ≡ u
same_tool→eq gosec gosec h = refl
same_tool→eq bandit bandit h = refl
same_tool→eq safety safety h = refl
same_tool→eq npmaudit npmaudit h = refl
same_tool→eq yarnaudit yarnaudit h = refl
same_tool→eq brakeman brakeman h = refl
same_tool→eq spotbugs spotbugs h = refl
same_tool→eq gitleaks gitleaks h = refl
same_tool→eq trivy trivy h = refl
same_tool→eq tfsec tfsec h = refl
same_tool→eq securitycodescan securitycodescan h = refl
same_tool→eq _ _ h = cc

at-set_output :
    (t u : Tool) (l m : Level) (v : Vulnerability) (r : HuskyResults)
    → at m (output_of t (set_output u (push l v (output_of u r)) r)) ≡ (
        if same_tool t u && same_level m l
        then at m (output_of t r) ++ v ∷ []
        else at m (output_of t r))
at-set_output t u l m v r = rw output_of-set_output (elim (Bool-cases (same_tool t u)) [
  | inl same ↦ rw (same, ← same_tool→eq t u same) (at-push m l v (output_of t r))
  | inr other ↦ rw other refl
])

module _ (t : Tool) (name : String) (l m : Level) where
  at-add_vuln :
      (v : Vulnerability) (r : HuskyResults)
      → at m (output_of t (add_vuln name l v r)) ≡ (
          if collects t name && same_level m l
          then at m (output_of t r) ++ v ∷ []
          else at m (output_of t r))
  unfolding add_vuln
  at-add_vuln v r = rw (← is_case-eq-collects t name) (elim (Option-cases (tool_case name)) [
    | inl missing ↦ rw missing refl
    | inr (u, found) ↦ rw found (at-set_output t u l m v r)
  ])

  at-add_vulns :
      (vs : List Vulnerability) (r : HuskyResults)
      → at m (output_of t (add_vulns name l vs r)) ≡ (
          if collects t name && same_level m l
          then at m (output_of t r) ++ vs
          else at m (output_of t r))
  unfolding add_vulns
  at-add_vulns [] r = simp (append-nil, if_same)
  at-add_vulns (v ∷ vs) r =
      rw (at-add_vulns vs _, at-add_vuln v r)
        (elim (Bool-cases (collects t name && same_level m l)) [
          | inl same ↦ rw same (snoc_append _ v vs)
          | inr other ↦ rw other refl
        ])

pick :
    (c : Bool) (m : Level) (xs : List Vulnerability) (v : TestOutput)
    → (let a = if c && same_level m high then xs ++ v.high_vulns else xs in
        let b = if c && same_level m medium then a ++ v.medium_vulns else a in
        let d = if c && same_level m low then b ++ v.low_vulns else b in
        if c && same_level m no_sec then d ++ v.no_sec_vulns else d)
      ≡ (if c then xs ++ at m v else xs)
pick true no_sec xs v = refl
pick true low xs v = refl
pick true medium xs v = refl
pick true high xs v = refl
pick false m xs v = refl

-- After `setVulns`, the list of a level of a tool's output is what it was, followed by the scan's
-- list of that level if the scan's name is the tool's and the tool is not trivy, and is unchanged
-- otherwise.
pub at-set_vulns :
    (t : Tool) (m : Level) (scan : ScanInfo) (r : HuskyResults)
    → at m (output_of t (set_vulns scan r)) ≡ (
        if collects t scan.security_test_name
        then at m (output_of t r) ++ at m scan.vulnerabilities
        else at m (output_of t r))
unfolding set_vulns
at-set_vulns t m scan r =
    let name = scan.security_test_name in
    let v = scan.vulnerabilities in
    rw
      (
        at-add_vulns t name no_sec m v.no_sec_vulns _,
        at-add_vulns t name low m v.low_vulns _,
        at-add_vulns t name medium m v.medium_vulns _,
        at-add_vulns t name high m v.high_vulns r,
      )
      (pick (collects t name) m (at m (output_of t r)) v)
