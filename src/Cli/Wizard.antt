-- ===== src/Cli/Wizard.antt =====
-- The questions of cli/cmd/setup.go: `collectEndpoint` and `collectTargetName` with their checks.
use husky_ci.Base.{
  ◌≡◌, refl, String, ◌==◌, Bool, true, false, not, ◌&&◌, Option, none, some, [], ◌∷◌, if◌then◌else◌,
  trim_space, subst, itoa,
}
use husky_ci.Base.Outcome.{Outcome, gives, fails, ◌>>=◌, ◌>>◌, require, require-gives, >>=-eq-gives}
use husky_ci.Cli.Counts.{of_gives}
use husky_ci.Cli.Targets.{Targets, Checks, is_used, generated_name}

-- `validateEndpoint`
unfoldable pub validate_endpoint : Checks → String → Outcome (Unit {0})
validate_endpoint c endpoint =
    require (not (endpoint == "")) "endpoint URL cannot be empty"
    >> (c.parse_url endpoint >>= λ url.
        require (not (url.0 == "") && not (url.1 == ""))
          "URL must include scheme (http:// or https://) and host")

-- `validateTargetName`
unfoldable pub validate_target_name : Checks → String → Targets → Outcome (Unit {0})
validate_target_name c name ts =
    require (not (name == "")) "target name cannot be empty"
    >> (require (c.is_name name) "invalid target name"
        >> require (not (is_used name ts)) "target name already exists")

-- `w.scanner.Scan()` with its line.
abbrev pub line_of : Option String → Outcome String
line_of none = fails "failed to read input"
line_of (some line) = gives (trim_space line)

-- `collectEndpoint`; `address` is the value of HUSKYCI_CLIENT_API_ADDR.
unfoldable pub collect_endpoint :
    Checks → (non_interactive : Bool) → (address : String) → Option String → Outcome String
unfolding validate_endpoint
collect_endpoint c true address line =
    gives (if address == "" then "http://localhost:8888" else address)
collect_endpoint c false address line =
    line_of line >>= λ endpoint. validate_endpoint c endpoint >> gives endpoint

-- `collectTargetName`
unfoldable pub collect_target_name :
    Checks → (non_interactive : Bool) → Targets → Option String → Outcome String
unfolding validate_target_name generated_name
collect_target_name c true ts line = gives (generated_name ts)
collect_target_name c false ts line =
    line_of line >>= λ name. validate_target_name c name ts >> gives name

unused : (b : Bool) → not b ≡ true → b ≡ false
unused true h = cc
unused false h = refl

-- A name that is entered in the wizard is a valid one and no target has it. Without interaction the
-- generated name has no such guarantee.
pub entered_name_lem :
    (c : Checks) (ts : Targets) (line : Option String) (name : String)
    → collect_target_name c false ts line ≡ gives name
    → (c.is_name name ≡ true) × (is_used name ts ≡ false)
unfolding collect_target_name validate_target_name
entered_name_lem c ts line name h =
    let (entered, e, h1) = >>=-eq-gives (line_of line) _ h in
    let (u, e1, h2) = >>=-eq-gives (validate_target_name c entered ts) _ h1 in
    let (filled, e2) = require-gives (not (entered == "")) _ _ e1 in
    let (matches, e3) = require-gives (c.is_name entered) _ _ e2 in
    subst (λ (n : String). (c.is_name n ≡ true) × (is_used n ts ≡ false)) (of_gives h2)
      (matches, unused (is_used entered ts) (only (not (is_used entered ts)) _ e3))
  where
    only : (b : Bool) (err : String) {v : Unit {0}} → require b err ≡ gives v → b ≡ true
    only true err e = refl
    only false err e = cc

-- Without interaction a target that is there may be overwritten.
generated_name_clash :
    (c : Checks)
    → collect_target_name c true (("a", none) ∷ ("target-3", none) ∷ []) none ≡ gives "target-3"
unfolding collect_target_name generated_name itoa
generated_name_clash c = refl
