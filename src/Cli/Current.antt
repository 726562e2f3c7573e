-- ===== src/Cli/Current.antt =====
-- The target that the client uses after `target-set`.
use husky_ci.Base.{
  ◌≡◌, refl, sym, subst, ap, ◌∙◌, String, ◌==◌, Bool, true, false, none, some, [], ◌∷◌,
  if◌then◌else◌, Bool-cases, inl, inr, eq_iff,
}
use husky_ci.Base.Outcome.{Outcome, gives, ◌>>=◌, >>=-eq-gives, require-gives}
use husky_ci.Cli.Targets.{
  Target, Targets, as_text, marked, noted, set_loop, target_set, Current, no_target, text_or_empty,
  activated, current_loop, get_current_target,
}
use husky_ci.Cli.Counts.{of_gives}

noted-other :
    (name k : String) (t : Target) (acc acc1 : Bool × String)
    → (k == name) ≡ false
    → noted name k t acc ≡ gives acc1
    → acc1 ≡ acc
noted-other name k t acc acc1 other e = sym (
    of_gives (
      subst
        (λ (b : Bool).
          (if b then (as_text t.endpoint >>= λ ep. gives (true, ep)) else gives acc) ≡ gives acc1)
        other e))

noted-same :
    (name k : String) (t : Target) (acc acc1 : Bool × String)
    → (k == name) ≡ true
    → noted name k t acc ≡ gives acc1
    → (endpoint : String) × (as_text t.endpoint ≡ gives endpoint) × (acc1 ≡ (true, endpoint))
noted-same name k t acc acc1 same e =
    let here =
      subst
        (λ (b : Bool).
          (if b then (as_text t.endpoint >>= λ ep. gives (true, ep)) else gives acc) ≡ gives acc1)
        same e in
    let (endpoint, e1, e2) = >>=-eq-gives (as_text t.endpoint) _ here in
    (endpoint, e1, sym (of_gives e2))

-- The target that the two loops have met last.
abbrev Agree : String → Bool × String → Current → Type 0
Agree name acc cur = acc.0 ≡ true → (cur.label ≡ name) × (cur.endpoint ≡ acc.1)

after_entry :
    (name token k : String) (t : Target) (cur : Current) (ts : Targets) (b : Bool)
    → (k == name) ≡ b
    → current_loop token cur ((k, some (marked name k t)) ∷ ts)
      ≡ (activated token k (marked name k t) b cur >>= λ (c : Current). current_loop token c ts)
unfolding current_loop
after_entry name token k t cur ts b e =
    ap
      (λ (d : Bool).
        activated token k (marked name k t) d cur >>= λ (c : Current). current_loop token c ts)
      e

after_endpoint :
    (name token k endpoint : String) (t : Target) (cur : Current) (ts : Targets)
    → (k == name) ≡ true
    → as_text t.endpoint ≡ gives endpoint
    → current_loop token cur ((k, some (marked name k t)) ∷ ts)
      ≡ current_loop token
          (record {
            label = k;
            endpoint = endpoint;
            token_storage = text_or_empty t.token_storage;
            token = token;
          })
          ts
after_endpoint name token k endpoint t cur ts same e =
    after_entry name token k t cur ts true same
    ∙ ap
        (λ (o : Outcome String).
          (o >>= λ (ep : String). gives (record {
            label = k;
            endpoint = ep;
            token_storage = text_or_empty t.token_storage;
            token = token;
          }))
          >>= λ (c : Current). current_loop token c ts)
        e

current_after_set :
    (name token : String) (acc : Bool × String) (cur : Current) (ts : Targets)
    (acc' : Bool × String) (ts' : Targets)
    → set_loop name acc ts ≡ gives (acc', ts')
    → Agree name acc cur
    → (cur' : Current) × (current_loop token cur ts' ≡ gives cur') × Agree name acc' cur'
unfolding set_loop current_loop
current_after_set name token acc cur [] acc' ts' h agree =
    subst
      (λ (r : (Bool × String) × Targets).
        (cur' : Current) × (current_loop token cur r.1 ≡ gives cur') × Agree name r.0 cur')
      (of_gives h) (cur, refl, agree)
current_after_set name token acc cur ((k, none) ∷ ts) acc' ts' h agree = cc
current_after_set name token acc cur ((k, some t) ∷ ts) acc' ts' h agree =
    let (acc1, e1, h1) = >>=-eq-gives (noted name k t acc) _ h in
    let (done, e2, h2) = >>=-eq-gives (set_loop name acc1 ts) _ h1 in
    subst
      (λ (r : (Bool × String) × Targets).
        (cur' : Current) × (current_loop token cur r.1 ≡ gives cur') × Agree name r.0 cur')
      (of_gives h2)
      (elim (Bool-cases (k == name)) [
        | inl same ↦
            let (endpoint, e3, e4) = noted-same name k t acc acc1 same e1 in
            let next : Current = record {
              label = k;
              endpoint = endpoint;
              token_storage = text_or_empty t.token_storage;
              token = token;
            } in
            let (cur', e5, agree') =
              current_after_set name token acc1 next ts done.0 done.1 e2
                (λ _. ((eq_iff k name).0 same, ap (λ (a : Bool × String). a.1) (sym e4))) in
            (cur', after_endpoint name token k endpoint t cur done.1 same e3 ∙ e5, agree')
        | inr other ↦
            let (cur', e5, agree') = current_after_set name token acc1 cur ts done.0 done.1 e2 (
              subst (λ (a : Bool × String). Agree name a cur)
                (sym (noted-other name k t acc acc1 other e1)) agree) in
            (cur', after_entry name token k t cur done.1 false other ∙ e5, agree')
      ])

-- A target that target-set has set is the one that the client then uses, where the variable
-- HUSKYCI_CLIENT_API_ADDR is not set and the client visits the entries of the map in the order in
-- which the command has visited them: the current target has the given name and the endpoint that
-- the command has reported.
pub set-get_current_target :
    (name token endpoint : String) (ts ts' : Targets)
    → target_set name ts ≡ gives (endpoint, ts')
    → (cur : Current) × (get_current_target "" token ts' ≡ gives cur)
      × (cur.label ≡ name)
      × (cur.endpoint ≡ endpoint)
unfolding target_set get_current_target
set-get_current_target name token endpoint ts ts' h =
    let (done, e, h1) = >>=-eq-gives (set_loop name (false, "") ts) _ h in
    let (found, h2) = require-gives done.0.0 _ _ h1 in
    let (cur, e1, agree) =
      current_after_set name token (false, "") no_target ts done.0 done.1 e (λ x. cc) in
    let (label, ep) = agree found in
    (
      cur,
      subst (λ (t : Targets). current_loop token no_target t ≡ gives cur)
          (ap (λ (r : String × Targets). r.1) (of_gives h2)) e1,
      label,
      ep ∙ ap (λ (r : String × Targets). r.0) (of_gives h2),
    )
