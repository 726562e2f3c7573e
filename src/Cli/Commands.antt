-- ===== src/Cli/Commands.antt =====
-- What every command keeps of the targets: their names differ, and at most one is current.
use husky_ci.Base.{
  ◌≤◌, ◌≡◌, refl, sym, subst, ap, ◌∙◌, arith, String, ◌==◌, Bool, true, false, ◌||◌, Option, none,
  some, List, [], ◌∷◌, if◌then◌else◌, Bool-cases, inl, inr,
}
use husky_ci.Base.Outcome.{gives, >>=-eq-gives, require-gives}
use husky_ci.Base.TextLaws.{flipped}
use husky_ci.Input.{slice_contains}
use husky_ci.Input.Duplicates.{Unique}
use husky_ci.Database.Query.{keys}
use husky_ci.Cli.Targets.{
  Target, Targets, Checks, as_map, as_text, put, require_free, entry_of, is_used, unset_all,
  unset_if, target_add, noted, set_loop, target_set, target_remove, save_target,
}
use husky_ci.Cli.Counts.{
  currents, of_gives, target_add-currents, set_loop-currents, occurs_le, target_remove-currents,
  save_target-currents,
}

-- A command that has changed the targets.
pub data Command (c : Checks) : Targets → Targets → Type 0 where
  add :
      (name endpoint : String) (set_current : Bool) (ts ts' : Targets)
      → target_add c name endpoint set_current ts ≡ gives ts'
      → Command c ts ts'
  set :
      (name endpoint : String) (ts ts' : Targets)
      → target_set name ts ≡ gives (endpoint, ts')
      → Command c ts ts'
  remove :
      (name endpoint : String) (ts ts' : Targets)
      → target_remove name ts ≡ gives (endpoint, ts')
      → Command c ts ts'
  save :
      (name endpoint : String) (ts ts' : Targets)
      → save_target name endpoint ts ≡ gives ts'
      → Command c ts ts'

-- The names differ, and at most one target is current.
abbrev pub IsSound : Targets → Type 0
IsSound ts = Unique (keys ts) × (currents ts ≤ 1)

contains-put :
    (j name : String) (v : Option Target) (ts : Targets)
    → (name == j) ≡ false
    → slice_contains (keys ts) j ≡ false
    → slice_contains (keys (put name v ts)) j ≡ false
unfolding slice_contains
contains-put j name v [] other h = rw other refl
contains-put j name v ((k, w) ∷ ts) other h = elim (Bool-cases (k == name)) [
  | inl same ↦ rw same h
  | inr new ↦
      rw new (
        both (k == j) (slice_contains (keys ts) j) _ h
          (λ rest. contains-put j name v ts other rest))
]
  where
    both : (b c d : Bool) → (b || c) ≡ false → (c ≡ false → d ≡ false) → (b || d) ≡ false
    both true c d h f = h
    both false c d h f = f h

put-Unique :
    (name : String) (v : Option Target) (ts : Targets)
    → Unique (keys ts)
    → Unique (keys (put name v ts))
unfolding slice_contains
put-Unique name v [] u = (refl, tt)
put-Unique name v ((k, w) ∷ ts) (fresh, u) = elim (Bool-cases (k == name)) [
  | inl same ↦ rw same (fresh, u)
  | inr other ↦
      rw other (contains-put k name v ts (flipped k name other) fresh, put-Unique name v ts u)
]

unset_all-keys : (ts ts' : Targets) → unset_all ts ≡ gives ts' → keys ts' ≡ keys ts
unfolding unset_all
unset_all-keys [] ts' h = ap keys (sym (of_gives h))
unset_all-keys ((k, none) ∷ ts) ts' h = cc
unset_all-keys ((k, some t) ∷ ts) ts' h =
    let (rest, e, h1) = >>=-eq-gives (unset_all ts) _ h in
    ap keys (sym (of_gives h1)) ∙ ap (λ (ns : List String). k ∷ ns) (unset_all-keys ts rest e)

unset_if-keys : (b : Bool) (ts ts' : Targets) → unset_if b ts ≡ gives ts' → keys ts' ≡ keys ts
unset_if-keys true ts ts' h = unset_all-keys ts ts' h
unset_if-keys false ts ts' h = ap keys (sym (of_gives h))

set_loop-keys :
    (name : String) (acc : Bool × String) (ts : Targets) (acc' : Bool × String) (ts' : Targets)
    → set_loop name acc ts ≡ gives (acc', ts')
    → keys ts' ≡ keys ts
unfolding set_loop
set_loop-keys name acc [] acc' ts' h =
    ap (λ (r : (Bool × String) × Targets). keys r.1) (sym (of_gives h))
set_loop-keys name acc ((k, none) ∷ ts) acc' ts' h = cc
set_loop-keys name acc ((k, some t) ∷ ts) acc' ts' h =
    let (acc1, e1, h1) = >>=-eq-gives (noted name k t acc) _ h in
    let (done, e2, h2) = >>=-eq-gives (set_loop name acc1 ts) _ h1 in
    ap (λ (r : (Bool × String) × Targets). keys r.1) (sym (of_gives h2))
    ∙ ap (λ (ns : List String). k ∷ ns) (set_loop-keys name acc1 ts done.0 done.1 e2)

-- The commands target-add, target-set and target-remove and the wizard's `saveTarget` keep the
-- targets in order: where the names differ and at most one target is current, so it is after the
-- command, whatever its arguments.
pub Command-IsSound : (c : Checks) (ts ts' : Targets) → IsSound ts → Command c ts ts' → IsSound ts'
unfolding target_add target_set target_remove save_target
Command-IsSound c ts ts' (u, one) (add name endpoint set_current _ _ h) =
    let (named, h1) = require-gives (c.is_name name) _ _ h in
    let (url, e1, h2) = >>=-eq-gives (c.parse_url endpoint) _ h1 in
    let (full, h3) = require-gives _ _ _ h2 in
    let (free, e2, h4) = >>=-eq-gives (require_free name ts) _ h3 in
    let (rest, e3, h5) = >>=-eq-gives (unset_if set_current ts) _ h4 in
    (
      subst (λ (t : Targets). Unique (keys t)) (of_gives h5)
          (put-Unique name _ rest (subst Unique (sym (unset_if-keys set_current ts rest e3)) u)),
      added set_current (target_add-currents c name endpoint set_current ts ts' h),
    )
  where
    added : (b : Bool) → currents ts' ≤ (if b then 1 else currents ts) → currents ts' ≤ 1
    added true k = k
    added false k = omega arith
Command-IsSound c ts ts' (u, one) (set name endpoint _ _ h) =
    let (done, e1, h1) = >>=-eq-gives (set_loop name (false, "") ts) _ h in
    let (found, h2) = require-gives done.0.0 _ _ h1 in
    subst IsSound (ap (λ (r : String × Targets). r.1) (of_gives h2)) (
      subst Unique (sym (set_loop-keys name (false, "") ts done.0 done.1 e1)) u,
      omega (arith, set_loop-currents name (false, "") ts done.0 done.1 e1, occurs_le name ts u),
    )
Command-IsSound c ts ts' (u, one) (remove name endpoint _ _ h) =
    let (used, h1) = require-gives (is_used name ts) _ _ h in
    let (t, e1, h2) = >>=-eq-gives (as_map (entry_of name ts)) _ h1 in
    let (ep, e2, h3) = >>=-eq-gives (as_text t.endpoint) _ h2 in
    (
      subst (λ (t : Targets). Unique (keys t)) (ap (λ (r : String × Targets). r.1) (of_gives h3))
          (put-Unique name none ts u),
      omega (arith, target_remove-currents name endpoint ts ts' h),
    )
Command-IsSound c ts ts' (u, one) (save name endpoint _ _ h) =
    let (rest, e, h1) = >>=-eq-gives (unset_all ts) _ h in
    (
      subst (λ (t : Targets). Unique (keys t)) (of_gives h1)
          (put-Unique name _ rest (subst Unique (sym (unset_all-keys ts rest e)) u)),
      omega (arith, save_target-currents name endpoint ts ts' h),
    )
