-- ===== src/Cli/Counts.antt =====
-- How many targets are the current one after the commands that change the targets.
use husky_ci.Base.{
  ℕ, ◌+◌, ◌≤◌, ◌≡◌, refl, subst, ap, arith, String, ◌==◌, Bool, true, false, not, ◌&&◌, ◌||◌,
  Option, none, some, [], ◌∷◌, if◌then◌else◌, Bool-cases, inl, inr, eq_iff,
}
use husky_ci.Base.Outcome.{Outcome, gives, fails, panics, >>=-eq-gives, require-gives}
use husky_ci.Input.{slice_contains}
use husky_ci.Input.Duplicates.{Unique}
use husky_ci.Database.Query.{keys}
use husky_ci.Cli.Targets.{
  Target, Targets, Checks, as_map, as_text, put, require_free, entry_of, is_used, unset_all,
  unset_if, target_add, noted, set_loop, target_remove, save_target,
}

abbrev pub is_current : Option Target → Bool
is_current none = false
is_current (some t) = current_flag t.current
  where
    current_flag : Option Bool → Bool
    current_flag none = false
    current_flag (some b) = b

-- The number of targets that are marked as the current one.
abbrev pub currents : Targets → ℕ
currents [] = 0
currents ((k, v) ∷ ts) = (if is_current v then 1 else 0) + currents ts

flag : Option Target → ℕ
flag v = if is_current v then 1 else 0

pub of_gives : {A : Type 0} {a b : A} → gives a ≡ gives b → a ≡ b
of_gives {A} {a} {b} h = ap (from a) h
  where
    from : A → Outcome A → A
    from d (gives x) = x
    from d (fails e) = d
    from d panics = d

unset_all-currents : (ts : Targets) (ts' : Targets) → unset_all ts ≡ gives ts' → currents ts' ≡ 0
unfolding unset_all
unset_all-currents [] ts' h = subst (λ (t : Targets). currents t ≡ 0) (of_gives h) refl
unset_all-currents ((k, none) ∷ ts) ts' h = cc
unset_all-currents ((k, some t) ∷ ts) ts' h =
    let (rest, e, h1) = >>=-eq-gives (unset_all ts) _ h in
    subst (λ (t : Targets). currents t ≡ 0) (of_gives h1)
      (omega (arith, unset_all-currents ts rest e))

put-currents_le :
    (name : String) (v : Option Target) (ts : Targets)
    → currents (put name v ts) ≤ flag v + currents ts
unfolding flag
put-currents_le name v [] = omega arith
put-currents_le name v ((k, w) ∷ ts) = elim (Bool-cases (k == name)) [
  | inl same ↦ rw same (omega arith)
  | inr other ↦ rw other (omega (arith, put-currents_le name v ts))
]

put-currents_ge :
    (name : String) (v : Option Target) (ts : Targets) → flag v ≤ currents (put name v ts)
unfolding flag
put-currents_ge name v [] = omega arith
put-currents_ge name v ((k, w) ∷ ts) = elim (Bool-cases (k == name)) [
  | inl same ↦ rw same (omega arith)
  | inr other ↦ rw other (omega (arith, put-currents_ge name v ts))
]

-- `put` at a target marked as current, where no other is.
put_only :
    (name : String) (t : Target) (ts : Targets)
    → flag (some t) ≡ 1
    → currents ts ≡ 0
    → currents (put name (some t) ts) ≡ 1
put_only name t ts h k =
    omega (arith, put-currents_le name (some t) ts, put-currents_ge name (some t) ts)

pub save_target-currents :
    (name endpoint : String) (ts ts' : Targets)
    → save_target name endpoint ts ≡ gives ts'
    → currents ts' ≡ 1
unfolding save_target flag
save_target-currents name endpoint ts ts' h =
    let (rest, e, h1) = >>=-eq-gives (unset_all ts) _ h in
    let t : Target = record {
      current = some true;
      endpoint = some endpoint;
      token_storage = some "file";
    } in
    subst (λ (t : Targets). currents t ≡ 1) (of_gives h1)
      (put_only name t rest refl (unset_all-currents ts rest e))

pub target_remove-currents :
    (name endpoint : String) (ts ts' : Targets)
    → target_remove name ts ≡ gives (endpoint, ts')
    → currents ts' ≤ currents ts
unfolding target_remove flag
target_remove-currents name endpoint ts ts' h =
    let (used, h1) = require-gives (is_used name ts) _ _ h in
    let (t, e1, h2) = >>=-eq-gives (as_map (entry_of name ts)) _ h1 in
    let (ep, e2, h3) = >>=-eq-gives (as_text t.endpoint) _ h2 in
    subst (λ (t : Targets). currents t ≤ currents ts)
      (ap (λ (r : String × Targets). r.1) (of_gives h3))
      (omega (arith, put-currents_le name none ts))

unset_if-currents :
    (b : Bool) (ts ts' : Targets)
    → unset_if b ts ≡ gives ts'
    → currents ts' ≤ (if b then 0 else currents ts)
unset_if-currents false ts ts' h =
    subst (λ (t : Targets). currents t ≤ currents ts) (of_gives h) (omega arith)
unset_if-currents true ts ts' h = omega (arith, unset_all-currents ts ts' h)

pub target_add-currents :
    (c : Checks) (name endpoint : String) (set_current : Bool) (ts ts' : Targets)
    → target_add c name endpoint set_current ts ≡ gives ts'
    → currents ts' ≤ (if set_current then 1 else currents ts)
unfolding target_add flag
target_add-currents c name endpoint set_current ts ts' h =
    let (named, h1) = require-gives (c.is_name name) _ _ h in
    let (url, e1, h2) = >>=-eq-gives (c.parse_url endpoint) _ h1 in
    let (full, h3) = require-gives (not (url.0 == "") && not (url.1 == "")) _ _ h2 in
    let (u, e2, h4) = >>=-eq-gives (require_free name ts) _ h3 in
    let (rest, e3, h5) = >>=-eq-gives (unset_if set_current ts) _ h4 in
    let t : Target = record {
      current = some set_current;
      endpoint = some endpoint;
      token_storage = none;
    } in
    subst (λ (t : Targets). currents t ≤ (if set_current then 1 else currents ts)) (of_gives h5)
      (added set_current ts rest (currents (put name (some t) rest))
        (put-currents_le name (some t) rest) (unset_if-currents set_current ts rest e3))
  where
    added :
        (b : Bool) (ts rest : Targets) (n : ℕ)
        → n ≤ (if b then 1 else 0) + currents rest
        → currents rest ≤ (if b then 0 else currents ts)
        → n ≤ (if b then 1 else currents ts)
    added true ts rest n h k = omega arith
    added false ts rest n h k = omega arith

-- How many entries have the name.
unfoldable pub occurs : String → Targets → ℕ
occurs name [] = 0
occurs name ((k, v) ∷ ts) = (if k == name then 1 else 0) + occurs name ts

pub set_loop-currents :
    (name : String) (acc : Bool × String) (ts : Targets) (acc' : Bool × String) (ts' : Targets)
    → set_loop name acc ts ≡ gives (acc', ts')
    → currents ts' ≡ occurs name ts
unfolding set_loop occurs
set_loop-currents name acc [] acc' ts' h =
    subst (λ (t : Targets). currents t ≡ 0)
      (ap (λ (r : (Bool × String) × Targets). r.1) (of_gives h)) refl
set_loop-currents name acc ((k, none) ∷ ts) acc' ts' h = cc
set_loop-currents name acc ((k, some t) ∷ ts) acc' ts' h =
    let (acc1, e1, h1) = >>=-eq-gives (noted name k t acc) _ h in
    let (done, e2, h2) = >>=-eq-gives (set_loop name acc1 ts) _ h1 in
    subst (λ (r : Targets). currents r ≡ occurs name ((k, some t) ∷ ts))
      (ap (λ (r : (Bool × String) × Targets). r.1) (of_gives h2))
      (omega (arith, set_loop-currents name acc1 ts done.0 done.1 e2))

not_contained :
    (name : String) (ts : Targets) → slice_contains (keys ts) name ≡ false → occurs name ts ≡ 0
unfolding slice_contains occurs
not_contained name [] h = refl
not_contained name ((k, v) ∷ ts) h = elim (Bool-cases (k == name)) [
  | inl same ↦ absurd (clash (k == name) (slice_contains (keys ts) name) same h)
  | inr other ↦ rw other (
      omega
        (arith, not_contained name ts (right_false (k == name) (slice_contains (keys ts) name) h)))
]
  where
    clash : (b c : Bool) → b ≡ true → (b || c) ≡ false → ⊥
    clash true c e h = cc
    clash false c e h = cc

    right_false : (b c : Bool) → (b || c) ≡ false → c ≡ false
    right_false true c h = cc
    right_false false c h = h

pub occurs_le : (name : String) (ts : Targets) → Unique (keys ts) → occurs name ts ≤ 1
unfolding occurs
occurs_le name [] u = omega arith
occurs_le name ((k, v) ∷ ts) (fresh, u) = elim (Bool-cases (k == name)) [
  | inl same ↦ rw same (omega (arith, not_contained name ts (rw (← (eq_iff k name).0 same) fresh)))
  | inr other ↦ rw other (omega (arith, occurs_le name ts u))
]
