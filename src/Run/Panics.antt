-- ===== src/Run/Panics.antt =====
-- When the pattern of `Run.Join` panics, and when it loses an error.
use husky_ci.Base.{
  ℕ, suc, ◌+◌, ◌≤◌, String, ◌≡◌, ◌≢◌, ◌∙◌, sym, refl, ap, Bool, true, false, none, some, List, [],
  ◌∷◌, ◌++◌, length, arith, is_some, count, if◌then◌else◌, length-snoc,
}
use husky_ci.Run.Join.{
  Task, Phase, waiting, leaving, returned, panicked, alive, Join, start, Step, finish, send, drop,
  crash, close_wait, see_end, see_error, leave, Reach, here, next,
}
use husky_ci.Run.Outcome.{IsWaited, not_cons, Reach-IsWaited, start-IsWaited, saw_end}

-- The caller has taken an error from the channel.
abbrev took : Phase → ℕ
took (leaving (some err)) = 1
took (returned (some err)) = 1
took _ = 0

abbrev has_returned : Phase → Bool
has_returned (returned r) = true
has_returned _ = false

-- A caller that has returned has seen all goroutines end, or has taken an error.
returned_why : (p : Phase) → has_returned p ≡ true → took p ≡ 0 → saw_end p ≡ true
returned_why (returned none) h t = refl
returned_why (returned (some err)) h t = absurd (omega arith)
returned_why waiting h t = cc
returned_why (leaving r) h t = cc
returned_why panicked h t = cc

not_returned : (p : Phase) → p ≡ waiting → has_returned p ≡ true → ⊥
not_returned (returned r) e h = cc
not_returned waiting e h = cc
not_returned (leaving r) e h = cc
not_returned panicked e h = cc

dead : (p : Phase) → p ≡ panicked → alive p ≡ true → ⊥
dead (returned r) e h = cc
dead waiting e h = cc
dead (leaving r) e h = cc
dead panicked e h = cc

module _ {A : Type 0} where
  abbrev pub fails : Task A → Bool
  fails t = is_some t.error

  count-ended :
      (pre : List (Task A)) (t : Task A) (post : List (Task A))
      → count fails (pre ++ (t ∷ post)) ≡ (if fails t then 1 else 0) + count fails (pre ++ post)
  count-ended [] t post = refl
  count-ended (u ∷ pre) t post = omega (arith, count-ended pre t post)

  count-fine :
      (pre : List (Task A)) (t : Task A) (post : List (Task A)) (j : Join A)
      → j.running ≡ pre ++ (t ∷ post)
      → count fails (pre ++ post) ≤ count fails j.running
  count-fine pre t post j e = rw e (omega (arith, count-ended pre t post))

  count-bad :
      (pre : List (Task A)) (t : Task A) (post : List (Task A)) (err : String) (j : Join A)
      → j.running ≡ pre ++ (t ∷ post)
      → t.error ≡ some err
      → suc (count fails (pre ++ post)) ≡ count fails j.running
  count-bad pre t post err j e f = rw (e, count-ended pre t post, f) (omega arith)

  -- At most one error is to come, on its way, or taken; `errChan` is closed by a caller that has
  -- returned.
  record IsQuiet (j : Join A) : Type 0 where
    budget : count fails j.running + length j.queue + took j.phase ≤ 1
    shut : j.err_closed ≡ true → has_returned j.phase ≡ true
    live : alive j.phase ≡ true

  no_crash :
      (pre : List (Task A)) (t : Task A) (post : List (Task A)) (err : String) (j : Join A)
      → j.running ≡ pre ++ (t ∷ post)
      → t.error ≡ some err
      → j.err_closed ≡ true
      → IsWaited j
      → IsQuiet j
      → ⊥
  no_crash pre t post err j e f c w q =
      let over : j.running ≡ [] = w.closed (
        w.seen (
          returned_why j.phase (q.shut c)
            (omega (arith, q.budget, count-bad pre t post err j e f)))) in
      not_cons pre t post (sym e ∙ over)

  Step-IsQuiet : {j k : Join A} → Step j k → IsWaited j → IsQuiet j → IsQuiet k
  Step-IsQuiet {j} (finish pre t post _ e f) w q = record {
    budget = omega (arith, q.budget, count-fine pre t post j e);
    shut = q.shut;
    live = q.live;
  }
  Step-IsQuiet {j} (send pre t post err _ e f o r) w q = record {
    budget = omega (arith, q.budget, count-bad pre t post err j e f, length-snoc j.queue err);
    shut = q.shut;
    live = q.live;
  }
  Step-IsQuiet {j} (drop pre t post err _ e f c) w q = record {
    budget = omega (arith, q.budget, count-fine pre t post j e);
    shut = q.shut;
    live = q.live;
  }
  Step-IsQuiet {j} (crash pre t post err _ e f c) w q = absurd (no_crash pre t post err j e f c w q)
  Step-IsQuiet (close_wait _ e o) w q = record { budget = q.budget; shut = q.shut; live = q.live }
  Step-IsQuiet (see_end p c) w q = record {
    budget = omega (arith, q.budget);
    shut = λ h. absurd (not_returned _ p (q.shut h));
    live = refl;
  }
  Step-IsQuiet (see_error err rest p e) w q = record {
    budget = omega (arith, q.budget, ap length e);
    shut = λ h. absurd (not_returned _ p (q.shut h));
    live = refl;
  }
  Step-IsQuiet (leave none p) w q = record {
    budget = omega (arith, q.budget);
    shut = λ h. refl;
    live = refl;
  }
  Step-IsQuiet (leave (some err) p) w q = record {
    budget = omega (arith, q.budget, ap took p);
    shut = λ h. refl;
    live = refl;
  }

  Reach-IsQuiet : {j k : Join A} → IsWaited j → IsQuiet j → Reach j k → IsQuiet k
  Reach-IsQuiet w q here = q
  Reach-IsQuiet w q (next r s) = Step-IsQuiet s (Reach-IsWaited w r) (Reach-IsQuiet w q r)

  -- With at most one goroutine that ends in an error, the process does not panic.
  pub no_panic :
      (tasks : List (Task A)) (j : Join A)
      → count fails tasks ≤ 1
      → Reach (start tasks) j
      → j.phase ≢ panicked
  no_panic tasks j one r p =
      let q =
        Reach-IsQuiet (start-IsWaited tasks)
          (record { budget = omega (arith, one); shut = λ h. cc; live = refl }) r in
      dead _ p q.live
