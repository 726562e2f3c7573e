-- ===== src/Run/Errors.antt =====
-- Which error a caller that waits by the pattern of `Run.Join` returns, if it returns one.
use husky_ci.Base.{String, ◌≡◌, subst, Option, none, some, List, [], ◌∷◌, ◌++◌, All, All-snoc}
use husky_ci.Run.Join.{
  Task, Phase, leaving, returned, Join, start, Step, finish, send, drop, crash, close_wait, see_end,
  see_error, leave, Reach, here, next, ended,
}

-- An error of a task has the property.
abbrev pub ErrorHas : (String → Type 0) → Option String → Type 0
ErrorHas P none = Unit
ErrorHas P (some err) = P err

abbrev ResultHas : (String → Type 0) → Phase → Type 0
ResultHas P (leaving r) = ErrorHas P r
ResultHas P (returned r) = ErrorHas P r
ResultHas P _ = Unit

module _ {A : Type 0} where
  record IsHonest (P : String → Type 0) (j : Join A) : Type 0 where
    to_come : All (λ (t : Task A). ErrorHas P t.error) j.running
    sent : All P j.queue
    result : ResultHas P j.phase

  All-mid :
      (Q : Task A → Type 0) (pre : List (Task A)) (t : Task A) (post : List (Task A))
      → All Q (pre ++ (t ∷ post))
      → Q t × All Q (pre ++ post)
  All-mid Q [] t post h = h
  All-mid Q (u ∷ pre) t post (q, h) = let (x, y) = All-mid Q pre t post h in (x, (q, y))

  module _ (P : String → Type 0) where
    abbrev pub OfTask : Task A → Type 0
    OfTask t = ErrorHas P t.error

    ended-IsHonest :
        (pre : List (Task A)) (t : Task A) (post : List (Task A)) (j : Join A)
        → j.running ≡ pre ++ (t ∷ post)
        → IsHonest P j
        → IsHonest P (ended pre t post j)
    ended-IsHonest pre t post j e h = record {
      to_come = (All-mid OfTask pre t post (subst (All OfTask) e h.to_come)).1;
      sent = h.sent;
      result = h.result;
    }

    own_error :
        (pre : List (Task A)) (t : Task A) (post : List (Task A)) (err : String) (j : Join A)
        → j.running ≡ pre ++ (t ∷ post)
        → t.error ≡ some err
        → IsHonest P j
        → P err
    own_error pre t post err j e f h =
        subst (ErrorHas P) f (All-mid OfTask pre t post (subst (All OfTask) e h.to_come)).0

    Step-IsHonest : {j k : Join A} → Step j k → IsHonest P j → IsHonest P k
    Step-IsHonest {j} (finish pre t post _ e f) h = ended-IsHonest pre t post j e h
    Step-IsHonest {j} (send pre t post err _ e f o r) h = record {
      to_come = (ended-IsHonest pre t post j e h).to_come;
      sent = All-snoc P j.queue err h.sent (own_error pre t post err j e f h);
      result = h.result;
    }
    Step-IsHonest {j} (drop pre t post err _ e f c) h = ended-IsHonest pre t post j e h
    Step-IsHonest {j} (crash pre t post err _ e f c) h = record {
      to_come = (ended-IsHonest pre t post j e h).to_come;
      sent = h.sent;
      result = tt;
    }
    Step-IsHonest (close_wait _ e o) h = record {
      to_come = h.to_come;
      sent = h.sent;
      result = h.result;
    }
    Step-IsHonest (see_end p c) h = record { to_come = h.to_come; sent = h.sent; result = tt }
    Step-IsHonest (see_error err rest p q) h =
        let all = subst (All P) q h.sent in
        record { to_come = h.to_come; sent = all.1; result = all.0 }
    Step-IsHonest (leave r p) h = record {
      to_come = h.to_come;
      sent = h.sent;
      result = subst (ResultHas P) p h.result;
    }

    Reach-IsHonest : {j k : Join A} → IsHonest P j → Reach j k → IsHonest P k
    Reach-IsHonest h here = h
    Reach-IsHonest h (next r s) = Step-IsHonest s (Reach-IsHonest h r)

    -- What the caller returns is the error of one of its goroutines: it has every property that
    -- all of their errors have.
    pub returns_own_error :
        (tasks : List (Task A)) (j : Join A) (err : String)
        → All OfTask tasks
        → Reach (start tasks) j
        → j.phase ≡ returned (some err)
        → P err
    returns_own_error tasks j err all r p =
        subst (ResultHas P) p
          (Reach-IsHonest (record { to_come = all; sent = tt; result = tt }) r).result
