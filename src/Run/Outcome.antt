-- ===== src/Run/Outcome.antt =====
-- What a caller that waits by the pattern of `Run.Join` can count on.
use husky_ci.Base.{◌≡◌, ◌≢◌, ◌∙◌, sym, refl, Bool, true, false, none, some, List, [], ◌∷◌, ◌++◌}
use husky_ci.Run.Join.{
  Task, Phase, leaving, returned, Join, start, Step, finish, send, drop, crash, close_wait, see_end,
  see_error, leave, Reach, here, next, ended,
}

-- The caller has seen `waitChan` closed.
abbrev pub saw_end : Phase → Bool
saw_end (leaving none) = true
saw_end (returned none) = true
saw_end _ = false

module _ {A : Type 0} where
  -- A closed `waitChan` means that no goroutine runs.
  pub record IsWaited (j : Join A) : Type 0 where
    pub closed : j.wait_closed ≡ true → j.running ≡ []
    pub seen : saw_end j.phase ≡ true → j.wait_closed ≡ true

  pub not_cons : (pre : List (Task A)) (t : Task A) (post : List (Task A)) → pre ++ (t ∷ post) ≢ []
  not_cons [] t post e = cc
  not_cons (u ∷ pre) t post e = cc

  ended-IsWaited :
      (pre : List (Task A)) (t : Task A) (post : List (Task A)) (j : Join A)
      → j.running ≡ pre ++ (t ∷ post)
      → IsWaited j
      → IsWaited (ended pre t post j)
  ended-IsWaited pre t post j e w = record {
    closed = λ c. absurd (not_cons pre t post (sym e ∙ w.closed c));
    seen = w.seen;
  }

  pub Step-IsWaited : {j k : Join A} → Step j k → IsWaited j → IsWaited k
  Step-IsWaited {j} (finish pre t post a e f) w = ended-IsWaited pre t post j e w
  Step-IsWaited {j} (send pre t post err a e f o r) w =
      let v = ended-IsWaited pre t post j e w in record { closed = v.closed; seen = v.seen }
  Step-IsWaited {j} (drop pre t post err a e f c) w = ended-IsWaited pre t post j e w
  Step-IsWaited {j} (crash pre t post err a e f c) w =
      let v = ended-IsWaited pre t post j e w in record { closed = v.closed; seen = λ h. cc }
  Step-IsWaited (close_wait a e o) w = record { closed = λ h. e; seen = λ h. refl }
  Step-IsWaited (see_end p c) w = record { closed = w.closed; seen = λ h. c }
  Step-IsWaited (see_error err rest p q) w = record { closed = w.closed; seen = λ h. cc }
  Step-IsWaited (leave none p) w = record { closed = w.closed; seen = λ h. w.seen (rw p refl) }
  Step-IsWaited (leave (some r) p) w = record { closed = w.closed; seen = λ h. cc }

  pub Reach-IsWaited : {j k : Join A} → IsWaited j → Reach j k → IsWaited k
  Reach-IsWaited w here = w
  Reach-IsWaited w (next r s) = Step-IsWaited s (Reach-IsWaited w r)

  pub start-IsWaited : (tasks : List (Task A)) → IsWaited (start tasks)
  start-IsWaited tasks = record { closed = λ h. cc; seen = λ h. cc }

  -- If the caller returns nil, all its goroutines have ended.
  pub returns_nil :
      (tasks : List (Task A)) (j : Join A)
      → Reach (start tasks) j
      → j.phase ≡ returned none
      → j.running ≡ []
  returns_nil tasks j r p =
      let w = Reach-IsWaited (start-IsWaited tasks) r in w.closed (w.seen (rw p refl))
