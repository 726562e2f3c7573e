-- ===== src/Run/Progress.antt =====
-- Whether the goroutines and the caller of `Run.Join` can go on.
use husky_ci.Base.{
  ℕ, suc, ◌+◌, ◌≤◌, ◌≡◌, refl, ap, true, none, List, [], ◌∷◌, ◌++◌, length, arith, length-append,
  length-snoc, ◌⊎◌, inl, inr, Bool-cases, Option-cases,
}
use husky_ci.Run.Join.{
  Task, Phase, waiting, leaving, returned, panicked, alive, Join, start, Step, finish, send, drop,
  crash, close_wait, see_end, see_error, leave, Reach, here, next, ended,
}

abbrev rank : Phase → ℕ
rank waiting = 3
rank (leaving r) = 2
rank (returned r) = 1
rank panicked = 0

waiting_rank : (p : Phase) → p ≡ waiting → rank p ≤ 1 → ⊥
waiting_rank waiting e h = omega arith
waiting_rank (leaving r) e h = omega arith
waiting_rank (returned r) e h = cc
waiting_rank panicked e h = cc

abbrev pub Over : Phase → Type 0
Over waiting = ⊥
Over (leaving r) = ⊥
Over (returned r) = Unit
Over panicked = Unit

module _ {A : Type 0} where
  length-ended :
      (pre : List (Task A)) (t : Task A) (post : List (Task A)) (j : Join A)
      → j.running ≡ pre ++ (t ∷ post)
      → suc (length (pre ++ post)) ≡ length j.running
  length-ended pre t post j e =
      rw e (omega (arith, length-append pre post, length-append pre (t ∷ post)))

  -- The error channel has room for the errors to come, and is closed only by the caller.
  record HasRoom (j : Join A) : Type 0 where
    room : length j.queue + length j.running ≤ j.capacity
    open_while : j.err_closed ≡ true → rank j.phase ≤ 1

  ended-HasRoom :
      (pre : List (Task A)) (t : Task A) (post : List (Task A)) (j : Join A)
      → j.running ≡ pre ++ (t ∷ post)
      → HasRoom j
      → HasRoom (ended pre t post j)
  ended-HasRoom pre t post j e h = record {
    room = omega (arith, h.room, length-ended pre t post j e);
    open_while = h.open_while;
  }

  Step-HasRoom : {j k : Join A} → Step j k → HasRoom j → HasRoom k
  Step-HasRoom {j} (finish pre t post a e f) h = ended-HasRoom pre t post j e h
  Step-HasRoom {j} (send pre t post err a e f o r) h = record {
    room = omega (arith, h.room, length-ended pre t post j e, length-snoc j.queue err);
    open_while = h.open_while;
  }
  Step-HasRoom {j} (drop pre t post err a e f c) h = ended-HasRoom pre t post j e h
  Step-HasRoom {j} (crash pre t post err a e f c) h = record {
    room = (ended-HasRoom pre t post j e h).room;
    open_while = λ c. omega arith;
  }
  Step-HasRoom (close_wait a e o) h = record { room = h.room; open_while = h.open_while }
  Step-HasRoom (see_end p c) h = record {
    room = h.room;
    open_while = λ o. absurd (waiting_rank _ p (h.open_while o));
  }
  Step-HasRoom (see_error err rest p q) h = record {
    room = omega (arith, ap length q, h.room);
    open_while = λ o. absurd (waiting_rank _ p (h.open_while o));
  }
  Step-HasRoom (leave r p) h = record { room = h.room; open_while = λ c. omega arith }

  Reach-HasRoom : {j k : Join A} → HasRoom j → Reach j k → HasRoom k
  Reach-HasRoom h here = h
  Reach-HasRoom h (next r s) = Step-HasRoom s (Reach-HasRoom h r)

  start-HasRoom : (tasks : List (Task A)) → HasRoom (start tasks)
  start-HasRoom tasks = record { room = omega arith; open_while = λ c. cc }

  -- A goroutine that runs can always end: no send waits for the caller, whatever the others do.
  pub never_blocked :
      (tasks : List (Task A)) (j : Join A)
      → Reach (start tasks) j
      → alive j.phase ≡ true
      → (pre : List (Task A)) (t : Task A) (post : List (Task A)) → j.running ≡ pre ++ (t ∷ post)
      → (k : Join A) × Step j k × (k.running ≡ pre ++ post)
  never_blocked tasks j r live pre t post e = elim (Option-cases t.error) [
    | inl fine ↦ (ended pre t post j, finish pre t post live e fine, refl)
    | inr (err, bad) ↦ elim (Bool-cases j.err_closed) [
      | inl shut ↦ (
        record (ended pre t post j) { phase = panicked },
        crash pre t post err live e bad shut,
        refl,
      )
      | inr open_chan ↦
          let h = Reach-HasRoom (start-HasRoom tasks) r in
          (
            record (ended pre t post j) { queue = j.queue ++ err ∷ [] },
            send pre t post err live e bad open_chan
                (omega (arith, h.room, length-ended pre t post j e)),
            refl,
          )
    ]
  ]

  wait_on :
      (tasks : List (Task A)) (j : Join A)
      → Reach (start tasks) j
      → j.phase ≡ waiting
      → (running : List (Task A)) → j.running ≡ running
      → (k : Join A) × Step j k
  wait_on tasks j r p [] e = elim (Bool-cases j.wait_closed) [
    | inl shut ↦ (record j { phase = leaving none }, see_end p shut)
    | inr open_chan ↦ (record j { wait_closed = true }, close_wait (rw p refl) e open_chan)
  ]
  wait_on tasks j r p (t ∷ post) e =
      let (k, s, _) = never_blocked tasks j r (rw p refl) [] t post e in (k, s)

  go_on :
      (tasks : List (Task A)) (j : Join A)
      → Reach (start tasks) j
      → (p : Phase) → j.phase ≡ p
      → Over p ⊎ ((k : Join A) × Step j k)
  go_on tasks j r waiting p = inr (wait_on tasks j r p j.running refl)
  go_on tasks j r (leaving res) p =
      inr (record j { err_closed = true; phase = returned res }, leave res p)
  go_on tasks j r (returned res) p = inl tt
  go_on tasks j r panicked p = inl tt

  -- There is no deadlock: until the caller has returned or the process has panicked, some step
  -- can be made.
  pub no_deadlock :
      (tasks : List (Task A)) (j : Join A)
      → Reach (start tasks) j
      → Over j.phase ⊎ ((k : Join A) × Step j k)
  no_deadlock tasks j r = go_on tasks j r j.phase refl
