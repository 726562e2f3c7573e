-- ===== src/Run/Join.antt =====
-- The pattern by which `Start`, `runGenericScans` and `runLanguageScans` of
-- api/securitytest/run.go wait for their goroutines: each sends its error on `errChan` unless
-- `syncChan` is closed, one more goroutine closes `waitChan` when all have ended, and the caller
-- selects between `waitChan` and `errChan`, and closes `errChan` as it returns.
use husky_ci.Base.{
  ℕ, ◌<◌, String, ◌≡◌, Bool, true, false, Option, none, some, List, [], ◌∷◌, ◌++◌, length,
}

-- A goroutine: the error that it ends with, and what it does to the shared results before, which
-- makes no difference to the channels and is not interpreted here.
pub record Task (A : Type 0) : Type 0 where
  pub effect : A
  pub error : Option String

pub data Phase : Type 0 where
  waiting : Phase
  leaving returned : Option String → Phase
  panicked : Phase

-- A panic ends the process.
abbrev pub alive : Phase → Bool
alive panicked = false
alive _ = true

pub record Join (A : Type 0) : Type 0 where
  pub running : List (Task A)
  pub queue : List String
  pub capacity : ℕ
  pub sync_closed : Bool
  pub err_closed : Bool
  pub wait_closed : Bool
  pub phase : Phase

-- `errChan` has room for one error of each goroutine.
abbrev pub start : {A : Type 0} → List (Task A) → Join A
start tasks = record {
  running = tasks;
  queue = [];
  capacity = length tasks;
  sync_closed = false;
  err_closed = false;
  wait_closed = false;
  phase = waiting;
}

module _ {A : Type 0} where
  -- The goroutine `t` has ended.
  abbrev pub ended : List (Task A) → Task A → List (Task A) → Join A → Join A
  ended pre t post j = record j { running = pre ++ post }

  -- A goroutine with an error has the choice between the cases of its `select` that are ready; a
  -- send on a closed channel is ready, and panics.
  pub data Step (j : Join A) : Join A → Type 0 where
    finish :
        (pre : List (Task A)) (t : Task A) (post : List (Task A))
        → alive j.phase ≡ true
        → j.running ≡ pre ++ (t ∷ post)
        → t.error ≡ none
        → Step j (ended pre t post j)
    send :
        (pre : List (Task A)) (t : Task A) (post : List (Task A)) (err : String)
        → alive j.phase ≡ true
        → j.running ≡ pre ++ (t ∷ post)
        → t.error ≡ some err
        → j.err_closed ≡ false
        → length j.queue < j.capacity
        → Step j (record (ended pre t post j) { queue = j.queue ++ err ∷ [] })
    drop :
        (pre : List (Task A)) (t : Task A) (post : List (Task A)) (err : String)
        → alive j.phase ≡ true
        → j.running ≡ pre ++ (t ∷ post)
        → t.error ≡ some err
        → j.sync_closed ≡ true
        → Step j (ended pre t post j)
    crash :
        (pre : List (Task A)) (t : Task A) (post : List (Task A)) (err : String)
        → alive j.phase ≡ true
        → j.running ≡ pre ++ (t ∷ post)
        → t.error ≡ some err
        → j.err_closed ≡ true
        → Step j (record (ended pre t post j) { phase = panicked })
    close_wait :
        alive j.phase ≡ true
        → j.running ≡ []
        → j.wait_closed ≡ false
        → Step j (record j { wait_closed = true })
    see_end : j.phase ≡ waiting → j.wait_closed ≡ true → Step j (record j { phase = leaving none })
    see_error :
        (err : String) (rest : List String)
        → j.phase ≡ waiting
        → j.queue ≡ err ∷ rest
        → Step j (record j { queue = rest; sync_closed = true; phase = leaving (some err) })
    leave :
        (r : Option String)
        → j.phase ≡ leaving r
        → Step j (record j { err_closed = true; phase = returned r })

  pub data Reach (j : Join A) : Join A → Type 0 where
    here : Reach j j
    next : {k l : Join A} → Reach j k → Step k l → Reach j l
