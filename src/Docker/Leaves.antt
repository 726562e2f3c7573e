-- ===== src/Docker/Leaves.antt =====
-- How many of the containers that a run of api/dockers/huskydocker.go makes it removes.
use husky_ci.Base.{
  ℕ, ℤ, pos, ◌+◌, ◌≡◌, refl, arith, String, Bool, true, false, not, ◌&&◌, ◌||◌, Option, none, some,
  is_some, List, [], ◌∷◌, ◌++◌, if◌then◌else◌, count,
}
use husky_ci.Base.Reply.{Reply, found, refused}
use husky_ci.Docker.Run.{
  Life, Wait, wait_err, exited, no_end, Waited, waits_on, waited_for, Call, create, remove,
  wait_container, read_output, sync_files, synced, synced_start, synced_wait, after_sync,
  with_calls, run_created, run_started, run_waited, run_read, run_removed, Ran, still_pulling,
  still_waiting, ended,
}

abbrev pub is_create : Call → Bool
is_create (create cid) = true
is_create _ = false

abbrev pub is_remove : Call → Bool
is_remove (remove cid) = true
is_remove _ = false

abbrev pub creates : List Call → ℕ
creates calls = count is_create calls

abbrev pub removes : List Call → ℕ
removes calls = count is_remove calls

-- Every container that the calls make they also remove.
abbrev pub IsBalanced : List Call → Type 0
IsBalanced calls = creates calls ≡ removes calls

count-append : (p : Call → Bool) (xs ys : List Call) → count p (xs ++ ys) ≡ count p xs + count p ys
count-append p [] ys = omega arith
count-append p (x ∷ xs) ys = omega (arith, count-append p xs ys)

abbrev pub wait_failed : Waited → Bool
wait_failed waits_on = false
wait_failed (waited_for err) = is_some err

abbrev pub is_waiting : Waited → Bool
is_waiting waits_on = true
is_waiting (waited_for err) = false

-- The daemon never tells that the container has ended.
abbrev pub hangs : Life → Bool
hangs life = is_waiting (wait_container (pos 0) life.waited)

-- As many containers are removed as made, but for `left` of them.
abbrev pub Leaves : Bool → List Call → Type 0
Leaves left calls = creates calls ≡ removes calls + (if left then 1 else 0)

-- A run that does not wait for its image leaves so many containers when it returns, and where it
-- does not return, `hung` says so.
abbrev pub LeavesEnd : {A : Type 0} → (left hung : Bool) → Ran A → Type 0
LeavesEnd left hung still_pulling = true ≡ false
LeavesEnd left hung (still_waiting calls) = hung ≡ true
LeavesEnd left hung (ended a calls) = Leaves left calls

-- The time limit of a wait makes no difference.
pub wait_container_limit :
    (limit limit' : ℤ) (w : Wait) → wait_container limit w ≡ wait_container limit' w
unfolding wait_container
wait_container_limit limit limit' (wait_err err) = refl
wait_container_limit limit limit' (exited status) = refl
wait_container_limit limit limit' no_end = refl

pub sync_files-LeavesEnd : (life : Life) → LeavesEnd false (hangs life) (sync_files life)
unfolding sync_files
sync_files-LeavesEnd life =
    rw (wait_container_limit (pos 0) (pos 30) life.waited) (from_created life.created)
  where
    from_wait : (cid : String) (w : Waited) → LeavesEnd false (is_waiting w) (synced_wait cid w)
    from_wait cid waits_on = refl
    from_wait cid (waited_for none) = refl
    from_wait cid (waited_for (some err)) = refl

    from_start :
        (cid : String) (w : Option String)
        → LeavesEnd false
            (is_waiting (wait_container (pos 30) life.waited))
            (synced_start cid life w)
    from_start cid none = from_wait cid (wait_container (pos 30) life.waited)
    from_start cid (some err) = refl

    from_created :
        (r : Reply String)
        → LeavesEnd false (is_waiting (wait_container (pos 30) life.waited)) (synced life r)
    from_created (refused err) = refl
    from_created (found cid) = from_start cid life.started

abbrev is_refused {ℓ} : {A : Type ℓ} → Reply A → Bool
is_refused (found a) = false
is_refused (refused err) = true

-- The container of a scan was made, and then starting it, waiting for it or reading it failed.
abbrev pub failed_midway : Life → Bool
failed_midway life =
    not (is_refused life.created)
    && (is_some life.started
        || (wait_failed (wait_container (pos 0) life.waited) || is_refused (read_output life.logs)))

module _ (limit : ℤ) (life : Life) where
  run_removed-LeavesEnd :
      (cid out : String) (w : Option String) → LeavesEnd false false (run_removed cid out w)
  run_removed-LeavesEnd cid out none = refl
  run_removed-LeavesEnd cid out (some err) = refl

  run_read-LeavesEnd :
      (cid : String) (r : Reply String) → LeavesEnd (is_refused r) false (run_read cid life r)
  run_read-LeavesEnd cid (refused err) = refl
  run_read-LeavesEnd cid (found out) = run_removed-LeavesEnd cid out life.removed

  run_waited-LeavesEnd :
      (cid : String) (w : Waited)
      → LeavesEnd
          (wait_failed w || is_refused (read_output life.logs))
          (is_waiting w)
          (run_waited cid life w)
  run_waited-LeavesEnd cid waits_on = refl
  run_waited-LeavesEnd cid (waited_for none) = run_read-LeavesEnd cid (read_output life.logs)
  run_waited-LeavesEnd cid (waited_for (some err)) = refl

  run_started-LeavesEnd :
      (cid : String) (w : Option String)
      → LeavesEnd
          (is_some w
            || (wait_failed (wait_container limit life.waited)
                || is_refused (read_output life.logs)))
          (is_waiting (wait_container limit life.waited))
          (run_started limit cid life w)
  run_started-LeavesEnd cid none = run_waited-LeavesEnd cid (wait_container limit life.waited)
  run_started-LeavesEnd cid (some err) = refl

  pub run_created-LeavesEnd :
      (r : Reply String)
      → LeavesEnd
          (not (is_refused r)
            && (is_some life.started
                || (wait_failed (wait_container limit life.waited)
                    || is_refused (read_output life.logs))))
          (is_waiting (wait_container limit life.waited))
          (run_created limit life r)
  run_created-LeavesEnd (refused err) = refl
  run_created-LeavesEnd (found cid) = run_started-LeavesEnd cid life.started

LeavesEnd-with_calls :
    {A : Type 0} (left hung : Bool) (before : List Call) (next : Ran A)
    → IsBalanced before
    → LeavesEnd left hung next
    → LeavesEnd left hung (with_calls before next)
LeavesEnd-with_calls left hung before still_pulling h k = k
LeavesEnd-with_calls left hung before (still_waiting calls) h k = k
LeavesEnd-with_calls left hung before (ended a calls) h k =
    omega (arith, count-append is_create before calls, count-append is_remove before calls)

pub LeavesEnd-after_sync :
    {A : Type 0} (left hung hung' : Bool) (sync : Ran (Option String)) (next : Ran A)
    → LeavesEnd false hung' sync
    → LeavesEnd left hung next
    → LeavesEnd left (hung || hung') (after_sync sync next)
LeavesEnd-after_sync left hung hung' still_pulling next h k = h
LeavesEnd-after_sync left hung hung' (still_waiting calls) next h k = ground arith
LeavesEnd-after_sync {A} left hung hung' (ended err calls) next h k =
    LeavesEnd-with_calls left (hung || hung') calls next (omega arith) (LeavesEnd-or next k)
  where
    LeavesEnd-or : (r : Ran A) → LeavesEnd left hung r → LeavesEnd left (hung || hung') r
    LeavesEnd-or still_pulling e = e
    LeavesEnd-or (still_waiting calls) e = ground arith
    LeavesEnd-or (ended a calls) e = e
