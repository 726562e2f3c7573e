-- ===== src/Docker/Run.antt =====
-- `DockerRunWithVolume`, `syncFilesToDockerAPI` and `ExtractZipInDockerAPI` of
-- api/dockers/huskydocker.go, with the calls of api/dockers/api.go to the daemon. What the daemon
-- answers is an argument, and the calls that were made are listed.
use husky_ci.Base.{
  ℤ, pos, negsuc, String, ◌==◌, Bool, Option, none, some, List, [], ◌∷◌, ◌++◌, if◌then◌else◌, ◌⧺◌,
  itoa, eqb,
}
use husky_ci.Base.Reply.{Reply, found, refused}
use husky_ci.Docker.Pull.{Names, Round, Pulled, waiting, returned, pull_image, configure_image_path}

-- What `ContainerWait` sends first: on the channel of errors, or the status of the container, or
-- nothing at all, for its context has no limit.
pub data Wait : Type 0 where
  wait_err : Option String → Wait
  exited : ℤ → Wait
  no_end : Wait

-- What `ContainerLogs` and `ReadAll` give.
pub data Logs : Type 0 where
  no_logs : String → Logs
  unread : String → Logs
  printed : String → Logs

-- What the daemon answers about one container.
pub record Life : Type 0 where
  pub created : Reply String
  pub started : Option String
  pub waited : Wait
  pub logs : Logs
  pub removed : Option String

-- A call to the daemon, with the id of the container.
pub data Call : Type 0 where
  create start wait read remove : String → Call

abbrev pub status_error : ℤ → Option String
status_error (pos n) =
    if eqb n 0
    then none
    else some ("Error in POST to wait the container with statusCode " ⧺ itoa (pos n))
status_error (negsuc n) =
    some ("Error in POST to wait the container with statusCode " ⧺ itoa (negsuc n))

-- How a wait ends: never, or with an error or none.
pub data Waited : Type 0 where
  waits_on : Waited
  waited_for : Option String → Waited

-- How a run ends: it waits for the image or for a container, after these calls, or it returns.
pub data Ran (A : Type 0) : Type 0 where
  still_pulling : Ran A
  still_waiting : List Call → Ran A
  ended : A → List Call → Ran A

-- `WaitContainer`, which is given a time limit and does not use it.
unfoldable pub wait_container : (time_out_in_seconds : ℤ) → Wait → Waited
wait_container limit (wait_err err) = waited_for err
wait_container limit (exited status) = waited_for (status_error status)
wait_container limit no_end = waits_on

-- `ReadOutput`
unfoldable pub read_output : Logs → Reply String
read_output (no_logs err) = found ""
read_output (unread err) = refused err
read_output (printed out) = found out

-- `syncFilesToDockerAPI`, after the container was created.
abbrev pub synced_wait : String → Waited → Ran (Option String)
synced_wait cid waits_on = still_waiting (create cid ∷ start cid ∷ wait cid ∷ [])
synced_wait cid (waited_for (some err)) =
    ended (some ("sync container error: " ⧺ err))
      (create cid ∷ start cid ∷ wait cid ∷ remove cid ∷ [])
synced_wait cid (waited_for none) = ended none (create cid ∷ start cid ∷ wait cid ∷ remove cid ∷ [])

abbrev pub synced_start : String → Life → Option String → Ran (Option String)
synced_start cid life (some err) =
    ended (some ("failed to start sync container: " ⧺ err))
      (create cid ∷ start cid ∷ remove cid ∷ [])
synced_start cid life none = synced_wait cid (wait_container (pos 30) life.waited)

abbrev pub synced : Life → Reply String → Ran (Option String)
synced life (refused err) = ended (some ("failed to create sync container: " ⧺ err)) []
synced life (found cid) = synced_start cid life life.started

unfoldable pub sync_files : Life → Ran (Option String)
unfolding wait_container
sync_files life = synced life life.created

-- Steps 3 to 7 of `DockerRunWithVolume`.
abbrev pub run_removed : String → String → Option String → Ran (Reply (String × String))
run_removed cid out (some err) =
    ended (refused err) (create cid ∷ start cid ∷ wait cid ∷ read cid ∷ remove cid ∷ [])
run_removed cid out none =
    ended (found (cid, out)) (create cid ∷ start cid ∷ wait cid ∷ read cid ∷ remove cid ∷ [])

abbrev pub run_read : String → Life → Reply String → Ran (Reply (String × String))
run_read cid life (refused err) =
    ended (refused err) (create cid ∷ start cid ∷ wait cid ∷ read cid ∷ [])
run_read cid life (found out) = run_removed cid out life.removed

abbrev pub run_waited : String → Life → Waited → Ran (Reply (String × String))
run_waited cid life waits_on = still_waiting (create cid ∷ start cid ∷ wait cid ∷ [])
run_waited cid life (waited_for (some err)) =
    ended (refused err) (create cid ∷ start cid ∷ wait cid ∷ [])
run_waited cid life (waited_for none) = run_read cid life (read_output life.logs)

abbrev pub run_started : ℤ → String → Life → Option String → Ran (Reply (String × String))
run_started limit cid life (some err) = ended (refused err) (create cid ∷ start cid ∷ [])
run_started limit cid life none = run_waited cid life (wait_container limit life.waited)

abbrev pub run_created : ℤ → Life → Reply String → Ran (Reply (String × String))
run_created limit life (refused err) = ended (refused err) []
run_created limit life (found cid) = run_started limit cid life life.started

-- What a run meets: the error of `NewDocker`, whether the image is loaded, the rounds of the pull,
-- and the lives of the container that synchronizes the files and of the container itself.
pub record Daemon : Type 0 where
  pub new_docker : Option String
  pub is_loaded : Bool
  pub rounds : List Round
  pub sync : Life
  pub main : Life

abbrev pub with_calls : {A : Type 0} → List Call → Ran A → Ran A
with_calls before still_pulling = still_pulling
with_calls before (still_waiting calls) = still_waiting (before ++ calls)
with_calls before (ended a calls) = ended a (before ++ calls)

-- What follows the synchronization, the error of which is only logged.
abbrev pub after_sync : {A : Type 0} → Ran (Option String) → Ran A → Ran A
after_sync still_pulling next = still_pulling
after_sync (still_waiting calls) next = still_waiting calls
after_sync (ended err calls) next = with_calls calls next

abbrev pub sync_volume : String → Life → Ran (Option String)
sync_volume volume life = if volume == "" then ended none [] else sync_files life

abbrev pub after_pull : String → ℤ → Daemon → Pulled → Ran (Reply (String × String))
after_pull volume limit d waiting = still_pulling
after_pull volume limit d (returned calls (some err)) = ended (refused err) []
after_pull volume limit d (returned calls none) =
    after_sync (sync_volume volume d.sync) (run_created limit d.main d.main.created)

abbrev pub run_with :
    Names → String → String → ℤ → Daemon → Option String → Ran (Reply (String × String))
run_with n image volume limit d (some err) = ended (refused err) []
run_with n image volume limit d none =
    after_pull volume limit d
      (if d.is_loaded then returned 0 none else pull_image n image 0 d.rounds)

-- `DockerRunWithVolume`
unfoldable pub docker_run_with_volume :
    Names → (image image_tag volume : String) → ℤ → Daemon → Ran (Reply (String × String))
unfolding sync_files wait_container read_output
docker_run_with_volume n image tag volume limit d =
    run_with n (configure_image_path n image tag).1 volume limit d d.new_docker

-- `DockerRun`
unfoldable pub docker_run :
    Names → (image image_tag : String) → ℤ → Daemon → Ran (Reply (String × String))
docker_run n image tag limit d = docker_run_with_volume n image tag "" limit d
