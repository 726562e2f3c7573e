-- ===== src/Docker/Extract.antt =====
-- `ExtractZipInDockerAPI` of api/dockers/huskydocker.go.
use husky_ci.Base.{pos, String, Option, none, some, [], ◌∷◌, if◌then◌else◌, contains, ◌⧺◌}
use husky_ci.Base.Reply.{Reply, found, refused}
use husky_ci.Docker.Pull.{Names, Pulled, waiting, returned, pull_image, configure_image_path}
use husky_ci.Docker.Run.{
  Life, create, start, wait, read, remove, wait_container, read_output, Waited, waits_on,
  waited_for, Ran, still_pulling, still_waiting, ended, Daemon,
}

-- `output, _ := d.ReadOutput()`
abbrev pub output_of : Reply String → String
output_of (found out) = out
output_of (refused err) = ""

abbrev pub extract_waited : String → Life → Waited → Ran (Option String)
extract_waited cid life waits_on = still_waiting (create cid ∷ start cid ∷ wait cid ∷ [])
extract_waited cid life (waited_for (some err)) =
    ended
      (some (
        "extract container error: " ⧺ err ⧺ " (output: " ⧺ output_of (read_output life.logs) ⧺ ")"))
      (create cid ∷ start cid ∷ wait cid ∷ read cid ∷ remove cid ∷ [])
extract_waited cid life (waited_for none) =
    ended
      (if contains (output_of (read_output life.logs)) "ERROR"
        then some ("extraction failed: " ⧺ output_of (read_output life.logs))
        else none)
      (create cid ∷ start cid ∷ wait cid ∷ read cid ∷ remove cid ∷ [])

abbrev pub extract_started : String → Life → Option String → Ran (Option String)
extract_started cid life (some err) =
    ended (some ("failed to start extract container: " ⧺ err))
      (create cid ∷ start cid ∷ remove cid ∷ [])
extract_started cid life none = extract_waited cid life (wait_container (pos 300) life.waited)

abbrev pub extract_created : Life → Reply String → Ran (Option String)
extract_created life (refused err) = ended (some ("failed to create extract container: " ⧺ err)) []
extract_created life (found cid) = extract_started cid life life.started

abbrev pub extract_pulled : Daemon → Pulled → Ran (Option String)
extract_pulled d waiting = still_pulling
extract_pulled d (returned calls (some err)) =
    ended (some ("failed to pull alpine:latest image: " ⧺ err)) []
extract_pulled d (returned calls none) = extract_created d.main d.main.created

abbrev pub extract_with : Names → Daemon → Option String → Ran (Option String)
extract_with n d (some err) = ended (some ("failed to create Docker client: " ⧺ err)) []
extract_with n d none = extract_pulled d (
    if d.is_loaded
    then returned 0 none
    else pull_image n (configure_image_path n "alpine" "latest").1 0 d.rounds)

-- `ExtractZipInDockerAPI`
unfoldable pub extract_zip_in_docker : Names → Daemon → Ran (Option String)
unfolding wait_container read_output
extract_zip_in_docker n d = extract_with n d d.new_docker
