-- ===== src/Docker/Cleanup.antt =====
-- Which of the containers that api/dockers/huskydocker.go makes it removes.
use husky_ci.Base.{
  ℕ, ℤ, pos, ◌≡◌, ◌∙◌, refl, sym, subst, ap, Bool-cases, inl, inr, String, ◌==◌, true, false, not,
  ◌&&◌, ◌||◌, Option, none, some, if◌then◌else◌,
}
use husky_ci.Base.Reply.{Reply, found, refused}
use husky_ci.Docker.Pull.{Names, Pulled, waiting, returned, pull_image, configure_image_path}
use husky_ci.Docker.Run.{
  Life, Waited, waits_on, waited_for, wait_container, sync_volume, run_created, run_with,
  after_pull, Ran, still_pulling, still_waiting, ended, Daemon, docker_run_with_volume,
}
use husky_ci.Docker.Extract.{
  extract_zip_in_docker, extract_with, extract_pulled, extract_created, extract_started,
  extract_waited,
}
use husky_ci.Docker.Leaves.{
  IsBalanced, hangs, Leaves, LeavesEnd, wait_container_limit, sync_files-LeavesEnd, failed_midway,
  run_created-LeavesEnd, LeavesEnd-after_sync,
}

sync_volume-LeavesEnd :
    (volume : String) (life : Life)
    → LeavesEnd false (not (volume == "") && hangs life) (sync_volume volume life)
sync_volume-LeavesEnd volume life = elim (Bool-cases (volume == "")) [
  | inl none_there ↦ rw none_there refl
  | inr mounted ↦ rw mounted (sync_files-LeavesEnd life)
]

-- Once the image is there, `DockerRunWithVolume` returns unless the daemon never tells that the
-- container of the scan, or that of the synchronization of a volume, has ended. When it returns it
-- has asked the daemon to remove as many containers as it has made, the one that synchronizes the
-- files included, but for that of the scan itself where starting it, waiting for it or reading its
-- output has failed: for that one there is no such call.
pub docker_run_leaves :
    (n : Names) (image tag volume : String) (limit : ℤ) (d : Daemon) (calls : ℕ)
    → d.new_docker ≡ none
    → (if d.is_loaded
        then returned 0 none
        else pull_image n (configure_image_path n image tag).1 0 d.rounds)
      ≡ returned calls none
    → LeavesEnd
        (failed_midway d.main)
        (hangs d.main || (not (volume == "") && hangs d.sync))
        (docker_run_with_volume n image tag volume limit d)
unfolding docker_run_with_volume
docker_run_leaves n image tag volume limit d calls ready there =
    subst
      (λ (r : Ran (Reply (String × String))).
        LeavesEnd (failed_midway d.main) (hangs d.main || (not (volume == "") && hangs d.sync)) r)
      (sym (
        ap (run_with n (configure_image_path n image tag).1 volume limit d) ready
        ∙ ap (after_pull volume limit d) there))
      (LeavesEnd-after_sync (failed_midway d.main) (hangs d.main)
        (not (volume == "") && hangs d.sync) (sync_volume volume d.sync)
        (run_created limit d.main d.main.created) (sync_volume-LeavesEnd volume d.sync)
        (rw (wait_container_limit (pos 0) limit d.main.waited)
          (run_created-LeavesEnd limit d.main d.main.created)))

-- A run that has returned has removed what it made; one that waits for a container has made one
-- more than it has removed.
abbrev pub BalancedEnd : Ran (Option String) → Type 0
BalancedEnd still_pulling = Unit
BalancedEnd (still_waiting calls) = Leaves true calls
BalancedEnd (ended err calls) = IsBalanced calls

module _ (d : Daemon) where
  extract_waited-BalancedEnd :
      (cid : String) (w : Waited) → BalancedEnd (extract_waited cid d.main w)
  extract_waited-BalancedEnd cid waits_on = refl
  extract_waited-BalancedEnd cid (waited_for none) = refl
  extract_waited-BalancedEnd cid (waited_for (some err)) = refl

  extract_started-BalancedEnd :
      (cid : String) (w : Option String) → BalancedEnd (extract_started cid d.main w)
  extract_started-BalancedEnd cid none =
      extract_waited-BalancedEnd cid (wait_container (pos 300) d.main.waited)
  extract_started-BalancedEnd cid (some err) = refl

  extract_created-BalancedEnd : (r : Reply String) → BalancedEnd (extract_created d.main r)
  extract_created-BalancedEnd (refused err) = refl
  extract_created-BalancedEnd (found cid) = extract_started-BalancedEnd cid d.main.started

  extract_pulled-BalancedEnd : (p : Pulled) → BalancedEnd (extract_pulled d p)
  extract_pulled-BalancedEnd waiting = tt
  extract_pulled-BalancedEnd (returned calls (some err)) = refl
  extract_pulled-BalancedEnd (returned calls none) = extract_created-BalancedEnd d.main.created

  extract_with-BalancedEnd :
      (n : Names) (client : Option String) → BalancedEnd (extract_with n d client)
  extract_with-BalancedEnd n (some err) = refl
  extract_with-BalancedEnd n none = extract_pulled-BalancedEnd (
      if d.is_loaded
      then returned 0 none
      else pull_image n (configure_image_path n "alpine" "latest").1 0 d.rounds)

-- When `ExtractZipInDockerAPI` returns it has asked the daemon to remove as many containers as it
-- has made, on every path. Until then it waits for its image, or for the one container that it
-- has made and not yet removed.
pub extract_leaves_none : (n : Names) (d : Daemon) → BalancedEnd (extract_zip_in_docker n d)
unfolding extract_zip_in_docker
extract_leaves_none n d = extract_with-BalancedEnd d n d.new_docker
