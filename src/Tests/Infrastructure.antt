-- ===== src/Tests/Infrastructure.antt =====
-- Containers of a daemon, the choice of its host, the targets of the client and its output.
use husky_ci.Base.{
  pos, String, ◌==◌, ◌≡◌, refl, true, false, none, some, is_some, List, [], ◌∷◌, ◌||◌, ◌&&◌, arith,
  ℤ, if◌then◌else◌,
}
use husky_ci.Base.Reply.{Reply, found, refused}
use husky_ci.Docker.Pull.{Names, Round, timed_out, tick, pull_image}
use husky_ci.Docker.Attempts.{Ends, pull_image_returns}
use husky_ci.Docker.Run.{Life, exited, printed, Daemon, docker_run_with_volume}
use husky_ci.Docker.Extract.{extract_zip_in_docker}
use husky_ci.Docker.Leaves.{hangs, failed_midway, LeavesEnd}
use husky_ci.Docker.Cleanup.{BalancedEnd, docker_run_leaves, extract_leaves_none}
use husky_ci.Types.{DockerAddresses}
use husky_ci.Database.Rows.{number, texts, Row}
use husky_ci.Database.Mongo.{Collection, Update, operator, document}
use husky_ci.Config.Turns.{increased}
use husky_ci.Config.Hosts.{Net, format_docker_host_address}
use husky_ci.Config.Rotation.{at_index, address_in_bounds}

abbrev names : Names
names = record { to_lower = λ s. s; is_url = λ s. false }

abbrev rounds : List Round
rounds = tick false (some "EOF") false ∷ tick false none true ∷ timed_out ∷ []

pull_image_returns_example : Ends 0 rounds (pull_image names "huskyci/gosec:1.0" 0 rounds)
pull_image_returns_example = pull_image_returns names "huskyci/gosec:1.0" rounds (omega arith)

-- A container that exits with status 1.
abbrev failing : Life
failing = record {
  created = found "c1";
  started = none;
  waited = exited (pos 1);
  logs = printed "";
  removed = none;
}

abbrev working : Life
working = record failing { waited = exited (pos 0) }

abbrev daemon : Daemon
daemon = record { new_docker = none; is_loaded = true; rounds = []; sync = working; main = failing }

docker_run_leaves_example :
    LeavesEnd
      (failed_midway failing)
      (hangs failing || (true && hangs working))
      (docker_run_with_volume names "huskyci/gosec" "1.0" "/tmp/a" (pos 360) daemon)
docker_run_leaves_example =
    docker_run_leaves names "huskyci/gosec" "1.0" "/tmp/a" (pos 360) daemon 0 refl refl

extract_leaves_none_example : BalancedEnd (extract_zip_in_docker names daemon)
extract_leaves_none_example = extract_leaves_none names daemon

abbrev net : Net
net = record {
  path_unescape = λ s. found s;
  env = λ name. "";
  atoi = λ s. refused "invalid syntax";
}

abbrev hosts : List String
hosts = "docker1" ∷ "docker2" ∷ []

address_in_bounds_example : is_some (format_docker_host_address net (at_index 7 hosts) none) ≡ true
address_in_bounds_example = address_in_bounds net none 7 hosts

-- A database that holds the document of the addresses.
abbrev increment : Row → Row → Row
increment [] s = s
increment ((name, number (pos k)) ∷ row) s = increased name k s
increment (_ ∷ row) s = s

abbrev modify : Update → Row → Row
modify (operator op row) s = if op == "$inc" then increment row s else s
modify (document row) s = s

abbrev collection : Collection Row
collection = record {
  insert_one = λ name row s. (none, row);
  update_one = λ name filter update s. (none, modify update s);
  upsert_one = λ name filter update s. (found 1, modify update s);
  find_one = λ name filter s. found s;
  find = λ name filter s. found (s ∷ []);
  find_one_and_update = λ name filter update s. (found (modify update s), modify update s);
}

abbrev index_of : Row → ℤ
index_of [] = pos 0
index_of ((name, number k) ∷ row) = k
index_of (_ ∷ row) = pos 0

abbrev list_of : Row → List String
list_of (_ ∷ (name, texts names) ∷ row) = names
list_of _ = []

abbrev decode : Row → Reply DockerAddresses
decode row = found (record { current_host_index = index_of row; host_list = list_of row })
