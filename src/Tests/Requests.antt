-- ===== src/Tests/Requests.antt =====
-- Requests and analyses at concrete inputs.
use husky_ci.Base.{◌≡◌, refl, Bool, true, false, none, some, [], ◌∷◌, contains, ◌⧺◌}
use husky_ci.Base.Reply.{Reply, found, refused}
use husky_ci.Types.{Repository, Analysis}
use husky_ci.Input.{check_repo_url, check_valid_input, check_branch, check_rid}
use husky_ci.Scan.State.{ScanInfo}
use husky_ci.Scan.Enry.{parse_enry_output, file_names, languages_of}
use husky_ci.Scan.Start.{start_scan}
use husky_ci.Run.Results.{no_run, set_analysis_error}
use husky_ci.Run.Scans.{is_file_url, new_scan}
use husky_ci.Analysis.Start.{
  Platform, api_host, new_analysis, finished_analysis, start_analysis, all_results, enry_step,
  run_enry, stored, blank_enry,
}
use husky_ci.Token.Defs.{has_authorization}
use husky_ci.Token.Memory.{memory}
use husky_ci.Routes.Receive.{Api, register, check_upload, preceded, receive_request}
use husky_ci.Routes.Bypass.{file_prefix_bypasses_tokens}
use husky_ci.Routes.Files.{Upload, upload_zip, invalid_rid_saved, get_analysis, shown_authorized}
use husky_ci.Tests.World.{world, broken_world}
use husky_ci.Tests.Patterns.{patterns, repo_url}
use husky_ci.Tests.Tokens.{crypto}

abbrev repo : Repository
repo = record {
  url = repo_url;
  branch = "main";
  language_exclusions = λ language. false;
  enry_output = "";
}

abbrev platform : Platform
platform = record {
  selected = some "kubernetes";
  find_docker = refused "No data found";
  api_config = none;
  format_host = λ address. found address;
  insert_analysis = λ a. none;
  update_analysis = λ a. none;
  world = broken_world;
  joined = λ enry run. some (run, none);
}

-- The enry scan fails, and its error is stored.
abbrev failing : Analysis
failing = finished_analysis (new_analysis "rid-1" repo) (set_analysis_error "no daemon" no_run)

failing_stored : start_analysis platform "rid-1" repo ≡ stored failing
unfolding start_analysis all_results api_host enry_step run_enry is_file_url new_scan start_scan
failing_stored = refl

abbrev unset : Platform
unset = record platform { selected = none }

no_host : api_host unset ≡ none
unfolding api_host
no_host = refl

abbrev uploaded : Repository
uploaded = record repo { url = "file://rid-1"; enry_output = "{\"Go\": [\"main.go\"]}" }

abbrev provided : ScanInfo
provided = record blank_enry { codes = record { language = "Go"; files = "main.go" ∷ [] } ∷ [] }

is_file : is_file_url "file://rid-1" ≡ true
unfolding is_file_url
is_file = refl

provided_parsed :
    parse_enry_output world.decoders.enry uploaded.enry_output uploaded.language_exclusions
      blank_enry
    ≡ some (provided, none)
unfolding parse_enry_output languages_of file_names
provided_parsed = refl

abbrev done : Analysis
done = record (new_analysis "rid-0" repo) { status = "finished" }

-- The repository is known, and its last analysis has ended.
abbrev api : Api
api = record {
  patterns = patterns;
  write = λ status. none;
  authorized = λ url. true;
  zip_exists = λ rid. true;
  dir_exists = λ rid. true;
  extract = λ rid. none;
  find_repository = λ url. none;
  insert_repository = λ r. none;
  find_analysis = λ url branch. found done;
}

repo_url_valid : check_repo_url patterns repo_url ≡ found repo_url
unfolding check_repo_url contains
repo_url_valid = refl

started : (receive_request api (found repo)).started ≡ some repo
unfolding receive_request check_valid_input check_repo_url check_branch contains check_upload
    register is_file_url new_analysis
started = refl

abbrev wrong_url : Repository
wrong_url = record repo { url = "wrong" }

url_refused : check_repo_url patterns "wrong" ≡ refused "Invalid URL format: wrong"
unfolding check_repo_url contains
url_refused = refl

abbrev wrong_branch : Repository
wrong_branch = record repo { branch = "main;reboot" }

branch_refused : patterns.is_branch "main;reboot" ≡ false
unfolding contains
branch_refused = refl

-- The URL of a repository behind the prefix of a file.
abbrev disguised : Repository
disguised = record repo { url = "file://%" ⧺ repo_url }

abbrev guarded_api : Api
guarded_api = record api { authorized = λ url. has_authorization memory crypto "no token" url [] }

disguised_file : is_file_url disguised.url ≡ true
unfolding is_file_url
disguised_file = refl

disguised_git : patterns.find_git disguised.url ≡ some repo_url
unfolding contains
disguised_git = refl

branch_valid : patterns.is_branch "main" ≡ true
unfolding contains
branch_valid = refl

file_prefix_bypasses_tokens_example :
    receive_request guarded_api (found disguised)
    ≡ preceded guarded_api [] (check_upload guarded_api (record disguised { url = repo_url }))
file_prefix_bypasses_tokens_example =
    file_prefix_bypasses_tokens memory crypto guarded_api disguised "no token" repo_url [] refl
      disguised_file refl disguised_git branch_valid

abbrev upload : Upload
upload = record {
  patterns = patterns;
  write = λ status. none;
  request_id = "rid-1";
  query = "../../etc/x";
  ensure_storage = none;
  form_file = found ".zip";
  open_file = none;
  save = λ name. none;
}

rid_refused : patterns.is_rid "../../etc/x" ≡ false
unfolding contains
rid_refused = refl

invalid_rid_saved_example :
    ((upload_zip upload).saved ≡ some "../../etc/x.zip")
    × ((upload_zip upload).answers ≡ 400 ∷ 201 ∷ [])
invalid_rid_saved_example = invalid_rid_saved upload refl rid_refused refl refl refl refl refl

shown :
    (get_analysis (λ status. none) (λ url. true) patterns "rid-0" (λ rid. found done)).shown
    ≡ some done
unfolding get_analysis check_rid contains
shown = refl

shown_authorized_example :
    (◌≡◌ {A = Reply Analysis} (found done) (found done)) × (◌≡◌ {A = Bool} true true)
shown_authorized_example =
    shown_authorized (λ status. none) (λ url. true) patterns "rid-0" (λ rid. found done) done shown
