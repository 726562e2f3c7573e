-- ===== src/Tests/World.antt =====
-- A world with one test, brakeman, whose container prints a report that decodes to one warning.
use husky_ci.Base.{String, ◌==◌, true, false, [], ◌∷◌, pos}
use husky_ci.Base.Reply.{found}
use husky_ci.Types.{SecurityTest}
use husky_ci.Scan.State.{ScanInfo, Decoded, decoded, failed, prepare_container}
use husky_ci.Scan.Enry.{text}
use husky_ci.Scan.Brakeman.{BrakemanOutput, prepare_brakeman_vulns}
use husky_ci.Scan.Start.{Decoders, ran, run_failed}
use husky_ci.Run.Scans.{World, named}

abbrev no_decoding : {A : Type 0} → String → Decoded A
no_decoding output = failed "invalid character"

abbrev pub report : BrakemanOutput
report = record {
  warnings =
      record {
        warning_type = "SQL Injection";
        code = "User.where(x)";
        message = "Possible SQL injection";
        file = "a.rb";
        line = pos 3;
        details = "";
        confidence = "High";
      }
      ∷ [];
  ignored_warnings = [];
}

abbrev pub decoders : Decoders
decoders = record {
  gosec = no_decoding;
  bandit = no_decoding;
  brakeman = λ output. decoded report;
  tfsec = no_decoding;
  trivy = no_decoding;
  safety = λ before. no_decoding;
  gitleaks = no_decoding;
  spot_bugs = no_decoding;
  npm_audit = no_decoding;
  yarn_audit = no_decoding;
  code_scan = no_decoding;
  enry = λ output. decoded (("Go", text "main.go" ∷ []) ∷ []);
  git_authors = no_decoding;
  atoi = no_decoding;
}

abbrev pub brakeman_test : SecurityTest
brakeman_test = record {
  name = "brakeman";
  image = "huskyci/brakeman";
  image_tag = "5.0";
  cmd = "brakeman -q";
  test_type = "Language";
  language = "Ruby";
  is_default = true;
  time_out_in_seconds = pos 360;
}

abbrev pub world : World
world = record {
  find_security_test = λ name. found brakeman_test;
  find_all_tests = λ key value. found (brakeman_test ∷ []);
  equal_fold = λ s t. s == t;
  decoders = decoders;
  infrastructure = record {
    selected = "docker";
    docker_run = λ s. ran "c1" "{}";
    kube_run = λ s. run_failed "no cluster";
  };
}

-- The same where Docker fails.
abbrev pub broken_world : World
broken_world = record world {
  infrastructure = record {
    selected = "docker";
    docker_run = λ s. run_failed "no daemon";
    kube_run = λ s. run_failed "no cluster";
  };
}

-- A scan of that name whose container has printed an output.
abbrev pub scanned_by : String → String → ScanInfo
scanned_by name output =
    let s = named "rid-1" "https://github.com/a/b.git" "main" name (λ language. false) "host" in
    record s { container = record s.container { c_output = output } }

abbrev pub enry : ScanInfo
enry = record (scanned_by "enry" "{}") {
  codes = record { language = "Ruby"; files = "a.rb" ∷ [] } ∷ [];
}

-- What the scan with brakeman ends with.
abbrev pub brakeman_scan : ScanInfo
brakeman_scan =
    let s =
      named "rid-1" "https://github.com/a/b.git" "main" "brakeman" (λ language. false) "host" in
    let c = record s.container { security_test = brakeman_test; cid = "c1"; c_output = "{}" } in
    prepare_container (
      prepare_container
        (record s { container = c; vulnerabilities = prepare_brakeman_vulns report }))
