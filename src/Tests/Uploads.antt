-- ===== src/Tests/Uploads.antt =====
-- The command line sends an archive to an API that answers.
use husky_ci.Base.{◌==◌, ◌≡◌, refl, none, if◌then◌else◌}
use husky_ci.Base.Reply.{found, refused}
use husky_ci.Cli.Targets.{Current}
use husky_ci.Cli.Send.{Response, Remote, Sent, normalize_url, payload_of, send_zip}
use husky_ci.Cli.Sent.{IsSent, send_zip-IsSent}

abbrev target : Current
target = record { label = "a"; endpoint = "https://api/"; token_storage = ""; token = "t" }

abbrev created : Response
created = record { status = 201; header_rid = "r-1"; body = "{}" }

abbrev remote : Remote
remote = record {
  target = found target;
  client = none;
  zip_path = found "/home/a/.huskyci/compressed-code.zip";
  archive = λ path. found "PK";
  upload = λ url content.
      if url == "https://api/analysis/upload?rid=i-1" then found created else refused "404";
  text_at = λ key body. none;
  enry = λ path. found "{}";
  marshal = λ payload. found payload.repository_url;
  post = λ url body. if url == "https://api/analysis" then found created else refused "404";
}

abbrev sent : Sent
sent = record {
  id = "i-1";
  rid = "r-1";
  payload = payload_of "i-1" "{}";
  uploaded = created;
  started = created;
}

sending : send_zip remote "i-1" "/home/a/code" ≡ found sent
unfolding send_zip normalize_url
sending = refl

send_zip-IsSent_example : IsSent remote "i-1" sent
send_zip-IsSent_example = send_zip-IsSent remote "i-1" "/home/a/code" sent sending
