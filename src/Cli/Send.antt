-- ===== src/Cli/Send.antt =====
-- `SendZip` of cli/analysis/analysis.go: the upload of the archive and the request for its analysis;
-- `NormalizeURL` of cli/util/util.go.
use Prim.Native.String.{len, slice}
use husky_ci.Base.{ℕ, ◌-◌, String, ◌==◌, not, Option, none, some, if◌then◌else◌, contains, ◌⧺◌, eqb}
use husky_ci.Base.Reply.{Reply, found, refused, ◌>>=◌, ◌>>◌, ensure}
use husky_ci.Cli.Targets.{Current}

-- An answer of the API, with the header X-Request-Id.
pub record Response : Type 0 where
  pub status : ℕ
  pub header_rid : String
  pub body : String

-- `types.JSONPayload`; no language is excluded.
pub record Payload : Type 0 where
  pub repository_url : String
  pub repository_branch : String
  pub enry_output : String

-- What the function meets: the target, the client for HTTP, the archive, and the answers to the
-- two requests, which are refused where they cannot be made. `text_at` is the text at a key of a
-- body that is a JSON object; `enry` is what `generateEnryOutput` gives.
pub record Remote : Type 0 where
  pub target : Reply Current
  pub client : Option String
  pub zip_path : Reply String
  pub archive : String → Reply String
  pub upload : (url content : String) → Reply Response
  pub text_at : (key body : String) → Option String
  pub enry : String → Reply String
  pub marshal : Payload → Reply String
  pub post : (url body : String) → Reply Response

-- `NormalizeURL`
unfoldable pub normalize_url : String → String
normalize_url url =
    if slice url (len url - 1) (len url) == "/" then slice url 0 (len url - 1) else url

abbrev pub or_text : String → Option String → String
or_text s none = s
or_text s (some t) = if t == "" then s else t

abbrev pub no_client : Option String → Reply (Unit {0})
no_client none = found tt
no_client (some err) = refused err

-- `enryOutput`, which is empty where it cannot be had.
abbrev pub local_output : Remote → String → String
local_output r path = if path == "" then "" else output (r.enry path)
  where
    output : Reply String → String
    output (found s) = s
    output (refused err) = ""

abbrev pub payload_of : String → String → Payload
payload_of id output = record {
  repository_url = "file://" ⧺ id;
  repository_branch = "local";
  enry_output = output;
}

-- The message of an answer with the status 400.
abbrev pub bad_message : Remote → String → String
bad_message r body =
    or_text (or_text "Invalid request parameters" (r.text_at "error" body))
      (r.text_at "message" body)

-- The error for an answer that is not 201; the URL of the payload always has `file://`.
abbrev pub rejected : Remote → Response → String
rejected r resp =
    if eqb resp.status 401
    then "authentication failed: The provided token is invalid or expired"
    else if eqb resp.status 400
    then (if contains resp.body "zip file not found"
        then "zip file not found on server"
        else if contains (bad_message r resp.body) "zip file not found"
        then "zip file not found on server"
        else "local file analysis error")
    else if eqb resp.status 409
    then "conflict: An analysis is already running"
    else "failed to start analysis: Unexpected response from API"

-- The identifier of the analysis that was started.
abbrev pub rid_of : Remote → Response → String
rid_of r resp =
    if resp.header_rid == "" then or_nothing (r.text_at "rid" resp.body) else resp.header_rid
  where
    or_nothing : Option String → String
    or_nothing none = ""
    or_nothing (some s) = s

-- What the client's analysis is after the call: its identifier, that of the API, the payload that
-- was sent, and the answers.
pub record Sent : Type 0 where
  pub id : String
  pub rid : String
  pub payload : Payload
  pub uploaded : Response
  pub started : Response

-- `SendZip`, with the identifier and the path of the client's analysis.
unfoldable pub send_zip : Remote → (id path : String) → Reply Sent
unfolding normalize_url
send_zip r id path = do
  target ← r.target
  ensure (not (target.token == "")) "authentication token not found"
  no_client r.client
  zip_path ← r.zip_path
  content ← r.archive zip_path
  uploaded ← r.upload (normalize_url target.endpoint ⧺ "/analysis/upload?rid=" ⧺ id) content
  ensure (eqb uploaded.status 201) "failed to upload zip file"
  let id' = or_text id (r.text_at "rid" uploaded.body)
  let payload = payload_of id' (local_output r path)
  body ← r.marshal payload
  started ← r.post (normalize_url target.endpoint ⧺ "/analysis") body
  ensure (eqb started.status 201) (rejected r started)
  ensure (not (rid_of r started == "")) "No request ID (RID) received from the API"
  found (record {
    id = id';
    rid = rid_of r started;
    payload = payload;
    uploaded = uploaded;
    started = started;
  })
