-- ===== src/Docker/Pull.antt =====
-- `PullImage` of api/dockers/api.go, and `pullImage` and `configureImagePath` of
-- api/dockers/huskydocker.go.
use husky_ci.Base.{
  ℕ, suc, String, ◌==◌, Bool, not, ◌||◌, Option, none, some, List, [], ◌∷◌, if◌then◌else◌, contains,
  ◌⧺◌, leb,
}

-- One line of the stream of a pull, decoded as JSON: the texts at `errorDetail.message` and at
-- `error`, if they are there; `none` is a line that is no JSON object.
pub record PullLine : Type 0 where
  pub detail : Option String
  pub top : Option String

-- The libraries: `strings.ToLower`, and whether the pattern of a registry's URL matches.
pub record Names : Type 0 where
  pub to_lower : String → String
  pub is_url : String → Bool

-- `configureImagePath`: the canonical URL and the full name.
unfoldable pub configure_image_path : Names → (image tag : String) → String × String
configure_image_path n image tag =
    let full = image ⧺ ":" ⧺ tag in
    (if not (n.is_url image) then "docker.io/" ⧺ full else full, full)

abbrev pub mismatch : String → String
mismatch msg = "platform mismatch or manifest not found: " ⧺ msg

abbrev pub pull_error : String → String
pull_error msg = "pull error: " ⧺ msg

-- The error that a line with an `errorDetail` sets.
abbrev pub detail_error : Names → Option String → Option String → Option String
detail_error n none err = err
detail_error n (some msg) err = some (
    if contains (n.to_lower msg) "no matching manifest"
      || contains (n.to_lower msg) "platform"
      || contains (n.to_lower msg) "manifest unknown"
    then mismatch msg
    else pull_error msg)

abbrev pub or_top : Option String → String → Option String
or_top none msg = some (pull_error msg)
or_top (some err) msg = some err

-- The error that a line with an `error` sets, unless there is one already.
abbrev pub top_error : Option String → Option String → Option String
top_error none err = err
top_error (some msg) err = if msg == "" then err else or_top err msg

-- `for scanner.Scan() { ... }`
unfoldable pub pull_stream : Names → Option String → List (Option PullLine) → Option String
pull_stream n err [] = err
pull_stream n err (none ∷ lines) = pull_stream n err lines
pull_stream n err (some line ∷ lines) =
    pull_stream n (top_error line.top (detail_error n line.detail err)) lines

abbrev or_read_error : Option String → Option String → Option String
or_read_error (some err) read = some err
or_read_error none none = none
or_read_error none (some err) = some ("failed to read pull stream: " ⧺ err)

-- `PullImage`, once the pull has started: the lines of its stream and the error of the scanner.
unfoldable pub pull_image_stream : Names → List (Option PullLine) → Option String → Option String
unfolding pull_stream
pull_image_stream n lines read = or_read_error (pull_stream n none lines) read

-- What a round of the `select` meets: the timeout, or a tick, with what `ImageIsLoaded` says
-- before the pull, what `PullImage` returns, and what `ImageIsLoaded` says after.
pub data Round : Type 0 where
  timed_out : Round
  tick : (before : Bool) (pulled : Option String) (after : Bool) → Round

-- The loop is waiting still, or it has returned: the number of calls of `PullImage` and the error.
pub data Pulled : Type 0 where
  waiting : Pulled
  returned : ℕ → Option String → Pulled

abbrev pub is_platform_error : Names → String → Bool
is_platform_error n err =
    contains (n.to_lower err) "no matching manifest"
    || contains (n.to_lower err) "platform"
    || contains (n.to_lower err) "manifest unknown"
    || contains (n.to_lower err) "manifest not found"

-- The three errors of the loop.
abbrev pub no_platform : (image err : String) → String
no_platform image err = "platform mismatch or manifest not found for " ⧺ image ⧺ ": " ⧺ err

abbrev pub gave_up : (image err : String) → String
gave_up image err = "failed to pull image " ⧺ image ⧺ " after 3 attempts: " ⧺ err

abbrev pub not_there : String → String
not_there image = "image " ⧺ image ⧺ " pull reported success but image not found after 3 attempts"

-- After a pull with an error, where `next` is the rest of the loop.
abbrev pub after_error : Names → String → ℕ → String → Pulled → Pulled
after_error n image calls err next =
    if is_platform_error n err
    then returned calls (some (no_platform image err))
    else if leb 3 calls
    then returned calls (some (gave_up image err))
    else next

-- After a pull without an error.
abbrev pub after_pull : String → ℕ → Bool → Pulled → Pulled
after_pull image calls loaded next =
    if loaded
    then returned calls none
    else if leb 3 calls
    then returned calls (some (not_there image))
    else next

abbrev pub after_tick : Names → String → ℕ → Option String → Bool → Pulled → Pulled
after_tick n image calls none loaded next = after_pull image calls loaded next
after_tick n image calls (some err) loaded next = after_error n image calls err next

-- `pullImage`; each call of `PullImage` that does not end the loop raises `retryCount`, so the
-- calls that were made are also the retries.
unfoldable pub pull_image : Names → String → ℕ → List Round → Pulled
pull_image n image calls [] = waiting
pull_image n image calls (timed_out ∷ rounds) = returned calls (some "timeout after 15 minutes")
pull_image n image calls (tick before pulled after ∷ rounds) =
    let next = pull_image n image (suc calls) rounds in
    if before then returned calls none else after_tick n image (suc calls) pulled after next
