-- ===== src/Routes/Tokens.antt =====
-- `HandleToken` and `HandleDeactivation` of api/routes/token.go.
use husky_ci.Base.{ℕ, String, ◌==◌, Option, none, some, if◌then◌else◌}
use husky_ci.Base.Reply.{Reply, found, refused}
use husky_ci.Types.{TokenRequest}
use husky_ci.Token.Defs.{Crypto, Draw, TokenDb, generate, invalidate}

-- The status of the answer, and the token and its type for a request that went well.
pub record TokenAnswer : Type 0 where
  pub status : ℕ
  pub husky_token : Option String
  pub token_type : Option String

abbrev pub failed_with : ℕ → TokenAnswer
failed_with status = record { status = status; husky_token = none; token_type = none }

abbrev pub token_type_of : TokenRequest → String
token_type_of req = if req.repository_url == "" then "generic" else "repository-specific"

module _ {S : Type 0} (db : TokenDb S) (c : Crypto) where
  abbrev pub generated : TokenRequest → S → Reply (String × S) → TokenAnswer × S
  generated req s (refused err) = (failed_with 500, s)
  generated req s (found (token, s')) =
      (record { status = 201; husky_token = some token; token_type = some (token_type_of req) }, s')

  -- `HandleToken`, with the decoded body.
  unfoldable pub handle_token : Draw → Reply TokenRequest → S → TokenAnswer × S
  handle_token draw (refused err) s = (failed_with 400, s)
  handle_token draw (found req) s = generated req s (generate db c draw req s)

  abbrev pub deactivated : S → Reply S → ℕ × S
  deactivated s (refused err) = (500, s)
  deactivated s (found s') = (200, s')

  -- `HandleDeactivation`, with the token of the decoded body.
  unfoldable pub handle_deactivation : Reply String → S → ℕ × S
  handle_deactivation (refused err) s = (400, s)
  handle_deactivation (found token) s = deactivated s (invalidate db c token s)
