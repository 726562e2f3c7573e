-- ===== src/Tests/Tokens.antt =====
-- A token that is generated, used and deactivated in a database in memory.
use husky_ci.Base.{◌≡◌, refl, some, List, [], ◌∷◌, split, ◌⧺◌, contains}
use husky_ci.Base.Reply.{found}
use husky_ci.Types.{DbToken, TokenRequest}
use husky_ci.Input.{check_repo_url}
use husky_ci.Token.Defs.{
  sha256, Crypto, Draw, get_valid_hash, get_hash_name, validate_url, new_token, validate,
}
use husky_ci.Token.Laws.{IsGranted, validate-IsGranted, generate-validate}
use husky_ci.Token.Memory.{memory, memory-DbLaws}
use husky_ci.Tests.Patterns.{patterns, repo_url}

-- The hash and the encoding are plain text.
abbrev pub crypto : Crypto
crypto = record {
  patterns = patterns;
  decode_salt = λ salt. found salt;
  hash = λ value salt. "a" ⧺ value ⧺ salt;
  hash_name = "sha256";
  encode = λ m. m;
  decode = λ m. found m;
}

abbrev default_crypto : Crypto
default_crypto = record crypto { hash_name = "" }

abbrev draw : Draw
draw = record { token = found "r4nd0m"; salt = found "salt"; uuid = "u-1" }

abbrev request : TokenRequest
request = record { repository_url = repo_url }

abbrev stored : DbToken
stored = new_token crypto repo_url "r4nd0m" "salt" "salt" "u-1"

abbrev before : List DbToken
before = []

url_valid : validate_url crypto repo_url ≡ found repo_url
unfolding validate_url check_repo_url contains
url_valid = refl

default_url_valid : validate_url default_crypto repo_url ≡ found repo_url
unfolding validate_url check_repo_url contains
default_url_valid = refl

separate : split ("u-1" ⧺ ":" ⧺ "r4nd0m") 58 ≡ "u-1" ∷ "r4nd0m" ∷ []
unfolding split
separate = refl

hash_configured : get_valid_hash (get_hash_name crypto) ≡ some sha256
unfolding get_valid_hash get_hash_name
hash_configured = refl

validated : validate memory crypto "u-1:r4nd0m" repo_url (stored ∷ []) ≡ found tt
validated =
    (generate-validate memory crypto memory-DbLaws draw request before (stored ∷ []) repo_url
      "r4nd0m" "salt" "salt" "No data found" url_valid refl refl refl refl refl (λ m. refl) separate
      sha256 hash_configured).1

validate-IsGranted_example : IsGranted memory crypto "u-1:r4nd0m" repo_url (stored ∷ [])
validate-IsGranted_example =
    validate-IsGranted memory crypto "u-1:r4nd0m" repo_url (stored ∷ []) validated
