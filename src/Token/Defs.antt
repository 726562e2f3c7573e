-- ===== src/Token/Defs.antt =====
-- api/token/token.go, api/token/tokenvalidator.go, `ValidateURL` of api/token/generator.go and
-- `GetValidHashFunction` of api/auth/authmongo.go.
use husky_ci.Base.{
  String, ◌==◌, Bool, true, false, ◌||◌, Option, none, some, List, [], ◌∷◌, if◌then◌else◌, split,
  ◌⧺◌,
}
use husky_ci.Base.Reply.{Reply, found, refused, ◌>>=◌, ◌>>◌, ensure}
use husky_ci.Types.{DbToken, TokenRequest}
use husky_ci.Input.{Patterns, check_repo_url}
use husky_ci.Run.Scans.{is_file_url}

pub data HashFunction : Type 0 where
  sha256 sha224 sha384 sha512 sha3_224 sha3_256 sha3_384 sha3_512 : HashFunction

-- `GetValidHashFunction` on the name in lower case.
unfoldable pub get_valid_hash : String → Option HashFunction
get_valid_hash name =
    if name == "sha256"
    then some sha256
    else if name == "sha224"
    then some sha224
    else if name == "sha384"
    then some sha384
    else if name == "sha512"
    then some sha512
    else if name == "sha3_224"
    then some sha3_224
    else if name == "sha3_256"
    then some sha3_256
    else if name == "sha3_384"
    then some sha3_384
    else if name == "sha3_512"
    then some sha3_512
    else none

-- `Pbkdf2Generator` and the pure calls of `ExternalCalls`: PBKDF2 with the configured iterations
-- and key length, and the encoding of base64. `hash_name` is the value of
-- HUSKYCI_API_DEFAULT_HASH_FUNCTION, in lower case.
pub record Crypto : Type 0 where
  pub patterns : Patterns
  pub decode_salt : String → Reply String
  -- `GenHashValue`, which is given a hash function and uses SHA-256 whatever it is.
  pub hash : (value salt : String) → String
  pub hash_name : String
  pub encode : String → String
  pub decode : String → Reply String

-- What the generators of one request draw.
pub record Draw : Type 0 where
  pub token : Reply String
  pub salt : Reply String
  pub uuid : String

-- The calls of the database of access tokens, whose states are of type `S`.
pub record TokenDb (S : Type 0) : Type 0 where
  pub store : DbToken → S → Reply S
  pub find : (uuid : String) → S → Reply DbToken
  pub update : (uuid : String) → DbToken → S → Reply S
  pub find_repo : (url : String) → S → Option String

-- `GetHashName`
unfoldable pub get_hash_name : Crypto → String
get_hash_name c = if c.hash_name == "" then "sha512" else c.hash_name

-- `ValidateURL`
unfoldable pub validate_url : Crypto → String → Reply String
validate_url c url = if url == "" then found "" else check_repo_url c.patterns url

abbrev pub two_parts : List String → Reply (String × String)
two_parts (uuid ∷ random ∷ []) = found (uuid, random)
two_parts _ = refused "Invalid access token format"

-- `GetSplitted`; 58 is the colon.
unfoldable pub get_splitted : Crypto → String → Reply (String × String)
get_splitted c token = do decoded ← c.decode token; two_parts (split decoded 58)

abbrev pub the_hash : Option HashFunction → Reply HashFunction
the_hash none = refused "Invalid hash function"
the_hash (some h) = found h

-- `ValidateRandomData`
unfoldable pub validate_random : Crypto → (random hashed salt : String) → Reply (Unit {0})
validate_random c random hashed salt = do
  s ← c.decode_salt salt
  h ← the_hash (get_valid_hash (get_hash_name c))
  ensure (c.hash random s == hashed) "Hash value from random data is different"

-- The token that `GenerateAccessToken` stores.
abbrev pub new_token : Crypto → String → String → String → String → String → DbToken
new_token c url random salt bytes uuid = record {
  husky_token = c.hash random bytes;
  url = url;
  is_valid = true;
  salt = salt;
  uuid = uuid;
}

module _ {S : Type 0} (db : TokenDb S) (c : Crypto) where
  -- `GenerateAccessToken`
  unfoldable pub generate : Draw → TokenRequest → S → Reply (String × S)
  generate draw req state = do
    url ← validate_url c req.repository_url
    random ← draw.token
    salt ← draw.salt
    bytes ← c.decode_salt salt
    state' ← db.store (new_token c url random salt bytes draw.uuid) state
    found (c.encode (draw.uuid ⧺ ":" ⧺ random), state')

  -- Whether a stored token is for a repository: a generic token has no URL.
  abbrev pub allows : DbToken → String → Bool
  allows t url = t.url == "" || t.url == url

  -- `ValidateToken`
  unfoldable pub validate : String → String → S → Reply (Unit {0})
  validate token repo_url state = do
    url ← validate_url c repo_url
    parts ← get_splitted c token
    stored ← db.find parts.0 state
    ensure stored.is_valid "Access token is invalid"
    ensure (allows stored url)
        "Access token doesn't have permission to run analysis in the provided repository"
    validate_random c parts.1 stored.husky_token stored.salt

  abbrev or_generic : Option String → Option String → Option String
  or_generic none generic = none
  or_generic (some err) generic = generic

  abbrev verified : S → Reply String → Option String
  verified state (refused err) = some err
  verified state (found url) = or_generic (db.find_repo url state) (db.find_repo "" state)

  -- `VerifyRepo`
  unfoldable pub verify_repo : String → S → Option String
  verify_repo repo_url state = verified state (validate_url c repo_url)

  -- `InvalidateToken`
  unfoldable pub invalidate : String → S → Reply S
  invalidate token state = do
    parts ← get_splitted c token
    stored ← db.find parts.0 state
    db.update parts.0 (record stored { is_valid = false }) state

  abbrev is_found : {A : Type 0} → Reply A → Bool
  is_found (found a) = true
  is_found (refused err) = false

  abbrev unless_unknown : Option String → Bool → Bool
  unless_unknown none valid = valid
  unless_unknown (some err) valid = true

  -- `HasAuthorization`
  unfoldable pub has_authorization : String → String → S → Bool
  has_authorization token repo_url state =
      is_file_url repo_url
      || unless_unknown (verify_repo repo_url state) (is_found (validate token repo_url state))
