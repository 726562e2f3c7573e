-- ===== src/Config/Requirements.antt =====
-- The checks of api/util/api/api.go before the API starts.
use husky_ci.Base.{
  String, ◌==◌, Bool, true, false, not, ◌||◌, Option, none, some, is_some, List, [], ◌∷◌,
  if◌then◌else◌, ◌⧺◌,
}
use husky_ci.Base.Reply.{Reply, found, refused, ◌>>=◌}
use husky_ci.Types.{SecurityTest, User}
use husky_ci.Auth.Login.{Library, UserDb, insert_default_user}

abbrev pub required : List String
required =
    "HUSKYCI_DATABASE_DB_ADDR" ∷ "HUSKYCI_DATABASE_DB_NAME" ∷ "HUSKYCI_DATABASE_DB_USERNAME"
    ∷ "HUSKYCI_DATABASE_DB_PASSWORD" ∷ "HUSKYCI_API_DEFAULT_USERNAME"
    ∷ "HUSKYCI_API_DEFAULT_PASSWORD" ∷ "HUSKYCI_API_ALLOW_ORIGIN_CORS"
    ∷ "HUSKYCI_INFRASTRUCTURE_USE" ∷ []

abbrev pub required_for_docker : List String
required_for_docker = "HUSKYCI_DOCKERAPI_ADDR" ∷ "HUSKYCI_DOCKERAPI_CERT_PATH" ∷ []

-- `os.LookupEnv`
abbrev pub Env : Type 0
Env = String → Option String

-- The loops of `checkEnvVars`: the text of the error, and whether all variables are set.
unfoldable pub look_up_all : Env → String × Bool → List String → String × Bool
look_up_all env acc [] = acc
look_up_all env (err, all_set) (v ∷ vs) =
    look_up_all env (if is_some (env v) then (err, all_set) else (err ⧺ v ⧺ " ", false)) vs

abbrev pub is_docker : Option String → Bool
is_docker none = false
is_docker (some s) = s == "docker"

-- `checkEnvVars`
unfoldable pub check_env_vars : Env → Option String
unfolding look_up_all
check_env_vars env =
    let first = look_up_all env ("", true) required in
    let last =
      if is_docker (env "HUSKYCI_INFRASTRUCTURE_USE")
      then look_up_all env first required_for_docker
      else first in
    if not last.1 then some ("Check environment variables: " ⧺ last.0) else none

-- `CheckInterface`: what each check returns.
pub record Checks : Type 0 where
  pub env_vars : Option String
  pub docker_hosts : Option String
  pub kubernetes_hosts : Option String
  pub db : Option String
  pub each_security_test : Option String
  pub default_user : Option String

abbrev pub selected_check : Checks → Option String → Option String
selected_check checks none = some "HUSKYCI_INFRASTRUCTURE_USE environment variable not set"
selected_check checks (some s) =
    if s == "docker"
    then checks.docker_hosts
    else if s == "kubernetes"
    then checks.kubernetes_hosts
    else some "invalid HUSKYCI_INFRASTRUCTURE_USE value"

-- `checkInfrastructure`
unfoldable pub check_infrastructure : Env → Checks → Option String
check_infrastructure env checks = selected_check checks (env "HUSKYCI_INFRASTRUCTURE_USE")

-- `if err := check; err != nil { return err }`
infixr 40 ◌then_check◌
abbrev pub ◌then_check◌ : Option String → Option String → Option String
none then_check next = next
some err then_check next = some err

-- `CheckHuskyRequirements`
unfoldable pub check_requirements : Env → Checks → Option String
unfolding check_infrastructure
check_requirements env checks =
    checks.env_vars
    then_check check_infrastructure env checks
    then_check checks.db
    then_check checks.each_security_test
    then_check checks.default_user

-- The tests that `checkEachSecurityTest` upserts.
abbrev pub checked_tests : List String
checked_tests =
    "enry" ∷ "gitauthors" ∷ "gosec" ∷ "brakeman" ∷ "bandit" ∷ "npmaudit" ∷ "yarnaudit" ∷ "spotbugs"
    ∷ "gitleaks" ∷ "safety" ∷ "tfsec" ∷ "securitycodescan" ∷ []

abbrev is_any : String → List String → Bool
is_any name [] = false
is_any name (n ∷ ns) = name == n || is_any name ns

module _ {S : Type 0} (upsert : String → SecurityTest → S → Reply S)
    (config : String → SecurityTest) where
  -- `checkSecurityTest`, where `config` are the tests of the configuration.
  unfoldable pub check_security_test : String → S → Reply S
  check_security_test name s =
      if is_any name checked_tests
      then upsert name (config name) s
      else refused "securityTest name not defined"

  -- `checkEachSecurityTest`
  unfoldable pub check_each_loop : List String → S → Reply S
  unfolding check_security_test
  check_each_loop [] s = found s
  check_each_loop (name ∷ names) s = check_security_test name s >>= check_each_loop names

  unfoldable pub check_each_security_test : S → Reply S
  unfolding check_each_loop
  check_each_security_test = check_each_loop checked_tests

-- `mongo.ErrNoDocuments` is told from other errors by `is_no_documents`.
module _ {S : Type 0} (db : UserDb S) (l : Library) (is_no_documents : String → Bool) where
  abbrev pub after_find : Reply String → S → Reply User → Reply S
  after_find random s (found u) = found s
  after_find random s (refused err) =
      if is_no_documents err || err == "No data found"
      then insert_default_user db l random s
      else refused err

  -- `checkDefaultUser`; `random` are the bytes of the salt.
  unfoldable pub check_default_user : Reply String → S → Reply S
  check_default_user random s =
      after_find random s (db.find (l.env "HUSKYCI_API_DEFAULT_USERNAME") s)

-- A file that `createAPIKeys` writes: the variable with its content, and its path.
abbrev pub key_files : List (String × String)
key_files =
    ("HUSKYCI_DOCKERAPI_CERT_FILE_VALUE", "/home/application/current/api/cert.pem")
    ∷ ("HUSKYCI_DOCKERAPI_CERT_KEY_VALUE", "/home/application/current/api/key.pem")
    ∷ ("HUSKYCI_DOCKERAPI_API_TLS_CERT_VALUE", "/home/application/current/api/api-tls-cert.pem")
    ∷ ("HUSKYCI_DOCKERAPI_API_TLS_KEY_VALUE", "/home/application/current/api/api-tls-key.pem")
    ∷ ("HUSKYCI_DOCKERAPI_CERT_CA_VALUE", "/home/application/current/api/ca.pem")
    ∷ []

module _ {S : Type 0} (write_file : (path content : String) → S → Reply S) (env : Env) where
  -- `createAPICert` and the four functions like it: nothing is written for a variable that is
  -- not set.
  abbrev pub create_key : String → Option String → S → Reply S
  create_key path none s = found s
  create_key path (some content) s = write_file path content s

  unfoldable pub create_loop : List (String × String) → S → Reply S
  create_loop [] s = found s
  create_loop ((var, path) ∷ files) s = create_key path (env var) s >>= create_loop files

  -- `createAPIKeys`
  unfoldable pub create_api_keys : S → Reply S
  unfolding create_loop
  create_api_keys = create_loop key_files
