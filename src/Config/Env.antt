-- ===== src/Config/Env.antt =====
-- api/context/context.go: what the configuration is for an environment.
use husky_ci.Base.{
  ℕ, zero, suc, ℤ, pos, negsuc, ◌*◌, String, ◌==◌, Bool, true, false, ◌||◌, Option, List, [], ◌∷◌,
  if◌then◌else◌, split, ◌⧺◌, itoa,
}
use husky_ci.Base.Reply.{Reply, found, refused}
use husky_ci.Types.{SecurityTest}

-- `CallerInterface`, `strings.EqualFold` and `time.ParseDuration`; a variable that is not set is
-- the empty text.
pub record Caller : Type 0 where
  pub set_config_file : Option String
  pub env : String → String
  pub to_int : String → Reply ℤ
  pub equal_fold : String → String → Bool
  pub string_of : String → String
  pub bool_of : String → Bool
  pub int_of : String → ℤ
  pub parse_duration : String → Reply ℤ

pub record DbConfig : Type 0 where
  pub address : String
  pub database_name : String
  pub username : String
  pub password : String
  pub port : ℤ
  pub timeout : ℤ
  pub pool_limit : ℤ
  pub max_open_conns : ℤ
  pub max_idle_conns : ℤ
  pub conn_max_lifetime : ℤ

pub record DockerHostsConfig : Type 0 where
  pub address : String
  pub docker_api_port : ℤ
  pub path_certificate : String
  pub host : String
  pub tls_verify : ℕ

pub record KubernetesConfig : Type 0 where
  pub config_file_path : String
  pub namespace : String
  pub proxy_address : String
  pub no_proxy_addresses : String
  pub pod_scheduling_timeout : ℤ

pub record GraylogConfig : Type 0 where
  pub address : String
  pub protocol : String
  pub app_name : String
  pub tag : String
  pub development_env : Bool

abbrev pub or_default {ℓ} : {A : Type ℓ} → A → Reply A → A
or_default d (found a) = a
or_default d (refused err) = d

module _ (c : Caller) where
  -- A number of the environment, or a default where it is no number.
  abbrev pub env_int : String → ℤ → ℤ
  env_int name d = or_default d (c.to_int (c.env name))

  abbrev pub env_or : String → String → String
  env_or name d = if c.env name == "" then d else c.env name

  abbrev pub is_option : String → String → String → Bool
  is_option option word digit = c.equal_fold option word || option == digit

  unfoldable pub get_api_port : ℤ
  get_api_port = env_int "HUSKYCI_API_PORT" (pos 8888)

  unfoldable pub get_allow_origin : String
  get_allow_origin = env_or "HUSKYCI_API_ALLOW_ORIGIN_CORS" "http://127.0.0.1:8888"

  unfoldable pub get_use_tls : Bool
  get_use_tls = is_option (c.env "HUSKYCI_API_ENABLE_HTTPS") "true" "1"

  unfoldable pub get_graylog_is_dev : Bool
  get_graylog_is_dev =
      if is_option (c.env "HUSKYCI_LOGGING_GRAYLOG_DEV") "false" "0" then false else true

  unfoldable pub get_graylog_config : GraylogConfig
  unfolding get_graylog_is_dev
  get_graylog_config = record {
    address = c.env "HUSKYCI_LOGGING_GRAYLOG_ADDR";
    protocol = c.env "HUSKYCI_LOGGING_GRAYLOG_PROTO";
    app_name = env_or "HUSKYCI_LOGGING_GRAYLOG_APP_NAME" "huskyCI";
    tag = env_or "HUSKYCI_LOGGING_GRAYLOG_TAG" "huskyCI";
    development_env = get_graylog_is_dev;
  }

  unfoldable pub get_max_open_conns : ℤ
  get_max_open_conns = env_int "HUSKYCI_DATABASE_DB_MAX_OPEN_CONNS" (pos 1)

  unfoldable pub get_max_idle_conns : ℤ
  get_max_idle_conns = env_int "HUSKYCI_DATABASE_DB_MAX_IDLE_CONNS" (pos 1)

  -- In hours, without the wrap-around of a duration.
  unfoldable pub get_conn_max_lifetime : ℤ
  get_conn_max_lifetime = env_int "HUSKYCI_DATABASE_DB_CONN_MAXLIFETIME" (pos 1)

  unfoldable pub get_db_port : ℤ
  get_db_port = env_int "HUSKYCI_DATABASE_DB_PORT" (pos 27017)

  -- In seconds.
  unfoldable pub get_db_timeout : ℤ
  get_db_timeout = env_int "HUSKYCI_DATABASE_DB_TIMEOUT" (pos 60)

  abbrev pub pool_limit : Reply ℤ → ℤ
  pool_limit (refused err) = pos 1000
  pool_limit (found (pos zero)) = pos 1000
  pool_limit (found (pos (suc n))) = pos (suc n)
  pool_limit (found (negsuc n)) = pos 1000

  unfoldable pub get_db_pool_limit : ℤ
  get_db_pool_limit = pool_limit (c.to_int (c.env "HUSKYCI_DATABASE_DB_POOL_LIMIT"))

  unfoldable pub get_db_config : DbConfig
  unfolding get_db_port get_db_timeout get_db_pool_limit get_max_open_conns get_max_idle_conns
      get_conn_max_lifetime
  get_db_config = record {
    address = c.env "HUSKYCI_DATABASE_DB_ADDR";
    database_name = c.env "HUSKYCI_DATABASE_DB_NAME";
    username = c.env "HUSKYCI_DATABASE_DB_USERNAME";
    password = c.env "HUSKYCI_DATABASE_DB_PASSWORD";
    port = get_db_port;
    timeout = get_db_timeout;
    pool_limit = get_db_pool_limit;
    max_open_conns = get_max_open_conns;
    max_idle_conns = get_max_idle_conns;
    conn_max_lifetime = get_conn_max_lifetime;
  }

  unfoldable pub get_docker_api_port : ℤ
  get_docker_api_port = env_int "HUSKYCI_DOCKERAPI_PORT" (pos 2376)

  unfoldable pub get_docker_tls_verify : ℕ
  get_docker_tls_verify =
      if is_option (c.env "HUSKYCI_DOCKERAPI_TLS_VERIFY") "false" "0" then 0 else 1

  -- `addresses[0]`, which `strings.Split` always gives.
  abbrev pub first_address : List String → String
  first_address [] = ""
  first_address (a ∷ as') = a

  -- 32 is the space.
  unfoldable pub get_docker_hosts_config : DockerHostsConfig
  unfolding get_docker_api_port get_docker_tls_verify
  get_docker_hosts_config =
      let address = first_address (split (c.env "HUSKYCI_DOCKERAPI_ADDR") 32) in
      record {
        address = address;
        docker_api_port = get_docker_api_port;
        path_certificate = c.env "HUSKYCI_DOCKERAPI_CERT_PATH";
        host = address ⧺ ":" ⧺ itoa get_docker_api_port;
        tls_verify = get_docker_tls_verify;
      }

  unfoldable pub get_kubernetes_config : KubernetesConfig
  get_kubernetes_config = record {
    config_file_path = c.env "HUSKYCI_KUBERNETES_CONFIG_FILE_PATH";
    namespace = c.env "HUSKYCI_KUBERNETES_NAMESPACE";
    proxy_address = c.env "HUSKYCI_KUBERNETES_PROXY_ADDRESS";
    no_proxy_addresses = c.env "HUSKYCI_KUBERNETES_NO_PROXY_ADDRESSES";
    pod_scheduling_timeout = env_int "HUSKYCI_KUBERNETES_POD_SCHEDULING_TIMEOUT" (pos 60);
  }

  unfoldable pub get_security_test_config : String → SecurityTest
  get_security_test_config name = record {
    name = c.string_of (name ⧺ ".name");
    image = c.string_of (name ⧺ ".image");
    image_tag = c.string_of (name ⧺ ".imageTag");
    cmd = c.string_of (name ⧺ ".cmd");
    test_type = c.string_of (name ⧺ ".type");
    language = c.string_of (name ⧺ ".language");
    is_default = c.bool_of (name ⧺ ".default");
    time_out_in_seconds = c.int_of (name ⧺ ".timeOutInSeconds");
  }

  -- `GetDB`: whether the database is Postgres.
  unfoldable pub uses_postgres : Bool
  uses_postgres = c.equal_fold (c.env "HUSKYCI_DATABASE_TYPE") "postgres"

  -- `GetCache`: the expiration and the interval of the cleanup, in nanoseconds.
  unfoldable pub get_cache : ℤ × ℤ
  get_cache = (
    or_default (pos (5 * 60 * 1000000000))
        (c.parse_duration (c.env "HUSKYCI_CACHE_DEFAULT_EXPIRATION")),
    or_default (pos (10 * 60 * 1000000000))
        (c.parse_duration (c.env "HUSKYCI_CACHE_CLEANUP_INTERVAL")),
  )
