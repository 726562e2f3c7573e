-- ===== src/Config/Hosts.antt =====
-- `formatDockerHost` and `FormatDockerHostAddress` of api/util/api/api.go, and the host that
-- `NewDocker` of api/dockers/api.go connects to.
use husky_ci.Base.{
  suc, ℤ, pos, negsuc, ◌%◌, String, ◌==◌, Bool, not, ◌&&◌, ◌||◌, Option, none, some, List,
  if◌then◌else◌, contains, has_prefix, trim_space, trim_prefix, ◌⧺◌, itoa, length, get_elem?,
  is_empty, eqb,
}
use husky_ci.Base.Reply.{Reply, found, refused}
use husky_ci.Types.{DockerAddresses}
use husky_ci.Config.Env.{DockerHostsConfig, or_default}

-- `url.PathUnescape`, `os.Getenv` and `strconv.Atoi`.
pub record Net : Type 0 where
  pub path_unescape : String → Reply String
  pub env : String → String
  pub atoi : String → Reply ℤ

abbrev pub is_path : String → Bool
is_path s = has_prefix s "unix://" || has_prefix s "/"

abbrev pub decoded_path : String → Reply String → String
decoded_path address (refused err) = address
decoded_path address (found decoded) =
    if not (decoded == address) && is_path decoded then decoded else address

abbrev pub https : String → ℤ → String
https host port = "https://" ⧺ host ⧺ ":" ⧺ itoa port

-- The end of `formatDockerHost`, with the decoded address.
abbrev pub formatted : Net → String → ℤ → String
formatted n address port =
    if has_prefix address "unix://"
    then "unix://"
      ⧺ or_default (trim_prefix address "unix://") (n.path_unescape (trim_prefix address "unix://"))
    else if has_prefix address "/"
    then "unix://" ⧺ address
    else https address port

-- `formatDockerHost`
unfoldable pub format_docker_host : Net → String → ℤ → String
format_docker_host n address port =
    formatted n (decoded_path (trim_space address) (n.path_unescape (trim_space address))) port

-- The port of HUSKYCI_DOCKERAPI_PORT, if it is a number.
abbrev pub env_port : Net → ℤ → ℤ
env_port n port =
    if n.env "HUSKYCI_DOCKERAPI_PORT" == ""
    then port
    else or_default port (n.atoi (n.env "HUSKYCI_DOCKERAPI_PORT"))

-- The configured address and port, or those of the environment.
abbrev pub or_env : Net → String → ℤ → String × ℤ
or_env n address port =
    if address == ""
    then (trim_space (n.env "HUSKYCI_DOCKERAPI_ADDR"), env_port n port)
    else (address, port)

abbrev pub configured : Net → Option DockerHostsConfig → String × ℤ
configured n none = or_env n "" (pos 2376)
configured n (some c) = or_env n (trim_space c.address) c.docker_api_port

abbrev pub is_tcp : String → Bool
is_tcp address =
    not (address == "") && (not (has_prefix address "/") && not (has_prefix address "unix://"))

-- `HostList[CurrentHostIndex % len(HostList)]`; `%` of Go has the sign of its left operand, and
-- `none` is the panic of a negative index.
unfoldable pub pick : ℤ → List String → Option String
pick (pos n) hosts = get_elem? hosts (n % length hosts)
pick (negsuc n) hosts = if eqb (suc n % length hosts) 0 then get_elem? hosts 0 else none

abbrev pub picked : Net → ℤ → Option String → Option (Reply String)
picked n port none = none
picked n port (some host) = some (
    if trim_space host == ""
    then refused "Docker host list contains empty host"
    else found (format_docker_host n (trim_space host) port))

abbrev pub from_list : Net → ℤ → DockerAddresses → Option (Reply String)
from_list n port addresses =
    if is_empty addresses.host_list
    then some (refused "Docker host list is empty")
    else picked n port (pick addresses.current_host_index addresses.host_list)

abbrev pub with_config : Net → DockerAddresses → String × ℤ → Option (Reply String)
with_config n addresses (address, port) =
    if is_tcp address
    then some (found (format_docker_host n address port))
    else from_list n port addresses

-- `FormatDockerHostAddress`; the configuration may be nil.
unfoldable pub format_docker_host_address :
    Net → DockerAddresses → Option DockerHostsConfig → Option (Reply String)
unfolding format_docker_host pick
format_docker_host_address n addresses config = with_config n addresses (configured n config)

-- `isPathLike` of `NewDocker`
abbrev pub is_path_like : String → Bool
is_path_like host =
    has_prefix host "unix://"
    || has_prefix host "/"
    || contains host "%2Fvar%2Frun"
    || contains host "/var/run/"
    || contains host "docker.sock"

abbrev pub tcp_or : String → String × ℤ → String
tcp_or host (address, port) = if is_tcp address then https address port else host

abbrev pub is_hostless : String → Bool
is_hostless host = host == "" || (has_prefix host "https://:" || has_prefix host "http://:")

abbrev pub env_host : Net → String → String
env_host n host =
    let address = trim_space (n.env "HUSKYCI_DOCKERAPI_ADDR") in
    if address == "" then host else https address (env_port n (pos 2376))

-- The host of `NewDocker`; it refuses an empty one.
unfoldable pub new_docker_host : Net → Option DockerHostsConfig → String → Reply String
new_docker_host n config host =
    let direct = if is_path_like host then tcp_or host (configured n config) else host in
    let final = if is_hostless direct then env_host n direct else direct in
    if final == ""
    then refused "Docker host is empty; set HUSKYCI_DOCKERAPI_ADDR (e.g. dockerapi)"
    else found final
