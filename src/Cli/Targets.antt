-- ===== src/Cli/Targets.antt =====
-- The targets of the command line interface: cli/cmd/targetAdd.go, targetSet.go, targetRemove.go
-- and targetList.go, `saveTarget` and `collectTargetName` of cli/cmd/setup.go, and
-- `GetCurrentTarget` of cli/config/config.go. The map that viper holds is the list of its entries
-- in the order of a visit; an entry that was set to nil is `none`. A result of a command that
-- changes the map is the map that is handed to `WriteConfig`.
use husky_ci.Base.{
  ◌+◌, pos, String, ◌==◌, Bool, true, false, not, ◌&&◌, ◌||◌, Option, none, some, List, [], ◌∷◌,
  if◌then◌else◌, ◌⧺◌, itoa, length, is_empty,
}
use husky_ci.Base.Outcome.{Outcome, gives, fails, panics, ◌>>=◌, ◌>>◌, require}

-- The entries `current`, `endpoint` and `token-storage` of a target, if they are there.
pub record Target : Type 0 where
  pub current : Option Bool
  pub endpoint : Option String
  pub token_storage : Option String

abbrev pub Targets : Type 0
Targets = List (String × Option Target)

-- The name of a target matches `^\w+$`; the scheme and the host of a parsed URL.
pub record Checks : Type 0 where
  pub is_name : String → Bool
  pub parse_url : String → Outcome (String × String)

-- The value at a key: `v.(map[string]interface{})`, and `target["endpoint"].(string)`.
abbrev pub as_map : Option Target → Outcome Target
as_map none = panics
as_map (some t) = gives t

abbrev pub as_text : Option String → Outcome String
as_text none = panics
as_text (some s) = gives s

abbrev pub as_bool : Option Bool → Outcome Bool
as_bool none = panics
as_bool (some b) = gives b

abbrev pub is_used : String → Targets → Bool
is_used name [] = false
is_used name ((k, t) ∷ ts) = k == name || is_used name ts

-- `targets[name] = v`
abbrev pub put : String → Option Target → Targets → Targets
put name v [] = (name, v) ∷ []
put name v ((k, t) ∷ ts) =
    let rest = put name v ts in if k == name then (k, v) ∷ ts else (k, t) ∷ rest

-- `for _, v := range targets { target["current"] = false }`
unfoldable pub unset_all : Targets → Outcome Targets
unset_all [] = gives []
unset_all ((k, v) ∷ ts) = as_map v >>= λ t.
    unset_all ts >>= λ rest. gives ((k, some (record t { current = some false })) ∷ rest)

abbrev pub unset_if : Bool → Targets → Outcome Targets
unset_if false ts = gives ts
unset_if true ts = unset_all ts

abbrev pub entry_of : String → Targets → Option Target
entry_of name [] = none
entry_of name ((k, v) ∷ ts) = let rest = entry_of name ts in if k == name then v else rest

-- The check that a name is free, which reads the endpoint of a target that has it.
abbrev pub require_free : String → Targets → Outcome (Unit {0})
require_free name ts =
    if is_used name ts
    then (as_map (entry_of name ts) >>= λ t. fails "target name already exists")
    else gives tt

-- The command `target-add`.
unfoldable pub target_add :
    Checks → (name endpoint : String) → (set_current : Bool) → Targets → Outcome Targets
unfolding unset_all
target_add c name endpoint set_current ts =
    require (c.is_name name) "invalid target name"
    >> (c.parse_url endpoint >>= λ url.
        require (not (url.0 == "") && not (url.1 == "")) "URL must include scheme and host"
        >> (require_free name ts
            >> (unset_if set_current ts >>= λ rest. gives (
                put name
                  (some (record {
                    current = some set_current;
                    endpoint = some endpoint;
                    token_storage = none;
                  }))
                  rest))))

-- The loop of `target-set`: whether the target was found, its endpoint, and the new entries.
abbrev pub marked : String → String → Target → Target
marked name k t = record t { current = some (k == name) }

abbrev pub noted : String → String → Target → Bool × String → Outcome (Bool × String)
noted name k t acc =
    if k == name then (as_text t.endpoint >>= λ endpoint. gives (true, endpoint)) else gives acc

unfoldable pub set_loop : String → Bool × String → Targets → Outcome ((Bool × String) × Targets)
set_loop name acc [] = gives (acc, [])
set_loop name acc ((k, v) ∷ ts) = as_map v >>= λ t. noted name k t acc >>= λ acc'.
    set_loop name acc' ts >>= λ done. gives (done.0, (k, some (marked name k t)) ∷ done.1)

-- The command `target-set`: the endpoint that it reports, and the targets.
unfoldable pub target_set : String → Targets → Outcome (String × Targets)
unfolding set_loop
target_set name ts = set_loop name (false, "") ts >>= λ done.
    require done.0.0 "target does not exist" >> gives (done.0.1, done.1)

-- The command `target-remove`: the endpoint that it reports, and the targets.
unfoldable pub target_remove : String → Targets → Outcome (String × Targets)
target_remove name ts =
    require (is_used name ts) "target does not exist"
    >> (as_map (entry_of name ts) >>= λ t.
        as_text t.endpoint >>= λ endpoint. gives (endpoint, put name none ts))

-- The lines of `target-list`: whether the target is marked, its name and its endpoint.
unfoldable pub target_list : Targets → Outcome (List (Bool × String × Option String))
target_list [] = gives []
target_list ((k, v) ∷ ts) = as_map v >>= λ t. as_bool t.current >>= λ current.
    target_list ts >>= λ lines. gives ((current, k, t.endpoint) ∷ lines)

-- `saveTarget` of the wizard.
unfoldable pub save_target : (name endpoint : String) → Targets → Outcome Targets
unfolding unset_all
save_target name endpoint ts = unset_all ts >>= λ rest. gives (
    put name
      (some (record { current = some true; endpoint = some endpoint; token_storage = some "file" }))
      rest)

-- `collectTargetName` of the wizard without interaction.
unfoldable pub generated_name : Targets → String
generated_name ts = if is_empty ts then "default" else "target-" ⧺ itoa (pos (length ts + 1))

-- `types.Target`
pub record Current : Type 0 where
  pub label : String
  pub endpoint : String
  pub token_storage : String
  pub token : String

abbrev pub no_target : Current
no_target = record { label = ""; endpoint = ""; token_storage = ""; token = "" }

abbrev pub text_or_empty : Option String → String
text_or_empty none = ""
text_or_empty (some s) = s

abbrev pub activated : String → String → Target → Bool → Current → Outcome Current
activated token k t false cur = gives cur
activated token k t true cur = as_text t.endpoint >>= λ endpoint. gives (record {
  label = k;
  endpoint = endpoint;
  token_storage = text_or_empty t.token_storage;
  token = token;
})

abbrev pub configured : Option Bool → Outcome Bool
configured none = fails "You need to configure a target using target-add command"
configured (some b) = gives b

-- The loop of `GetCurrentTarget`; `token` is the value of HUSKYCI_CLI_TOKEN.
unfoldable pub current_loop : String → Current → Targets → Outcome Current
current_loop token cur [] = gives cur
current_loop token cur ((k, v) ∷ ts) = as_map v >>= λ t. configured t.current >>= λ current.
    activated token k t current cur >>= λ cur'. current_loop token cur' ts

-- `GetCurrentTarget`; `address` is the value of HUSKYCI_CLIENT_API_ADDR.
unfoldable pub get_current_target : (address token : String) → Targets → Outcome Current
unfolding current_loop
get_current_target address token ts =
    if not (address == "")
    then gives
        (record { label = "env-var"; endpoint = address; token_storage = "env-var"; token = token })
    else current_loop token no_target ts
