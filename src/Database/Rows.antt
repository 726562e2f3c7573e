-- ===== src/Database/Rows.antt =====
-- The maps that api/db/postgres.go and api/db/huskydb.go write for a struct, with the columns in
-- the order of the source. A time stamp is its text, `none` for the zero time.
use husky_ci.Base.{ℤ, String, Bool, Option, List, [], ◌∷◌}
use husky_ci.Types.{SecurityTest, Analysis, Container, Code, HuskyResults, User, DbToken}
use husky_ci.Database.Query.{Params}

-- What the program puts behind `interface{}`; `pg_array` is what `pq.Array` makes of a slice, and
-- `encoded` is the JSON text of a struct.
pub data Value : Type 0 where
  text : String → Value
  flag : Bool → Value
  number : ℤ → Value
  time : Option String → Value
  texts : List String → Value
  containers : List Container → Value
  results : HuskyResults → Value
  codes : List Code → Value
  pg_array : List String → Value
  encoded : String → Value

abbrev pub Row : Type 0
Row = Params Value

-- The maps of `InsertDBRepository`.
abbrev pub repository_row : String → Option String → Row
repository_row url created_at = ("repositoryURL", text url) ∷ ("createdAt", time created_at) ∷ []

abbrev pub mongo_repository : String → Option String → Row
mongo_repository url created_at = ("repositoryURL", text url) ∷ ("createdAt", time created_at) ∷ []

-- `securityTestMap` of `InsertDBSecurityTest`
abbrev pub security_test_row : SecurityTest → Row
security_test_row t =
    ("name", text t.name)
    ∷ ("image", text t.image)
    ∷ ("imageTag", text t.image_tag)
    ∷ ("cmd", text t.cmd)
    ∷ ("language", text t.language)
    ∷ ("type", text t.test_type)
    ∷ ("default", flag t.is_default)
    ∷ ("timeOutSeconds", number t.time_out_in_seconds)
    ∷ []

-- `updatedSecurityMap` of `UpsertOneDBSecurityTest`
abbrev pub updated_test_row : SecurityTest → Row
updated_test_row t =
    ("name", text t.name)
    ∷ ("image", text t.image)
    ∷ ("imageTag", text t.image_tag)
    ∷ ("cmd", text t.cmd)
    ∷ ("type", text t.test_type)
    ∷ ("language", text t.language)
    ∷ ("default", flag t.is_default)
    ∷ ("timeOutSeconds", number t.time_out_in_seconds)
    ∷ []

abbrev pub mongo_security_test : SecurityTest → Row
mongo_security_test t =
    ("name", text t.name)
    ∷ ("image", text t.image)
    ∷ ("cmd", text t.cmd)
    ∷ ("language", text t.language)
    ∷ ("type", text t.test_type)
    ∷ ("default", flag t.is_default)
    ∷ ("timeOutSeconds", number t.time_out_in_seconds)
    ∷ []

-- `analysisMap` of `InsertDBAnalysis`
abbrev pub analysis_row : Analysis → Option String → Row
analysis_row a started_at =
    ("RID", text a.rid)
    ∷ ("repositoryURL", text a.url)
    ∷ ("repositoryBranch", text a.branch)
    ∷ ("status", text a.status)
    ∷ ("startedAt", time started_at)
    ∷ []

abbrev pub mongo_analysis : Analysis → Option String → Row
mongo_analysis a started_at =
    ("RID", text a.rid)
    ∷ ("repositoryURL", text a.url)
    ∷ ("repositoryBranch", text a.branch)
    ∷ ("status", text a.status)
    ∷ ("result", text a.result)
    ∷ ("containers", containers a.containers)
    ∷ ("startedAt", time started_at)
    ∷ []

-- `userMap` of `InsertDBUser`
abbrev pub user_row : User → Row
user_row u =
    ("username", text u.username)
    ∷ ("password", text u.password)
    ∷ ("salt", text u.salt)
    ∷ ("iterations", number u.iterations)
    ∷ ("keylen", number u.key_len)
    ∷ ("hashfunction", text u.hash_function)
    ∷ []

abbrev pub mongo_user : User → Row
mongo_user u =
    ("username", text u.username)
    ∷ ("password", text u.password)
    ∷ ("salt", text u.salt)
    ∷ ("iterations", number u.iterations)
    ∷ ("keylen", number u.key_len)
    ∷ ("hashfunction", text u.hash_function)
    ∷ []

-- `accessTokenMap` of `InsertDBAccessToken`
abbrev pub access_token_row : DbToken → Option String → Row
access_token_row t created_at =
    ("huskytoken", text t.husky_token)
    ∷ ("repositoryURL", text t.url)
    ∷ ("isValid", flag t.is_valid)
    ∷ ("createdAt", time created_at)
    ∷ ("salt", text t.salt)
    ∷ ("uuid", text t.uuid)
    ∷ []

abbrev pub mongo_access_token : DbToken → Option String → Row
mongo_access_token t created_at =
    ("huskytoken", text t.husky_token)
    ∷ ("repositoryURL", text t.url)
    ∷ ("isValid", flag t.is_valid)
    ∷ ("createdAt", time created_at)
    ∷ ("salt", text t.salt)
    ∷ ("uuid", text t.uuid)
    ∷ []
