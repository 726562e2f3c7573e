-- ===== src/Auth/Login.antt =====
-- api/auth: basic authentication of the users of the API, and api/user: the default user.
use husky_ci.Base.{ℤ, pos, String, ◌==◌, Bool, false, ◌||◌, Option, none, some, if◌then◌else◌}
use husky_ci.Base.Reply.{Reply, found, refused, ◌>>=◌}
use husky_ci.Types.{User}
use husky_ci.Token.Defs.{HashFunction, sha256, get_valid_hash}
use husky_ci.Database.Requests.{is_zero}

-- The libraries: `key h` is `pbkdf2.Key` with the constructor of the hash. `shared_key h` is the
-- same call with a function that returns one instance of the hash each time; `none` is a panic.
-- `encode` and `decode` are the standard encoding of base64.
pub record Library : Type 0 where
  pub key : HashFunction → (password salt : String) → (iterations key_len : ℤ) → String
  pub shared_key :
      HashFunction → (password salt : String) → (iterations key_len : ℤ) → Option String
  pub encode : String → String
  pub decode : String → Reply String
  pub to_lower : String → String
  pub atoi : String → Reply ℤ
  -- `os.Getenv`
  pub env : String → String

-- The users of the database, whose states are of type `S`.
pub record UserDb (S : Type 0) : Type 0 where
  pub find : String → S → Reply User
  pub insert : User → S → Reply S
  pub update : String → User → S → Reply S

abbrev or_default {ℓ} : {A : Type ℓ} → A → Reply A → A
or_default d (found a) = a
or_default d (refused err) = d

-- `GetHashName`
unfoldable pub hash_name : Library → String
hash_name l =
    let name = l.env "HUSKYCI_API_DEFAULT_HASH_FUNCTION" in if name == "" then "SHA512" else name

-- `GetIterations`
unfoldable pub get_iterations : Library → ℤ
get_iterations l =
    let raw = l.env "HUSKYCI_API_DEFAULT_ITERATIONS" in
    if raw == "" then pos 100000 else or_default (pos 100000) (l.atoi raw)

-- `GetKeyLength`
unfoldable pub get_key_length : Library → ℤ
get_key_length l =
    let raw = l.env "HUSKYCI_API_DEFAULT_KEY_LENGTH" in
    if raw == "" then pos 512 else or_default (pos 512) (l.atoi raw)

-- `GenHashValue`; the hash that it is given is not used.
unfoldable pub gen_hash_value :
    Library → (value salt : String) → (iter key_len : ℤ) → HashFunction → String
gen_hash_value l value salt iter key_len h = l.encode (l.key sha256 value salt iter key_len)

-- The tests at the head of `GetHashedPass`, with the hash function.
abbrev pub usable : User → Option HashFunction → Reply HashFunction
usable u none = refused "Failed to generate a hash! It doesn't meet all criteria"
usable u (some h) =
    if u.salt == "" || is_zero u.iterations || is_zero u.key_len
    then refused "Failed to generate a hash! It doesn't meet all criteria"
    else found h

-- `GetHashedPass`, with the parameters that `GetPassFromDB` has kept.
unfoldable pub get_hashed_pass : Library → User → String → Reply String
unfolding gen_hash_value
get_hashed_pass l u password = do
  h ← usable u (get_valid_hash (l.to_lower u.hash_function))
  salt ← l.decode u.salt
  found (gen_hash_value l password salt u.iterations u.key_len h)

abbrev pub compared : String → Reply String → Bool × Option String
compared stored (refused err) = (false, some err)
compared stored (found hashed) = (stored == hashed, none)

abbrev pub of_creds : Library → String → Reply User → Bool × Option String
of_creds l password (refused err) = (false, none)
of_creds l password (found u) = compared u.password (get_hashed_pass l u password)

module _ {S : Type 0} (db : UserDb S) (l : Library) where
  -- `IsValidUser`
  unfoldable pub is_valid_user : (username password : String) → S → Bool × Option String
  unfolding get_hashed_pass
  is_valid_user username password s = of_creds l password (db.find username s)

  -- The user that `InsertDefaultUser` inserts; `salt` are the random bytes.
  unfoldable pub default_user : String → User
  unfolding hash_name get_iterations get_key_length
  default_user salt = record {
    username = l.env "HUSKYCI_API_DEFAULT_USERNAME";
    password = l.encode (
        l.key sha256 (l.env "HUSKYCI_API_DEFAULT_PASSWORD") salt (get_iterations l)
          (get_key_length l));
    salt = l.encode salt;
    iterations = get_iterations l;
    key_len = get_key_length l;
    hash_function = hash_name l;
    new_password = "";
    confirm_new_password = "";
  }

  -- `InsertDefaultUser`
  unfoldable pub insert_default_user : Reply String → S → Reply S
  unfolding default_user
  insert_default_user random s = do salt ← random; db.insert (default_user salt) s
