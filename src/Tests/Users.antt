-- ===== src/Tests/Users.antt =====
-- The default user in a database that is a list of users.
use husky_ci.Base.{
  pos, String, ◌==◌, ◌≡◌, refl, false, none, if◌then◌else◌, ◌⧺◌, List, [], ◌∷◌, ◌++◌,
}
use husky_ci.Base.Reply.{Reply, found, refused}
use husky_ci.Types.{User}
use husky_ci.Token.Defs.{HashFunction, sha256, sha512, get_valid_hash}
use husky_ci.Auth.Login.{Library, UserDb, hash_name, get_iterations, get_key_length, default_user}
use husky_ci.Auth.Users.{Errors, update_user}

abbrev label : HashFunction → String
label sha256 = "a"
label sha512 = "b"
label h = "c"

abbrev library : String → Library
library hash = record {
  key = λ h password salt iterations len. label h ⧺ password ⧺ salt;
  shared_key = λ h password salt iterations len. none;
  encode = λ s. s;
  decode = λ s. found s;
  to_lower = λ s. if s == "SHA512" then "sha512" else s;
  atoi = λ s. refused "invalid syntax";
  env = λ name.
      if name == "HUSKYCI_API_DEFAULT_USERNAME"
      then "husky"
      else if name == "HUSKYCI_API_DEFAULT_PASSWORD"
      then "secret"
      else if name == "HUSKYCI_API_DEFAULT_HASH_FUNCTION"
      then hash
      else "";
}

abbrev find_in : String → List User → Reply User
find_in name [] = refused "No data found"
find_in name (u ∷ us) = if u.username == name then found u else find_in name us

-- The state is the list of the users, and the first of a name is found.
abbrev db : UserDb (List User)
db = record {
  find = find_in;
  insert = λ u us. found (us ++ u ∷ []);
  update = λ name u us. refused "update document must contain key beginning with '$'";
}

abbrev stored : Reply (List User) → List User
stored (found us) = us
stored (refused err) = []

abbrev errors : Errors
errors = record { is_mgo_not_found = λ err. false; is_no_documents = λ err. false }

abbrev attempt : User
attempt = record {
  username = "husky";
  password = "secret";
  salt = "";
  iterations = pos 0;
  key_len = pos 0;
  hash_function = "";
  new_password = "fresh";
  confirm_new_password = "fresh";
}

-- A database with another user.
abbrev ana : User
ana = record attempt { username = "ana" }

abbrev with_default : List User
with_default = ana ∷ default_user db (library "") "salt" ∷ []

-- The default user, with the right password: a panic.
right_password_panics : update_user db (library "") errors (found attempt) with_default ≡ none
unfolding update_user default_user hash_name get_iterations get_key_length get_valid_hash
right_password_panics = refl
