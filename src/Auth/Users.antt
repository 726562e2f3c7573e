-- ===== src/Auth/Users.antt =====
-- `UpdateUser` of api/routes/user.go.
use husky_ci.Base.{ℕ, String, ◌==◌, Bool, not, ◌||◌, Option, none, some, if◌then◌else◌}
use husky_ci.Base.Reply.{Reply, found, refused}
use husky_ci.Types.{User}
use husky_ci.Token.Defs.{HashFunction, get_valid_hash}
use husky_ci.Auth.Login.{Library, UserDb}

-- Whether an error of the database is `mgo.ErrNotFound`, and whether it is `mongo.ErrNoDocuments`.
pub record Errors : Type 0 where
  pub is_mgo_not_found : String → Bool
  pub is_no_documents : String → Bool

-- The status of the answer, and the state after it.
abbrev pub Answered : Type 0 → Type 0
Answered S = ℕ × S

module _ {S : Type 0} (db : UserDb S) (l : Library) (errors : Errors) where
  abbrev pub update_answer : S → Reply S → Answered S
  update_answer s (found s') = (201, s')
  update_answer s (refused err) =
      (if errors.is_no_documents err || err == "No data found" then 404 else 500, s)

  -- Step 5.1: the user with the new password.
  abbrev pub updated_user : User → User → String → User
  updated_user attempt user key = record {
    username = attempt.username;
    password = l.encode key;
    salt = user.salt;
    iterations = user.iterations;
    key_len = user.key_len;
    hash_function = user.hash_function;
    new_password = "";
    confirm_new_password = "";
  }

  -- Step 5, with the key of the new password.
  abbrev pub with_new_key : User → User → S → Option String → Option (Answered S)
  with_new_key attempt user s none = none
  with_new_key attempt user s (some key) =
      some (update_answer s (db.update attempt.username (updated_user attempt user key) s))

  -- The end of step 4, with the key of the password.
  abbrev pub with_key :
      User → User → HashFunction → String → S → Option String → Option (Answered S)
  with_key attempt user h salt s none = none
  with_key attempt user h salt s (some key) =
      if l.encode key == user.password
      then with_new_key attempt user s
          (l.shared_key h attempt.new_password salt user.iterations user.key_len)
      else some (401, s)

  -- Steps 4 and 5, with the hash function and the salt of the user.
  abbrev pub with_salt : User → User → HashFunction → S → Reply String → Option (Answered S)
  with_salt attempt user h s (refused err) = some (500, s)
  with_salt attempt user h s (found salt) =
      with_key attempt user h salt s
        (l.shared_key h attempt.password salt user.iterations user.key_len)

  abbrev pub with_hash : User → User → S → Option HashFunction → Option (Answered S)
  with_hash attempt user s none = some (500, s)
  with_hash attempt user s (some h) = with_salt attempt user h s (l.decode user.salt)

  abbrev pub with_user : User → S → Reply User → Option (Answered S)
  with_user attempt s (refused err) =
      some (if errors.is_mgo_not_found err || err == "No data found" then 404 else 500, s)
  with_user attempt s (found user) =
      with_hash attempt user s (get_valid_hash (l.to_lower user.hash_function))

  -- `UpdateUser`, given what `Bind` returns; `none` is a panic.
  unfoldable pub update_user : Reply User → S → Option (Answered S)
  update_user (refused err) s = some (400, s)
  update_user (found attempt) s =
      if attempt.password == "" || attempt.username == "" || attempt.new_password == ""
      then some (400, s)
      else if not (attempt.new_password == attempt.confirm_new_password)
      then some (400, s)
      else with_user attempt s (db.find attempt.username s)
