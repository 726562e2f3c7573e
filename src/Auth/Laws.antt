-- ===== src/Auth/Laws.antt =====
-- The login of the default user, and the change of a password by `UpdateUser`.
use husky_ci.Base.{ℤ, String, ◌==◌, ◌≡◌, ◌≢◌, false, Option, none, some}
use husky_ci.Base.Reply.{Reply, found, refused}
use husky_ci.Types.{User}
use husky_ci.Token.Defs.{HashFunction, get_valid_hash}
use husky_ci.Database.Requests.{is_zero}
use husky_ci.Auth.Login.{Library, UserDb}
use husky_ci.Auth.Users.{Answered}

-- A user that was inserted is found under its name, where no user of this name was found before.
abbrev pub FindsInserted : {S : Type 0} → UserDb S → Type 0
FindsInserted {S} db =
    (u : User) (err : String) (s s' : S)
    → db.find u.username s ≡ refused err
    → db.insert u s ≡ found s'
    → db.find u.username s' ≡ found u

-- The parameters with which `GetHashedPass` computes.
pub record IsUsable (l : Library) (u : User) (h : HashFunction) (salt : String) : Type 0 where
  pub hash : get_valid_hash (l.to_lower u.hash_function) ≡ some h
  pub salted : (u.salt == "") ≡ false
  pub iterated : is_zero u.iterations ≡ false
  pub sized : is_zero u.key_len ≡ false
  pub decoded : l.decode u.salt ≡ found salt

-- `pbkdf2.Key` panics with a function that returns one instance of the hash: `hmac.New` of Go
-- refuses a function that does not give unique values.
abbrev pub PanicsOnShared : Library → Type 0
PanicsOnShared l =
    (h : HashFunction) (password salt : String) (iterations key_len : ℤ)
    → l.shared_key h password salt iterations key_len ≡ none

-- A panic, or an answer that is no 201, the state being as it was.
abbrev pub ChangesNothing : {S : Type 0} → S → Option (Answered S) → Type 0
ChangesNothing s none = Unit
ChangesNothing s (some (status, s')) = (status ≢ 201) × (s' ≡ s)
