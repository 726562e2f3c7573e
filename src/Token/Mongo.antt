-- ===== src/Token/Mongo.antt =====
-- The calls of api/token/generator.go to the database, over MongoDB, and what becomes of the
-- deactivation of a token there.
use husky_ci.Base.{String, ◌≡◌, refl, true, false, Option, none, some, [], ◌∷◌, ap}
use husky_ci.Base.Reply.{Reply, found, refused, ◌>>=◌}
use husky_ci.Types.{User, DbToken}
use husky_ci.Database.Rows.{text, flag, Row, access_token_row}
use husky_ci.Database.Mongo.{
  Collection, Filter, document, and_query, user_document, find_one_access_token,
  insert_access_token, update_one_access_token, update_one_user,
}
use husky_ci.Token.Defs.{Crypto, TokenDb, get_splitted, invalidate}

abbrev state_of : {S : Type 0} → Option String × S → Reply S
state_of (none, s) = found s
state_of (some err, s) = refused err

abbrev error_of {ℓ} : {A : Type ℓ} → Reply A → Option String
error_of (found a) = none
error_of (refused err) = some err

module _ {S : Type 0} (db : Collection S) (decode : Row → Reply DbToken) (now : String) where
  -- `StoreAccessToken`
  unfoldable pub store_access_token : DbToken → S → Reply S
  store_access_token t s = state_of (insert_access_token db t (some now) s)

  -- `FindAccessToken`
  unfoldable pub find_access_token : String → S → Reply DbToken
  find_access_token id s = find_one_access_token db decode (("uuid", text id) ∷ []) s

  -- `FindRepoURL`
  unfoldable pub find_repo_url : String → S → Option String
  find_repo_url url s = error_of (
      find_one_access_token db decode (("repositoryURL", text url) ∷ ("isValid", flag true) ∷ []) s)

  -- `UpdateAccessToken`
  unfoldable pub update_access_token : String → DbToken → S → Reply S
  update_access_token id t s =
      state_of (update_one_access_token db (("uuid", text id) ∷ []) t (some now) s)

  -- `TCaller`
  abbrev pub mongo_tokens : TokenDb S
  mongo_tokens = record {
    store = store_access_token;
    find = find_access_token;
    update = update_access_token;
    find_repo = find_repo_url;
  }

-- `UpdateOne` of the driver refuses an update that is a plain document, whose first key does not
-- begin with a dollar sign, and writes nothing.
abbrev pub RefusesDocuments : {S : Type 0} → Collection S → Type 0
RefusesDocuments {S} db =
    (collection : String) (filter : Filter) (row : Row) (s : S)
    → (err : String) × (db.update_one collection filter (document row) s ≡ (some err, s))

refuses_bind :
    {A B : Type 0} (m : Reply A) (f : A → Reply B)
    → ((a : A) → (err : String) × (f a ≡ refused err))
    → (err : String) × ((m >>= f) ≡ refused err)
refuses_bind (found a) f h = h a
refuses_bind (refused err) f h = (err, refl)

module _ {S : Type 0} (db : Collection S) (decode : Row → Reply DbToken) (now : String)
    (refuses : RefusesDocuments db) where
  update-refused :
      (id : String) (t : DbToken) (s : S)
      → (err : String) × (update_access_token db decode now id t s ≡ refused err)
  unfolding update_access_token update_one_access_token
  update-refused id t s =
      let (err, e) =
        refuses "accessToken" (and_query (("uuid", text id) ∷ [])) (access_token_row t (some now))
          s in
      (err, ap state_of e)

-- With MongoDB no access token is ever deactivated: under the condition that the driver refuses
-- an update without an operator, `InvalidateToken` returns an error for every token, and so does
-- `UpdateOneDBUser` for every user, which leaves the database as it was. Both hand over the
-- struct itself, without `$set`.
pub mongo_never_deactivates :
    {S : Type 0} (db : Collection S) (decode : Row → Reply DbToken) (now : String)
    → RefusesDocuments db
    → (c : Crypto) (token : String) (params : Row) (u : User) (s : S)
    → ((err : String) × (invalidate (mongo_tokens db decode now) c token s ≡ refused err))
      × ((err : String) × (update_one_user db params u s ≡ (some err, s)))
unfolding invalidate update_one_user
mongo_never_deactivates db decode now refuses c token params u s = (
  refuses_bind (get_splitted c token) _ (λ parts.
      refuses_bind (find_access_token db decode now parts.0 s) _ (λ stored.
        update-refused db decode now refuses parts.0 (record stored { is_valid = false }) s)),
  refuses "user" (and_query params) (user_document u) s,
)
