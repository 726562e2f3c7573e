-- ===== src/Token/Laws.antt =====
-- What the tokens of api/token allow, over any database of tokens that keeps the laws of one.
use husky_ci.Base.{
  String, arith, ◌==◌, ◌≡◌, ◌∙◌, refl, true, ◌||◌, Option, none, some, [], ◌∷◌, split, ◌⧺◌, eq_refl,
}
use husky_ci.Base.Reply.{found, refused, >>=-eq-found, ensure-found, ensure-true}
use husky_ci.Types.{DbToken, TokenRequest}
use husky_ci.Token.Defs.{
  HashFunction, get_valid_hash, Crypto, Draw, TokenDb, get_hash_name, validate_url, get_splitted,
  validate_random, new_token, generate, validate, verify_repo, has_authorization, allows, the_hash,
}

-- What the database promises: a stored token is found by a UUID that was new, a found token has the
-- UUID that was asked for, and an updated token is found.
pub record DbLaws {S : Type 0} (db : TokenDb S) : Type 0 where
  pub find_store :
      (t : DbToken) (s s' : S) (err : String)
      → db.find t.uuid s ≡ refused err
      → db.store t s ≡ found s'
      → db.find t.uuid s' ≡ found t
  pub find_uuid : (uuid : String) (s : S) (t : DbToken) → db.find uuid s ≡ found t → t.uuid ≡ uuid
  pub find_update :
      (uuid : String) (t t' : DbToken) (s s' : S)
      → db.find uuid s ≡ found t
      → t'.uuid ≡ uuid
      → db.update uuid t' s ≡ found s'
      → db.find uuid s' ≡ found t'

module _ {S : Type 0} (db : TokenDb S) (c : Crypto) where
  -- What a validated token shows: its parts, and a stored token that is valid, that allows the
  -- repository, and whose hash is that of the random part.
  pub record IsGranted (token repo_url : String) (state : S) : Type 0 where
    url : String
    uuid : String
    random : String
    bytes : String
    stored : DbToken
    h : HashFunction
    url_ok : validate_url c repo_url ≡ found url
    parts : get_splitted c token ≡ found (uuid, random)
    known : db.find uuid state ≡ found stored
    valid : stored.is_valid ≡ true
    permitted : allows db c stored url ≡ true
    salted : c.decode_salt stored.salt ≡ found bytes
    hashing : get_valid_hash (get_hash_name c) ≡ some h
    same_hash : (c.hash random bytes == stored.husky_token) ≡ true

  the_hash-found : (o : Option HashFunction) {h : HashFunction} → the_hash o ≡ found h → o ≡ some h
  the_hash-found none e = cc
  the_hash-found (some g) e = cc

  -- A token that `ValidateToken` accepts for a repository URL has two parts, of which the first is
  -- the UUID of a stored token that is valid and is generic or for that URL, and the SHA-256
  -- hash of the second with the stored salt is the stored hash.
  pub validate-IsGranted :
      (token repo_url : String) (state : S)
      → validate db c token repo_url state ≡ found tt
      → IsGranted token repo_url state
  unfolding validate validate_random
  validate-IsGranted token repo_url state e =
      let (url, e₁, r₁) = >>=-eq-found _ _ e in
      let ((uuid, random), e₂, r₂) = >>=-eq-found _ _ r₁ in
      let (stored, e₃, r₃) = >>=-eq-found _ _ r₂ in
      let (e₄, r₄) = ensure-found _ _ _ r₃ in
      let (e₅, r₅) = ensure-found _ _ _ r₄ in
      let (bytes, e₆, r₆) = >>=-eq-found _ _ r₅ in
      let (h, e₇, r₇) = >>=-eq-found _ _ r₆ in
      let e₈ = ensure-true _ _ r₇ in
      record {
        url = url;
        uuid = uuid;
        random = random;
        bytes = bytes;
        stored = stored;
        h = h;
        url_ok = e₁;
        parts = e₂;
        known = e₃;
        valid = e₄;
        permitted = e₅;
        salted = e₆;
        hashing = the_hash-found _ e₇;
        same_hash = e₈;
      }

  module _ (laws : DbLaws db) (draw : Draw) (req : TokenRequest) (state state' : S)
      (url random salt bytes err : String)
      (valid_url : validate_url c req.repository_url ≡ found url)
      (drawn : draw.token ≡ found random) (salt_drawn : draw.salt ≡ found salt)
      (salt_decoded : c.decode_salt salt ≡ found bytes)
      (unused : db.find draw.uuid state ≡ refused err)
      (kept : db.store (new_token c url random salt bytes draw.uuid) state ≡ found state')
      (decodes : (m : String) → c.decode (c.encode m) ≡ found m)
      (separate : split (draw.uuid ⧺ ":" ⧺ random) 58 ≡ draw.uuid ∷ random ∷ []) where
    abbrev pub handed_out : String
    handed_out = c.encode (draw.uuid ⧺ ":" ⧺ random)

    generated : generate db c draw req state ≡ found (handed_out, state')
    unfolding generate
    generated = rw (valid_url, drawn, salt_drawn, salt_decoded, kept) refl

    its_parts : get_splitted c handed_out ≡ found (draw.uuid, random)
    unfolding get_splitted
    its_parts = rw (decodes, separate) refl

    url_allows : (url == "" || url == url) ≡ true
    url_allows = ground (arith, eq_refl url)

    -- The validation of a new token for its repository comes down to the check of its hash.
    validates_by_hash :
        validate db c handed_out req.repository_url state'
        ≡ validate_random c random (c.hash random bytes) salt
    unfolding validate
    validates_by_hash =
        rw (valid_url, its_parts, laws.find_store _ _ _ err unused kept, url_allows) refl

    pub generate-validate :
        (h : HashFunction)
        → get_valid_hash (get_hash_name c) ≡ some h
        → (generate db c draw req state ≡ found (handed_out, state'))
          × (validate db c handed_out req.repository_url state' ≡ found tt)
    unfolding validate_random
    generate-validate h known = (
      generated,
      validates_by_hash ∙ rw (salt_decoded, known, eq_refl (c.hash random bytes)) refl,
    )

  -- Where no token is known, neither for the repository nor a generic one, or the URL is refused,
  -- or the search for one fails, every token is authorized.
  pub unknown_repo_authorized :
      (token repo_url err : String) (state : S)
      → verify_repo db c repo_url state ≡ some err
      → has_authorization db c token repo_url state ≡ true
  unfolding has_authorization
  unknown_repo_authorized token repo_url err state e = ground (arith, e)
