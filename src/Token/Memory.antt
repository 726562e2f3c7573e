-- ===== src/Token/Memory.antt =====
-- A database of access tokens as a list, the newest first: an implementation of the interface.
use husky_ci.Base.{
  String, ◌==◌, ◌≡◌, ◌∙◌, sym, refl, true, false, List, [], ◌∷◌, if◌then◌else◌, eq_refl, eq_iff,
  Bool-cases, inl, inr, Option, none, some,
}
use husky_ci.Base.Reply.{Reply, found, refused}
use husky_ci.Types.{DbToken}
use husky_ci.Token.Defs.{TokenDb}
use husky_ci.Token.Laws.{DbLaws}

abbrev pub find_token : String → List DbToken → Reply DbToken
find_token uuid [] = refused "No data found"
find_token uuid (t ∷ ts) = let rest = find_token uuid ts in if t.uuid == uuid then found t else rest

abbrev consed : DbToken → Reply (List DbToken) → Reply (List DbToken)
consed t (found ts) = found (t ∷ ts)
consed t (refused err) = refused err

abbrev pub update_token : String → DbToken → List DbToken → Reply (List DbToken)
update_token uuid new [] = refused "No data found"
update_token uuid new (t ∷ ts) =
    let rest = update_token uuid new ts in
    if t.uuid == uuid then found (new ∷ ts) else consed t rest

abbrev pub find_url : String → List DbToken → Option String
find_url url [] = some "No data found"
find_url url (t ∷ ts) =
    let rest = find_url url ts in if t.is_valid then if t.url == url then none else rest else rest

abbrev pub memory : TokenDb (List DbToken)
memory = record {
  store = λ t ts. found (t ∷ ts);
  find = find_token;
  update = update_token;
  find_repo = find_url;
}

module _ (uuid : String) (u : DbToken) (ts : List DbToken) where
  find-hit : (u.uuid == uuid) ≡ true → find_token uuid (u ∷ ts) ≡ found u
  find-hit same = rw same refl

  find-miss : (u.uuid == uuid) ≡ false → find_token uuid (u ∷ ts) ≡ find_token uuid ts
  find-miss other = rw other refl

update-hit :
    (uuid : String) (u : DbToken) (ts : List DbToken) (t' : DbToken)
    → (u.uuid == uuid) ≡ true
    → update_token uuid t' (u ∷ ts) ≡ found (t' ∷ ts)
update-hit uuid u ts t' same = rw same refl

update-miss :
    (uuid : String) (u : DbToken) (ts : List DbToken) (t' : DbToken)
    → (u.uuid == uuid) ≡ false
    → update_token uuid t' (u ∷ ts) ≡ consed u (update_token uuid t' ts)
update-miss uuid u ts t' other = rw other refl

store-eq : (t : DbToken) (s s' : List DbToken) → memory.store t s ≡ found s' → t ∷ s ≡ s'
store-eq t s s' e = cc

find-uuid :
    (uuid : String) (ts : List DbToken) (t : DbToken) → find_token uuid ts ≡ found t → t.uuid ≡ uuid
find-uuid uuid [] t e = cc
find-uuid uuid (u ∷ ts) t e = elim (Bool-cases (u.uuid == uuid)) [
  | inl same ↦
      let e' : u ≡ t = cc (sym (find-hit uuid u ts same) ∙ e) in rw (← e') ((eq_iff _ _).0 same)
  | inr other ↦ find-uuid uuid ts t (sym (find-miss uuid u ts other) ∙ e)
]

consed-found :
    (u : DbToken) (r : Reply (List DbToken)) (ts : List DbToken)
    → consed u r ≡ found ts
    → (rest : List DbToken) × (r ≡ found rest) × (ts ≡ u ∷ rest)
consed-found u (found rest) ts e = (rest, refl, cc)
consed-found u (refused err) ts e = cc

find-update :
    (uuid : String) (ts : List DbToken) (t t' : DbToken) (ts' : List DbToken)
    → find_token uuid ts ≡ found t
    → t'.uuid ≡ uuid
    → update_token uuid t' ts ≡ found ts'
    → find_token uuid ts' ≡ found t'
find-update uuid [] t t' ts' e f g = cc
find-update uuid (u ∷ ts) t t' ts' e f g = elim (Bool-cases (u.uuid == uuid)) [
  | inl same ↦
      let same' : t' ∷ ts ≡ ts' = cc (sym (update-hit uuid u ts t' same) ∙ g) in
      rw (← same') (find-hit uuid t' ts (rw f (eq_refl uuid)))
  | inr other ↦
      let (rest, h, k) = consed-found u _ ts' (sym (update-miss uuid u ts t' other) ∙ g) in
      rw k (
        find-miss uuid u rest other
        ∙ find-update uuid ts t t' rest (sym (find-miss uuid u ts other) ∙ e) f h)
]

pub memory-DbLaws : DbLaws memory
memory-DbLaws = record {
  find_store = λ t s s' err e f. rw (← (store-eq t s s' f)) (find-hit t.uuid t s (eq_refl t.uuid));
  find_uuid = find-uuid;
  find_update = λ uuid t t' s s'. find-update uuid s t t' s';
}
