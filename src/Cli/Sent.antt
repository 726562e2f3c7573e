-- ===== src/Cli/Sent.antt =====
-- What `SendZip` has done when it returns no error.
use husky_ci.Base.{ℕ, ◌≡◌, refl, ap, subst, arith, String, ◌==◌, true, false, not, ◌⧺◌, eqb}
use husky_ci.Base.Reply.{Reply, found, refused, >>=-eq-found, ensure-found}
use husky_ci.Cli.Targets.{Current}
use husky_ci.Cli.Send.{
  Remote, normalize_url, or_text, no_client, local_output, payload_of, rid_of, Sent, send_zip,
}

of_found : {A : Type 0} {a b : A} → found a ≡ found b → a ≡ b
of_found {A} {a} {b} h = ap (from a) h
  where
    from : A → Reply A → A
    from d (found x) = x
    from d (refused e) = d

equal : (m n : ℕ) → eqb m n ≡ true → m ≡ n
equal m n h = ground arith

differs : (s t : String) → not (s == t) ≡ true → (s == t) ≡ false
differs s t h = ground arith

-- The archive was uploaded and its analysis was started.
abbrev pub IsSent : Remote → String → Sent → Type 0
IsSent r id sent =
    (target : Current) × (r.target ≡ found target)
    × ((target.token == "") ≡ false)
    × ((zip_path : String) × (content : String) × (r.zip_path ≡ found zip_path)
        × (r.archive zip_path ≡ found content)
        × (r.upload (normalize_url target.endpoint ⧺ "/analysis/upload?rid=" ⧺ id) content
            ≡ found sent.uploaded))
    × (sent.uploaded.status ≡ 201)
    × (sent.id ≡ or_text id (r.text_at "rid" sent.uploaded.body))
    × (sent.payload.repository_url ≡ "file://" ⧺ sent.id)
    × ((body : String) × (r.marshal sent.payload ≡ found body)
        × (r.post (normalize_url target.endpoint ⧺ "/analysis") body ≡ found sent.started))
    × (sent.started.status ≡ 201)
    × ((sent.rid == "") ≡ false)

-- `SendZip` returns no error only if there is a token, the content of the archive at the path
-- of the compressed file was uploaded under the client's identifier and answered with 201, the analysis of the file with the identifier of that answer was
-- then asked for and answered with 201 too, and the API has named it.
pub send_zip-IsSent :
    (r : Remote) (id path : String) (sent : Sent)
    → send_zip r id path ≡ found sent
    → IsSent r id sent
unfolding send_zip
send_zip-IsSent r id path sent h =
    let (target, e1, h1) = >>=-eq-found r.target _ h in
    let (token, h2) = ensure-found (not (target.token == "")) _ _ h1 in
    let (u, e3, h3) = >>=-eq-found (no_client r.client) _ h2 in
    let (zip_path, e4, h4) = >>=-eq-found r.zip_path _ h3 in
    let (content, e5, h5) = >>=-eq-found (r.archive zip_path) _ h4 in
    let (uploaded, e6, h6) =
      >>=-eq-found (r.upload (normalize_url target.endpoint ⧺ "/analysis/upload?rid=" ⧺ id) content)
        _ h5 in
    let (created, h7) = ensure-found (eqb uploaded.status 201) _ _ h6 in
    let id' = or_text id (r.text_at "rid" uploaded.body) in
    let payload = payload_of id' (local_output r path) in
    let (body, e8, h8) = >>=-eq-found (r.marshal payload) _ h7 in
    let (started, e9, h9) =
      >>=-eq-found (r.post (normalize_url target.endpoint ⧺ "/analysis") body) _ h8 in
    let (begun, h10) = ensure-found (eqb started.status 201) _ _ h9 in
    let (given, h11) = ensure-found (not (rid_of r started == "")) _ _ h10 in
    subst (IsSent r id) (of_found h11) (
      target,
      e1,
      differs target.token "" token,
      (zip_path, content, e4, e5, e6),
      equal uploaded.status 201 created,
      refl,
      refl,
      (body, e8, e9),
      equal started.status 201 begun,
      differs (rid_of r started) "" given,
    )
