-- ===== src/OAuth/Server/Issued.antt =====
-- Issued tokens (internal/service/oauth.go): the access token of an exchange is accepted for its resource.
use redlaunch.Base.{
  ℕ, ◌<◌, true, false, ◌&&◌, [], ◌∷◌, ◌++◌, Option, none, some, Text, text_eq, text_eq_iff, ◌==◌,
  Result, ok, err, ◌≡◌, refl, ap, subst, ◌∙◌, arith, is_blank, Bool-cases, inl, inr,
}
use redlaunch.Base.Assoc.{lookup, erase}
use redlaunch.OAuth.Types.{
  Platform, Grant, Token, Time, Error, Authorization, TokenRequest, TokenResponse,
}
use redlaunch.OAuth.Store.Tables.{Db, some_row}
use redlaunch.OAuth.Store.Tokens.{stored_token, with_token}
use redlaunch.OAuth.Store.Grants.{
  stored_grant, with_grant, create_oauth_grant, get_oauth_grant_by_access_token_hash,
}
use redlaunch.OAuth.Store.Rows.{
  All-first, first-some, some_row-first, some_row_contra, some_row-append, some_row-append_last,
  first-append_right, first-only, some_row-none,
}
use redlaunch.OAuth.Store.Sound.{IsSound, IsHeld}
use redlaunch.OAuth.Store.Granting.{create_oauth_grant_stored}
use redlaunch.OAuth.Server.State.{PendingCode, Server, Secrets, access_token}
use redlaunch.OAuth.Server.Exchange.{
  check_exchange, exchange_pending, exchange_authorization_code, grant_tokens, answer_grant,
  fields_missing, issued_grant,
}
use redlaunch.OAuth.Server.Connections.{validate_access_token_resource}
use redlaunch.OAuth.Server.Codes.{check_exchange-IsGranted}

pub token_id-below :
    (id : ℕ) (db : Db)
    → IsSound db
    → some_row (λ (t : Token). t.id == id) db.tokens ≡ true
    → id < db.next_token_id
token_id-below id db sound held =
    let (t, found) = some_row-first (λ (t : Token). t.id == id) db.tokens held in
    let hit = first-some (λ (t : Token). t.id == id) db.tokens found in
    let below =
      All-first (λ (t : Token). t.id < db.next_token_id) (λ (t : Token). t.id == id) db.tokens
        sound.token_ids found in
    ground arith

other_without :
    (hash : Text) (row : Token) (db : Db)
    → IsSound db
    → row.id ≡ db.next_token_id
    → some_row (λ (t : Token). text_eq t.token_hash hash) db.tokens ≡ false
    → (g : Grant) → IsHeld db.tokens g
    → some_row
        (λ (t : Token). t.id == g.access_token_id && text_eq t.token_hash hash)
        (db.tokens ++ row ∷ [])
      ≡ false
unfolding some_row
other_without hash row db sound last fresh g held =
    let test = λ (t : Token). t.id == g.access_token_id && text_eq t.token_hash hash in
    let below = token_id-below g.access_token_id db sound held in
    let before : some_row test db.tokens ≡ false =
      some_row_contra test (λ (t : Token). text_eq t.token_hash hash) (λ t e. ground arith)
        db.tokens fresh in
    ground (arith, some_row-append test db.tokens (row ∷ []))

-- no grant but the new one holds a token with the hash
others_without :
    (hash : Text) (row : Token) (db : Db)
    → IsSound db
    → row.id ≡ db.next_token_id
    → some_row (λ (t : Token). text_eq t.token_hash hash) db.tokens ≡ false
    → some_row
        (λ (g : Grant).
          some_row
            (λ (t : Token). t.id == g.access_token_id && text_eq t.token_hash hash)
            (db.tokens ++ row ∷ []))
        db.grants
      ≡ false
others_without hash row db sound last fresh =
    some_row-none _ (other_without hash row db sound last fresh) db.grants sound.held

-- a new grant is found by the hash of its access token
with_grant-by_hash :
    (g : Grant) (row : Token) (db : Db)
    → IsSound db
    → row.id ≡ db.next_token_id
    → g.access_token_id ≡ row.id
    → is_blank row.token_hash ≡ false
    → some_row (λ (t : Token). text_eq t.token_hash row.token_hash) db.tokens ≡ false
    → get_oauth_grant_by_access_token_hash (with_grant g (with_token row db)) row.token_hash
      ≡ some g
unfolding get_oauth_grant_by_access_token_hash
with_grant-by_hash g row db sound last holds filled fresh =
    let hash = row.token_hash in
    let test = λ (h : Grant).
      some_row (λ (t : Token). t.id == h.access_token_id && text_eq t.token_hash hash)
        (db.tokens ++ row ∷ []) in
    let own : test g ≡ true =
      some_row-append_last (λ (t : Token). t.id == g.access_token_id && text_eq t.token_hash hash)
        db.tokens row (ground (arith, text_eq_iff hash hash)) in
    let others = others_without hash row db sound last fresh in
    let alone = first-append_right test db.grants (g ∷ []) others in
    rw filled (alone ∙ first-only test g own)

-- the answer to the creation of a grant, when it succeeds
granted_db :
    (response r : TokenResponse) (s : Server) (created : Result Error (Grant × Token × Db))
    → (answer_grant response s created).0 ≡ ok r
    → (g : Grant) × (t : Token) × (db : Db) × (created ≡ ok (g, t, db))
      × (r ≡ response)
      × ((answer_grant response s created).1.db ≡ db)
unfolding answer_grant
granted_db response r s (err e) h = ground arith
granted_db response r s (ok (g, t, db)) h = (g, t, db, refl, ground arith, refl)

validate-found :
    (p : Platform) (token resource : Text) (s : Server) (g : Grant)
    → get_oauth_grant_by_access_token_hash s.db (p.sha256 token) ≡ some g
    → g.resource ≡ resource
    → validate_access_token_resource p token resource s ≡ ok tt
unfolding validate_access_token_resource
validate-found p token resource s g found same = ground (arith, text_eq_iff g.resource resource)

grant_tokens-valid :
    (p : Platform) (now : Time) (secrets : Secrets) (a : Authorization) (s : Server)
    (response : TokenResponse)
    → IsSound s.db
    → (grant_tokens p now secrets a s).0 ≡ ok response
    → validate_access_token_resource p response.access_token a.resource.uri
        (grant_tokens p now secrets a s).1
      ≡ ok tt
unfolding grant_tokens issued_grant access_token
grant_tokens-valid p now secrets a s response sound h =
    let issued = issued_grant p now secrets.refresh a in
    let item =
      access_token p now secrets.access a.client.name a.resource.scope a.resource.application_id in
    let row = stored_token now s.db item in
    let (g, t, db, created, same, after) =
      granted_db _ response s (create_oauth_grant now s.db issued item) h in
    let (stored, fresh, filled, known) =
      create_oauth_grant_stored now s.db issued item g t db created in
    let grant = stored_grant issued s.db.next_grant_id row.id in
    let found = with_grant-by_hash grant row s.db sound refl refl filled fresh in
    let tables : (grant_tokens p now secrets a s).1.db ≡ with_grant grant (with_token row s.db) =
      after ∙ stored in
    let key : p.sha256 response.access_token ≡ row.token_hash =
      ap (λ (r : TokenResponse). p.sha256 r.access_token) same in
    let looked : get_oauth_grant_by_access_token_hash (grant_tokens p now secrets a s).1.db
          (p.sha256 response.access_token)
        ≡ some grant =
      cc in
    validate-found p response.access_token a.resource.uri (grant_tokens p now secrets a s).1 grant
      looked refl

exchange_pending-valid :
    (p : Platform) (now : Time) (secrets : Secrets) (request : TokenRequest)
    (found : Option PendingCode) (s : Server) (response : TokenResponse)
    → IsSound s.db
    → (exchange_pending p now secrets request found s).0 ≡ ok response
    → validate_access_token_resource p response.access_token request.resource
        (exchange_pending p now secrets request found s).1
      ≡ ok tt
unfolding exchange_pending
exchange_pending-valid p now secrets request none s response sound h = ground arith
exchange_pending-valid p now secrets request (some code) s response sound h =
    let checked : check_exchange p now request code ≡ ok tt = ground arith in
    let (_, _, _, same, _) = check_exchange-IsGranted p now request code checked in
    let granted = grant_tokens-valid p now secrets code.authorization s response sound in
    let done : (grant_tokens p now secrets code.authorization s).0 ≡ ok response = ground arith in
    rw (checked, exchange_pending)
      (subst
        (λ uri.
          validate_access_token_resource p response.access_token uri
            (grant_tokens p now secrets code.authorization s).1
          ≡ ok tt)
        same (granted done))

-- If the tables are sound and an exchange of a code succeeds, the access token of its answer is
-- accepted for the resource of the request.
pub exchanged_token_valid :
    (p : Platform) (now : Time) (secrets : Secrets) (request : TokenRequest) (s : Server)
    (response : TokenResponse)
    → IsSound s.db
    → (exchange_authorization_code p now secrets request s).0 ≡ ok response
    → validate_access_token_resource p response.access_token request.resource
        (exchange_authorization_code p now secrets request s).1
      ≡ ok tt
unfolding exchange_authorization_code
exchanged_token_valid p now secrets request s response sound h =
    let hash = p.sha256 request.code in
    let after : Server = record s { pending = erase hash s.pending } in
    elim (Bool-cases (fields_missing request)) [
      | inl missing ↦ ground arith
      | inr given ↦
          let done : (exchange_pending p now secrets request (lookup hash s.pending) after).0
              ≡ ok response =
            ground arith in
          rw given (
            exchange_pending-valid p now secrets request (lookup hash s.pending) after response
              sound done)
    ]
