-- ===== src/OAuth/Server/Codes.antt =====
-- Authorization codes (internal/service/oauth.go): a code is used once, by the client it was issued to.
use redlaunch.Base.{
  true, false, List, Option, none, some, text_eq_iff, ok, err, ◌≡◌, ◌<◌, refl, arith,
}
use redlaunch.Base.Assoc.{lookup, erase, lookup-erase}
use redlaunch.OAuth.Types.{Platform, Time, TokenRequest, TokenResponse, invalid_grant}
use redlaunch.OAuth.Texts.{verify_oauth_pkce}
use redlaunch.OAuth.Server.State.{PendingCode, Server, Secrets}
use redlaunch.OAuth.Server.Exchange.{
  fields_missing, check_exchange, exchange_pending, exchange_authorization_code,
}
use redlaunch.OAuth.Server.Calls.{Call, run_calls}
use redlaunch.OAuth.Server.Pending.{IsUsed, AllSpare, exchange_pending-pending, run_calls-IsUsed}

exchange_authorization_code-uses :
    (p : Platform) (now : Time) (secrets : Secrets) (request : TokenRequest) (s : Server)
    → fields_missing request ≡ false
    → IsUsed (p.sha256 request.code) (exchange_authorization_code p now secrets request s).1
unfolding exchange_authorization_code
exchange_authorization_code-uses p now secrets request s h =
    let hash = p.sha256 request.code in
    let after : Server = record s { pending = erase hash s.pending } in
    ground (
      arith,
      exchange_pending-pending p now secrets request (lookup hash s.pending) after,
      lookup-erase hash hash s.pending,
      text_eq_iff hash hash,
    )

used_code_refused :
    (p : Platform) (now : Time) (secrets : Secrets) (request : TokenRequest) (s : Server)
    → fields_missing request ≡ false
    → IsUsed (p.sha256 request.code) s
    → let answer = exchange_authorization_code p now secrets request s in
      (answer.0 ≡ err invalid_grant) × (answer.1.db ≡ s.db)
unfolding exchange_authorization_code exchange_pending
used_code_refused p now secrets request s h used = ground arith

-- An exchange of a code that names all required fields uses the code up, whether it succeeds or not:
-- after it and any sequence of calls that does not issue a code with the same hash, another exchange
-- of the code with all fields fails with invalid_grant and leaves the tables as they were.
pub exchange_code_once :
    (p : Platform) (now later : Time) (secrets secrets' : Secrets) (request again : TokenRequest)
    (calls : List Call) (s : Server)
    → fields_missing request ≡ false
    → fields_missing again ≡ false
    → again.code ≡ request.code
    → AllSpare p (p.sha256 request.code) calls
    → let between = run_calls p calls (exchange_authorization_code p now secrets request s).1 in
      let answer = exchange_authorization_code p later secrets' again between in
      (answer.0 ≡ err invalid_grant) × (answer.1.db ≡ between.db)
exchange_code_once p now later secrets secrets' request again calls s h k same spares =
    let first = exchange_authorization_code p now secrets request s in
    let used =
      run_calls-IsUsed p (p.sha256 request.code) calls first.1 spares
        (exchange_authorization_code-uses p now secrets request s h) in
    used_code_refused p later secrets' again (run_calls p calls first.1) k (rw same used)

-- what an exchange that succeeds has checked of the pending code
abbrev pub IsGranted : Platform → Time → TokenRequest → PendingCode → Type 0
IsGranted p now request code =
    (now < code.expires_at)
    × (code.authorization.client.id ≡ request.client_id)
    × (code.authorization.redirect_uri ≡ request.redirect_uri)
    × (code.authorization.resource.uri ≡ request.resource)
    × (verify_oauth_pkce p request.code_verifier code.authorization.code_challenge ≡ true)

pub check_exchange-IsGranted :
    (p : Platform) (now : Time) (request : TokenRequest) (code : PendingCode)
    → check_exchange p now request code ≡ ok tt
    → IsGranted p now request code
unfolding check_exchange
check_exchange-IsGranted p now request code h = ground (
  arith,
  text_eq_iff code.authorization.client.id request.client_id,
  text_eq_iff code.authorization.redirect_uri request.redirect_uri,
  text_eq_iff request.resource code.authorization.resource.uri,
)

exchange_pending_checks :
    (p : Platform) (now : Time) (secrets : Secrets) (request : TokenRequest)
    (found : Option PendingCode) (s : Server) (response : TokenResponse)
    → (exchange_pending p now secrets request found s).0 ≡ ok response
    → (code : PendingCode) × (found ≡ some code) × IsGranted p now request code
unfolding exchange_pending
exchange_pending_checks p now secrets request none s response h = ground arith
exchange_pending_checks p now secrets request (some code) s response h =
    let checked : check_exchange p now request code ≡ ok tt = ground arith in
    (code, refl, check_exchange-IsGranted p now request code checked)

-- An exchange that succeeds presents a code that was pending, and does so before the code expires,
-- for the client, the redirect URI and the resource that the owner approved, with a verifier that
-- matches the code challenge.
pub exchange_checks_code :
    (p : Platform) (now : Time) (secrets : Secrets) (request : TokenRequest) (s : Server)
    (response : TokenResponse)
    → (exchange_authorization_code p now secrets request s).0 ≡ ok response
    → (code : PendingCode) × (lookup (p.sha256 request.code) s.pending ≡ some code)
      × IsGranted p now request code
unfolding exchange_authorization_code
exchange_checks_code p now secrets request s response h =
    let hash = p.sha256 request.code in
    let after : Server = record s { pending = erase hash s.pending } in
    exchange_pending_checks p now secrets request (lookup hash s.pending) after response
      (ground arith)
