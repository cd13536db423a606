-- ===== src/OAuth/Server/Pending.antt =====
-- What the calls do to the pending codes (internal/service/oauth.go).
use redlaunch.Base.{
  ℕ, Bool, List, [], ◌∷◌, Option, none, some, Text, text_eq_iff, Result, ok, err, ◌≡◌, ◌≢◌, refl,
  arith,
}
use redlaunch.Base.Assoc.{Table, lookup, erase, retain, lookup-erase, lookup-insert}
use redlaunch.OAuth.Types.{
  Platform, Time, TokenRequest, Error, Authorization, Grant, Registration, AuthorizationRequest,
}
use redlaunch.OAuth.Server.State.{PendingCode, Server, Secrets}
use redlaunch.OAuth.Server.Register.{register_client, store_client}
use redlaunch.OAuth.Server.Authorize.{
  complete_authorization, complete_valid, issue_code, live_code, pending_code,
  validate_authorization,
}
use redlaunch.OAuth.Server.Exchange.{exchange_pending, exchange_authorization_code, grant_tokens}
use redlaunch.OAuth.Server.Refresh.{
  reject_grant, rotate_refresh_token, replay_or_reject, refresh_grant, refresh_presented,
  refresh_access_token,
}
use redlaunch.OAuth.Server.Connections.{exchange_token, revoke_token, revoke_connection}
use redlaunch.OAuth.Server.Calls.{
  Call, register, complete, exchange, revoke, disconnect, add_token, use_token, drop_token, step,
  run_calls,
}

-- the code with the hash cannot be exchanged
abbrev pub IsUsed : Text → Server → Type 0
IsUsed key s = lookup key s.pending ≡ none

-- the call does not issue the code with the hash
abbrev pub Spares : Platform → Text → Call → Type 0
Spares p key (complete now code origin request approved) = p.sha256 code ≢ key
Spares p key call = Unit

abbrev pub AllSpare : Platform → Text → List Call → Type 0
AllSpare p key [] = Unit
AllSpare p key (call ∷ calls) = Spares p key call × AllSpare p key calls

lookup-retain-none :
    (keep : PendingCode → Bool) (key : Text) (m : Table PendingCode)
    → lookup key m ≡ none
    → lookup key (retain keep m) ≡ none
unfolding lookup retain
lookup-retain-none keep key [] h = refl
lookup-retain-none keep key ((j, v) ∷ m) h = ground (arith, lookup-retain-none keep key m)

grant_tokens-pending :
    (p : Platform) (now : Time) (secrets : Secrets) (a : Authorization) (s : Server)
    → (grant_tokens p now secrets a s).1.pending ≡ s.pending
unfolding grant_tokens
grant_tokens-pending p now secrets a s = ground arith

pub exchange_pending-pending :
    (p : Platform) (now : Time) (secrets : Secrets) (request : TokenRequest)
    (found : Option PendingCode) (s : Server)
    → (exchange_pending p now secrets request found s).1.pending ≡ s.pending
unfolding exchange_pending
exchange_pending-pending p now secrets request none s = refl
exchange_pending-pending p now secrets request (some c) s =
    ground (arith, grant_tokens-pending p now secrets c.authorization s)

reject_grant-pending : (id : ℕ) (s : Server) → (reject_grant id s).1.pending ≡ s.pending
unfolding reject_grant
reject_grant-pending id s = ground arith

rotate_refresh_token-pending :
    (p : Platform) (now : Time) (secrets : Secrets) (grant : Grant) (hash : Text) (s : Server)
    → (rotate_refresh_token p now secrets grant hash s).1.pending ≡ s.pending
unfolding rotate_refresh_token
rotate_refresh_token-pending p now secrets grant hash s = ground arith

refresh_grant-pending :
    (p : Platform) (now : Time) (secrets : Secrets) (request : TokenRequest) (hash : Text)
    (grant : Grant) (superseded : Bool) (s : Server)
    → (refresh_grant p now secrets request hash grant superseded s).1.pending ≡ s.pending
unfolding refresh_grant replay_or_reject
refresh_grant-pending p now secrets request hash grant superseded s = ground (
  arith,
  reject_grant-pending grant.id s,
  rotate_refresh_token-pending p now secrets grant hash s,
)

refresh_access_token-pending :
    (p : Platform) (now : Time) (secrets : Secrets) (request : TokenRequest) (s : Server)
    → (refresh_access_token p now secrets request s).1.pending ≡ s.pending
unfolding refresh_access_token refresh_presented
refresh_access_token-pending p now secrets request s =
    ground (arith, refresh_grant-pending p now secrets request)

store_client-pending :
    (now : Time) (secret : Text) (s : Server) (checked : Text × List Text)
    → (store_client now secret s checked).1.pending ≡ s.pending
unfolding store_client
store_client-pending now secret s (name, uris) = ground arith

register_client-IsUsed :
    (p : Platform) (key : Text) (now : Time) (secret : Text) (input : Registration) (s : Server)
    → IsUsed key s
    → IsUsed key (register_client p now secret input s).1
unfolding register_client
register_client-IsUsed p key now secret input s h =
    ground (arith, store_client-pending now secret s)

issue_code-IsUsed :
    (p : Platform) (key : Text) (now : Time) (code : Text) (a : Authorization) (s : Server)
    → p.sha256 code ≢ key
    → IsUsed key s
    → IsUsed key (issue_code p now code a s).1
unfolding issue_code
issue_code-IsUsed p key now code a s d h =
    let live = retain (live_code now) s.pending in
    let added = lookup-insert (p.sha256 code) key (pending_code now a) live in
    ground (
      arith,
      text_eq_iff (p.sha256 code) key,
      added,
      lookup-retain-none (live_code now) key s.pending h,
    )

complete_valid-IsUsed :
    (p : Platform) (key : Text) (now : Time) (code : Text) (approved : Bool) (s : Server)
    (valid : Result Error Authorization)
    → p.sha256 code ≢ key
    → IsUsed key s
    → IsUsed key (complete_valid p now code approved s valid).1
unfolding complete_valid
complete_valid-IsUsed p key now code approved s (err e) d h = h
complete_valid-IsUsed p key now code approved s (ok a) d h =
    ground (arith, issue_code-IsUsed p key now code a s d h)

complete_authorization-IsUsed :
    (p : Platform) (key : Text) (now : Time) (code origin : Text) (request : AuthorizationRequest)
    (approved : Bool) (s : Server)
    → p.sha256 code ≢ key
    → IsUsed key s
    → IsUsed key (complete_authorization p now code origin request approved s).1
unfolding complete_authorization
complete_authorization-IsUsed p key now code origin request approved s d h =
    complete_valid-IsUsed p key now code approved s (validate_authorization p origin request s) d h

exchange_authorization_code-IsUsed :
    (p : Platform) (key : Text) (now : Time) (secrets : Secrets) (request : TokenRequest)
    (s : Server)
    → IsUsed key s
    → IsUsed key (exchange_authorization_code p now secrets request s).1
unfolding exchange_authorization_code
exchange_authorization_code-IsUsed p key now secrets request s h =
    let hash = p.sha256 request.code in
    let after : Server = record s { pending = erase hash s.pending } in
    ground (
      arith,
      exchange_pending-pending p now secrets request (lookup hash s.pending) after,
      lookup-erase hash key s.pending,
    )

exchange_token-IsUsed :
    (p : Platform) (key : Text) (now : Time) (secrets : Secrets) (request : TokenRequest)
    (s : Server)
    → IsUsed key s
    → IsUsed key (exchange_token p now secrets request s).1
unfolding exchange_token
exchange_token-IsUsed p key now secrets request s h = ground (
  arith,
  exchange_authorization_code-IsUsed p key now secrets request s h,
  refresh_access_token-pending p now secrets request s,
)

revoke_token-IsUsed :
    (p : Platform) (key token : Text) (s : Server)
    → IsUsed key s
    → IsUsed key (revoke_token p token s).1
unfolding revoke_token
revoke_token-IsUsed p key token s h = ground arith

revoke_connection-IsUsed :
    (p : Platform) (key : Text) (id : ℕ) (s : Server)
    → IsUsed key s
    → IsUsed key (revoke_connection id s).1
unfolding revoke_connection
revoke_connection-IsUsed p key id s h = ground arith

-- a used code stays used through any call that does not issue it again
pub step-IsUsed :
    (p : Platform) (key : Text) (call : Call) (s : Server)
    → Spares p key call
    → IsUsed key s
    → IsUsed key (step p call s)
unfolding step
step-IsUsed p key (register now secret input) s d h =
    register_client-IsUsed p key now secret input s h
step-IsUsed p key (complete now code origin request approved) s d h =
    complete_authorization-IsUsed p key now code origin request approved s d h
step-IsUsed p key (exchange now secrets request) s d h =
    exchange_token-IsUsed p key now secrets request s h
step-IsUsed p key (revoke token) s d h = revoke_token-IsUsed p key token s h
step-IsUsed p key (disconnect id) s d h = revoke_connection-IsUsed p key id s h
step-IsUsed p key (add_token now item) s d h = ground arith
step-IsUsed p key (use_token id at) s d h = ground arith
step-IsUsed p key (drop_token id) s d h = ground arith

pub run_calls-IsUsed :
    (p : Platform) (key : Text) (calls : List Call) (s : Server)
    → AllSpare p key calls
    → IsUsed key s
    → IsUsed key (run_calls p calls s)
unfolding run_calls
run_calls-IsUsed p key [] s d h = h
run_calls-IsUsed p key (call ∷ calls) s (d, ds) h =
    run_calls-IsUsed p key calls (step p call s) ds (step-IsUsed p key call s d h)
