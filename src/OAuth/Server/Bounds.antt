-- ===== src/OAuth/Server/Bounds.antt =====
-- Sequences of calls of the authorization server (internal/service/oauth.go) keep its limits.
use redlaunch.Base.{ℕ, List, [], ◌∷◌, ok, ◌≡◌, arith}
use redlaunch.OAuth.Types.{Platform, Token, Time}
use redlaunch.OAuth.Store.Tables.{Db, delete_token}
use redlaunch.OAuth.Store.Tokens.{insert_api_token, touch_api_token_last_used, delete_api_token}
use redlaunch.OAuth.Server.State.{Server}
use redlaunch.OAuth.Server.Calls.{
  Call, register, complete, exchange, revoke, disconnect, add_token, use_token, drop_token, step,
  run_calls,
}
use redlaunch.OAuth.Server.Cases.{
  committed-cases, inserted-cases, exchange_token-cases, revoke_token-cases,
  revoke_connection-cases, register_client-cases,
}
use redlaunch.OAuth.Server.Limits.{
  IsBounded, same_clients, store_client-IsBounded, complete_authorization-IsBounded,
  exchange_authorization_code-IsBounded, refresh_access_token-IsBounded, revoked-IsBounded,
}

insert_api_token-clients :
    (now : Time) (db : Db) (item t : Token) (db' : Db)
    → insert_api_token now db item ≡ ok (t, db')
    → db'.clients ≡ db.clients
unfolding insert_api_token
insert_api_token-clients now db item t db' h = ground arith

touch_api_token_last_used-clients :
    (db : Db) (id : ℕ) (at : Time) (db' : Db)
    → touch_api_token_last_used db id at ≡ ok db'
    → db'.clients ≡ db.clients
unfolding touch_api_token_last_used
touch_api_token_last_used-clients db id at db' h = ground arith

delete_api_token-clients :
    (db : Db) (id : ℕ) (db' : Db) → delete_api_token db id ≡ ok db' → db'.clients ≡ db.clients
unfolding delete_api_token delete_token
delete_api_token-clients db id db' h = ground arith

step-IsBounded : (p : Platform) (call : Call) (s : Server) → IsBounded s → IsBounded (step p call s)
unfolding step
step-IsBounded p (register now secret input) s b =
    register_client-cases IsBounded p now secret input s b
      (λ checked. store_client-IsBounded now secret s checked b)
step-IsBounded p (complete now code origin request approved) s b =
    complete_authorization-IsBounded p now code origin request approved s b
step-IsBounded p (exchange now secrets request) s b =
    exchange_token-cases IsBounded p now secrets request s b
      (exchange_authorization_code-IsBounded p now secrets request s b)
      (refresh_access_token-IsBounded p now secrets request s b)
step-IsBounded p (revoke token) s b =
    revoke_token-cases IsBounded p token s b (λ id. revoked-IsBounded id s b)
step-IsBounded p (disconnect id) s b =
    revoke_connection-cases IsBounded id s b (revoked-IsBounded id s b)
step-IsBounded p (add_token now item) s b =
    inserted-cases IsBounded s (insert_api_token now s.db item)
      (λ t db e. same_clients s db (insert_api_token-clients now s.db item t db e) b) b
step-IsBounded p (use_token id at) s b =
    committed-cases IsBounded s (touch_api_token_last_used s.db id at)
      (λ db e. same_clients s db (touch_api_token_last_used-clients s.db id at db e) b) b
step-IsBounded p (drop_token id) s b =
    committed-cases IsBounded s (delete_api_token s.db id)
      (λ db e. same_clients s db (delete_api_token-clients s.db id db e) b) b

-- At most 500 clients are registered, at most 256 codes are pending and at most 256 replays are held,
-- if that is so before, after any sequence of calls, however many an unknown client makes.
pub run_calls-IsBounded :
    (p : Platform) (calls : List Call) (s : Server) → IsBounded s → IsBounded (run_calls p calls s)
unfolding run_calls
run_calls-IsBounded p [] s b = b
run_calls-IsBounded p (call ∷ calls) s b =
    run_calls-IsBounded p calls (step p call s) (step-IsBounded p call s b)
