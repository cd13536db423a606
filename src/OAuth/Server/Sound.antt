-- ===== src/OAuth/Server/Sound.antt =====
-- Sequences of calls of the authorization server (internal/service/oauth.go) keep its tables sound.
use redlaunch.Base.{List, [], ◌∷◌}
use redlaunch.OAuth.Types.{Platform}
use redlaunch.OAuth.Store.Tokens.{insert_api_token, touch_api_token_last_used, delete_api_token}
use redlaunch.OAuth.Store.Sound.{IsSound, insert_api_token-IsSound}
use redlaunch.OAuth.Store.Transactions.{touch_api_token_last_used-IsSound, delete_api_token-IsSound}
use redlaunch.OAuth.Server.State.{Server}
use redlaunch.OAuth.Server.Calls.{
  Call, register, complete, exchange, revoke, disconnect, add_token, use_token, drop_token, step,
  run_calls,
}
use redlaunch.OAuth.Server.Cases.{
  committed-cases, inserted-cases, exchange_token-cases, revoke_token-cases,
  revoke_connection-cases, register_client-cases,
}
use redlaunch.OAuth.Server.Kept.{
  HasSoundTables, store_client-IsSound, complete_authorization-IsSound,
  exchange_authorization_code-IsSound, refresh_access_token-IsSound, revoked-IsSound,
}

step-IsSound : (p : Platform) (call : Call) (s : Server) → IsSound s.db → IsSound (step p call s).db
unfolding step
step-IsSound p (register now secret input) s h =
    register_client-cases HasSoundTables p now secret input s h
      (λ checked. store_client-IsSound now secret s checked h)
step-IsSound p (complete now code origin request approved) s h =
    complete_authorization-IsSound p now code origin request approved s h
step-IsSound p (exchange now secrets request) s h =
    exchange_token-cases HasSoundTables p now secrets request s h
      (exchange_authorization_code-IsSound p now secrets request s h)
      (refresh_access_token-IsSound p now secrets request s h)
step-IsSound p (revoke token) s h =
    revoke_token-cases HasSoundTables p token s h (λ id. revoked-IsSound id s h)
step-IsSound p (disconnect id) s h =
    revoke_connection-cases HasSoundTables id s h (revoked-IsSound id s h)
step-IsSound p (add_token now item) s h =
    inserted-cases HasSoundTables s (insert_api_token now s.db item)
      (λ t db e. insert_api_token-IsSound now s.db item t db e h) h
step-IsSound p (use_token id at) s h =
    committed-cases HasSoundTables s (touch_api_token_last_used s.db id at)
      (λ db e. touch_api_token_last_used-IsSound s.db id at db e h) h
step-IsSound p (drop_token id) s h =
    committed-cases HasSoundTables s (delete_api_token s.db id)
      (λ db e. delete_api_token-IsSound s.db id db e h) h

-- If every grant has its access token and its client, ids are below the next ones, the grants' ids,
-- the tokens' ids and the tokens' hashes are distinct, and no refresh token outlives the end of its grant, then the
-- same holds after any sequence of calls of the authorization server and changes of API tokens.
pub run_calls-IsSound :
    (p : Platform) (calls : List Call) (s : Server)
    → IsSound s.db
    → IsSound (run_calls p calls s).db
unfolding run_calls
run_calls-IsSound p [] s h = h
run_calls-IsSound p (call ∷ calls) s h =
    run_calls-IsSound p calls (step p call s) (step-IsSound p call s h)
