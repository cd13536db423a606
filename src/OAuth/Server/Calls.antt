-- ===== src/OAuth/Server/Calls.antt =====
-- Sequences of calls. A call is taken as one step, and concurrent requests as one after the other;
-- between them the owner's pages create, use and delete API tokens (internal/store/api_tokens.go) in the
-- tables that the server shares.
use redlaunch.Base.{ℕ, Bool, List, [], ◌∷◌, Text, Result, ok, err}
use redlaunch.OAuth.Types.{
  Platform, Time, Registration, AuthorizationRequest, TokenRequest, Token, Error,
}
use redlaunch.OAuth.Store.Tables.{Db}
use redlaunch.OAuth.Store.Tokens.{insert_api_token, touch_api_token_last_used, delete_api_token}
use redlaunch.OAuth.Server.State.{Server, Secrets, committed}
use redlaunch.OAuth.Server.Register.{register_client}
use redlaunch.OAuth.Server.Authorize.{complete_authorization}
use redlaunch.OAuth.Server.Connections.{exchange_token, revoke_token, revoke_connection}

pub data Call : Type 0 where
  register : Time → Text → Registration → Call
  complete : Time → Text → Text → AuthorizationRequest → Bool → Call
  exchange : Time → Secrets → TokenRequest → Call
  revoke : Text → Call
  disconnect : ℕ → Call
  add_token : Time → Token → Call
  use_token : ℕ → Time → Call
  drop_token : ℕ → Call

abbrev pub inserted : Server → Result Error (Token × Db) → Server
inserted s (err e) = s
inserted s (ok (token, db)) = record s { db = db }

unfoldable pub step : Platform → Call → Server → Server
step p (register now secret input) s = (register_client p now secret input s).1
step p (complete now code origin request approved) s =
    (complete_authorization p now code origin request approved s).1
step p (exchange now secrets request) s = (exchange_token p now secrets request s).1
step p (revoke token) s = (revoke_token p token s).1
step p (disconnect id) s = (revoke_connection id s).1
step p (add_token now item) s = inserted s (insert_api_token now s.db item)
step p (use_token id at) s = committed s (touch_api_token_last_used s.db id at)
step p (drop_token id) s = committed s (delete_api_token s.db id)

-- the state after the calls
unfoldable pub run_calls : Platform → List Call → Server → Server
unfolding step
run_calls p [] s = s
run_calls p (call ∷ calls) s = run_calls p calls (step p call s)
