-- ===== src/Tests/OAuthTests.antt =====
-- internal/service/oauth.go on a server with one client, one grant and one pending code. SHA-256 is
-- the identity here, which keeps the hashes apart.
use redlaunch.Base.{
  ◌≡◌, ◌≢◌, text_eq_iff, refl, inl, false, List, [], ◌∷◌, none, some, Text, codes, ok, err, arith,
  text_eq, len, every_char, is_hex, cut_prefix, trim_space,
}
use redlaunch.Base.Assoc.{retain, lookup, erase}
use redlaunch.OAuth.Types.{
  Platform, Client, Resource, manage, Token, Grant, Authorization, TokenRequest, TokenResponse,
  invalid_grant,
}
use redlaunch.OAuth.Texts.{
  verify_oauth_pkce, valid_oauth_code_verifier, valid_oauth_code_challenge,
  split_oauth_refresh_token, format_api_token, format_oauth_refresh_token, parse_oauth_resource,
}
use redlaunch.OAuth.Store.Tables.{Db, Superseded, first, some_row, application_allowed}
use redlaunch.OAuth.Store.Tokens.{insert_api_token}
use redlaunch.OAuth.Store.Grants.{
  rotate_oauth_grant, carried, last_use, rotate_rows, create_oauth_grant,
  get_oauth_grant_by_refresh_hash, get_oauth_grant_by_superseded_refresh_hash,
  get_oauth_grant_by_access_token_hash,
}
use redlaunch.OAuth.Store.Sound.{IsSound}
use redlaunch.OAuth.Server.State.{PendingCode, Server, Secrets, access_token}
use redlaunch.OAuth.Server.Exchange.{exchange_authorization_code, issued_grant}
use redlaunch.OAuth.Server.Refresh.{rotation_of, rotate_refresh_token, refresh_access_token}
use redlaunch.OAuth.Server.Replays.{rotation_replayed}
use redlaunch.OAuth.Server.Connections.{revoke_token, validate_access_token_resource}
use redlaunch.OAuth.Server.Calls.{Call, disconnect, revoke, run_calls}
use redlaunch.OAuth.Server.Codes.{exchange_code_once, exchange_checks_code, IsGranted}
use redlaunch.OAuth.Server.Sound.{run_calls-IsSound}
use redlaunch.OAuth.Server.Bounds.{run_calls-IsBounded}
use redlaunch.OAuth.Server.Limits.{IsBounded}
use redlaunch.OAuth.Server.Revocation.{reused_token_revokes, revoked_token_refused, IsGone}
use redlaunch.OAuth.Server.Issued.{exchanged_token_valid}

abbrev pub platform : Platform
platform = record {
  sha256 = λ t. t;
  sha256_base64 = λ t. t;
  parse_url = λ t. none;
  is_loopback_ip = λ t. false;
  to_lower = λ t. t;
  query = λ u. [];
  with_query = λ u q. [];
}

abbrev verifier : Text
verifier = codes "abcdefghijklmnopqrstuvwxyz01234567890123456"

abbrev client : Client
client = record {
  id = codes "rlc_1";
  name = codes "MCP client";
  redirect_uris = codes "https://a/cb" ∷ [];
  created_at = 0;
}

abbrev resource : Resource
resource = record { uri = codes "https://o/mcp/manage"; scope = manage; application_id = 0 }

abbrev authorization : Authorization
authorization = record {
  client = client;
  resource = resource;
  application_name = [];
  redirect_uri = codes "https://a/cb";
  state = [];
  code_challenge = verifier;
}

abbrev pub token : Token
token = record {
  id = 1;
  display_name = codes "MCP client";
  prefix = codes "rlr_00000000";
  token_hash = codes "rlr_0";
  application_id = 0;
  scope = manage;
  created_at = 1;
  expires_at = none;
  last_used_at = none;
}

abbrev old_refresh : Text
old_refresh = codes "rlrf_0123456789abcdef0123456789abcdef0123456789abcdef0123456789abcdef"

abbrev grant : Grant
grant = record {
  id = 1;
  client_id = codes "rlc_1";
  display_name = codes "MCP client";
  resource = codes "https://o/mcp/manage";
  scope = manage;
  application_id = 0;
  access_token_id = 1;
  refresh_token_hash = codes "new";
  previous_refresh_token_hash = codes "previous";
  rotated_at = 2;
  created_at = 1;
  refresh_idle_expires_at = 50;
  absolute_expires_at = 90;
}

abbrev older : Superseded
older = record { refresh_token_hash = old_refresh; grant_id = 1; superseded_at = 1 }

abbrev pub db : Db
db = record {
  clients = client ∷ [];
  grants = grant ∷ [];
  tokens = token ∷ [];
  superseded = older ∷ [];
  applications = [];
  next_grant_id = 2;
  next_token_id = 2;
}

db-IsSound : IsSound db
unfolding some_row text_eq
db-IsSound = record {
  held = (refl, tt);
  known = (refl, tt);
  timely = (omega arith, tt);
  grant_ids = (omega arith, tt);
  token_ids = (omega arith, tt);
  distinct_ids = (refl, tt);
  distinct_token_ids = (refl, tt);
  distinct_hashes = (refl, tt);
}

abbrev code : PendingCode
code = record { authorization = authorization; expires_at = 100 }

abbrev server : Server
server = record { db = db; pending = (codes "c0de", code) ∷ []; replays = [] }

abbrev secrets : Secrets
secrets = record { access = codes "aa"; refresh = codes "bb" }

abbrev request : TokenRequest
request = record {
  grant_type = codes "authorization_code";
  client_id = codes "rlc_1";
  code = codes "c0de";
  redirect_uri = codes "https://a/cb";
  code_verifier = verifier;
  refresh_token = [];
  resource = codes "https://o/mcp/manage";
}

abbrev response : TokenResponse
response = record {
  access_token = codes "rlr_aa";
  expires_in = 3600;
  refresh_token = codes "rlrf_bb";
  scope = manage;
}

exchanged : (exchange_authorization_code platform 5 secrets request server).0 ≡ ok response
unfolding exchange_authorization_code text_eq lookup erase verify_oauth_pkce
    valid_oauth_code_verifier valid_oauth_code_challenge len every_char create_oauth_grant
    insert_api_token some_row application_allowed format_api_token format_oauth_refresh_token
    access_token issued_grant
exchanged = refl

abbrev calls : List Call
calls = disconnect 1 ∷ revoke (codes "rlr_aa") ∷ []

exchange_code_once_example :
    let between =
      run_calls platform calls (exchange_authorization_code platform 5 secrets request server).1 in
    let answer = exchange_authorization_code platform 6 secrets request between in
    (answer.0 ≡ err invalid_grant) × (answer.1.db ≡ between.db)
exchange_code_once_example =
    exchange_code_once platform 5 6 secrets secrets request request calls server refl refl refl
      (tt, (tt, tt))

exchange_checks_code_example :
    (found : PendingCode) × (lookup (codes "c0de") server.pending ≡ some found)
    × IsGranted platform 5 request found
exchange_checks_code_example =
    exchange_checks_code platform 5 secrets request server response exchanged

exchanged_token_valid_example :
    validate_access_token_resource platform
      (codes "rlr_aa")
      (codes "https://o/mcp/manage")
      (exchange_authorization_code platform 5 secrets request server).1
    ≡ ok tt
exchanged_token_valid_example =
    exchanged_token_valid platform 5 secrets request server response db-IsSound exchanged

run_calls-IsSound_example : IsSound (run_calls platform calls server).db
run_calls-IsSound_example = run_calls-IsSound platform calls server db-IsSound

server-IsBounded : IsBounded server
server-IsBounded = record {
  few_clients = omega arith;
  few_codes = omega arith;
  few_replays = omega arith;
}

run_calls-IsBounded_example : IsBounded (run_calls platform calls server)
run_calls-IsBounded_example = run_calls-IsBounded platform calls server server-IsBounded

abbrev refresh_request : TokenRequest
refresh_request = record request {
  grant_type = codes "refresh_token";
  refresh_token = old_refresh;
  resource = [];
}

old_refresh-read : split_oauth_refresh_token old_refresh ≡ some old_refresh
unfolding split_oauth_refresh_token cut_prefix trim_space len is_hex
old_refresh-read = refl

reused_token_revokes_example :
    let answer = refresh_access_token platform 9 secrets refresh_request server in
    (answer.0 ≡ err invalid_grant) × IsGone grant answer.1.db
unfolding get_oauth_grant_by_refresh_hash get_oauth_grant_by_superseded_refresh_hash first some_row
    text_eq
reused_token_revokes_example =
    reused_token_revokes platform 9 secrets refresh_request server old_refresh grant db-IsSound
      old_refresh-read refl refl refl (inl refl)

revoked_token_refused_example :
    validate_access_token_resource platform
      (codes "rlr_0")
      (codes "https://o/mcp/manage")
      (revoke_token platform (codes "rlr_0") server).1
    ≡ err invalid_grant
unfolding get_oauth_grant_by_refresh_hash get_oauth_grant_by_superseded_refresh_hash
    get_oauth_grant_by_access_token_hash first some_row text_eq
revoked_token_refused_example =
    revoked_token_refused platform (codes "rlr_0") (codes "https://o/mcp/manage") server grant
      db-IsSound refl refl refl

manage_read : parse_oauth_resource (codes "https://o") (codes "https://o/mcp/manage") ≡ ok resource
unfolding parse_oauth_resource text_eq
manage_read = refl

abbrev fresh_grant : Grant
fresh_grant = record grant { refresh_token_hash = old_refresh; previous_refresh_token_hash = [] }

abbrev fresh_server : Server
fresh_server = record {
  db = record db { grants = fresh_grant ∷ []; superseded = [] };
  pending = [];
  replays = [];
}

fresh_db-IsSound : IsSound fresh_server.db
unfolding some_row text_eq
fresh_db-IsSound = record {
  held = (refl, tt);
  known = (refl, tt);
  timely = (omega arith, tt);
  grant_ids = (omega arith, tt);
  token_ids = (omega arith, tt);
  distinct_ids = (refl, tt);
  distinct_token_ids = (refl, tt);
  distinct_hashes = (refl, tt);
}

rotation :
    (rotate_refresh_token platform 9 secrets fresh_grant old_refresh fresh_server).0 ≡ ok response
unfolding rotate_refresh_token retain rotate_oauth_grant insert_api_token some_row text_eq
    application_allowed format_api_token format_oauth_refresh_token first rotation_of carried
    last_use rotate_rows
rotation = refl

differs : platform.sha256 (format_oauth_refresh_token secrets.refresh) ≢ old_refresh
unfolding format_oauth_refresh_token text_eq
differs e = ground (arith, text_eq_iff (codes "rlrf_bb") old_refresh)

rotation_replayed_example :
    let state = (rotate_refresh_token platform 9 secrets fresh_grant old_refresh fresh_server).1 in
    refresh_access_token platform 20 secrets refresh_request state ≡ (ok response, state)
unfolding get_oauth_grant_by_refresh_hash first text_eq
rotation_replayed_example =
    rotation_replayed platform 9 20 secrets secrets refresh_request fresh_server old_refresh
      fresh_grant response fresh_db-IsSound old_refresh-read refl refl refl (inl refl) rotation
      differs (omega arith) (omega arith) (omega arith)
