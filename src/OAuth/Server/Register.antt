-- ===== src/OAuth/Server/Register.antt =====
-- OAuthService.RegisterClient (internal/service/oauth.go).
use redlaunch.Base.{
  ◌-◌, Bool, true, false, not, ◌&&◌, ◌||◌, List, [], ◌∷◌, ◌++◌, Text, codes, text_eq, ltb, leb,
  ◌==◌, if◌then◌else◌, is_blank, Result, ok, err, ◌>>=◌, length, has,
}
use redlaunch.OAuth.Types.{
  Platform, Time, day, Client, Registration, Error, invalid_redirect_uri, invalid_client_metadata,
  temporarily_unavailable,
}
use redlaunch.OAuth.Texts.{validate_oauth_client_name, validate_oauth_redirect_uri}
use redlaunch.OAuth.Store.Tables.{Db}
use redlaunch.OAuth.Store.Grants.{
  create_oauth_client, count_oauth_clients, delete_unused_oauth_clients,
}
use redlaunch.OAuth.Server.State.{Server, Answer, oauth_max_registered_clients}

-- oauthValuesAllowed
unfoldable pub oauth_values_allowed : List Text → List Text → Bool
unfolding has
oauth_values_allowed [] allowed = true
oauth_values_allowed (value ∷ values) allowed =
    if has value allowed then oauth_values_allowed values allowed else false

-- the loop over the redirect URIs of a registration
unfoldable pub validate_uris : Platform → List Text → Result Error (List Text)
unfolding validate_oauth_redirect_uri
validate_uris p [] = ok []
validate_uris p (value ∷ values) = validate_oauth_redirect_uri p value >>= λ uri.
    validate_uris p values >>= λ uris. ok (uri ∷ uris)

-- the checks of RegisterClient: the name and the redirect URIs to store
unfoldable pub checked_registration : Platform → Registration → Result Error (Text × List Text)
unfolding validate_uris
checked_registration p input = validate_oauth_client_name input.client_name >>= λ name.
    if length input.redirect_uris == 0 || ltb 10 (length input.redirect_uris)
    then err invalid_redirect_uri
    else validate_uris p input.redirect_uris >>= λ uris.
        if not (
          oauth_values_allowed input.grant_types
            (codes "authorization_code" ∷ codes "refresh_token" ∷ []))
        then err invalid_client_metadata
        else if not (oauth_values_allowed input.response_types (codes "code" ∷ []))
        then err invalid_client_metadata
        else if not (is_blank input.token_endpoint_auth_method)
            && not (text_eq input.token_endpoint_auth_method (codes "none"))
        then err invalid_client_metadata
        else ok (name, uris)

unfoldable pub answer_client : Client → Server → Result Error Db → Answer Client
answer_client client s (err e) = (err e, s)
answer_client client s (ok db) = (ok client, record s { db = db })

-- the rest of RegisterClient: pruning, the cap and the insertion
unfoldable pub store_client : Time → Text → Server → Text × List Text → Answer Client
unfolding answer_client
store_client now secret s (name, uris) =
    let pruned = delete_unused_oauth_clients s.db (now - day) in
    let client : Client = record {
      id = codes "rlc_" ++ secret;
      name = name;
      redirect_uris = uris;
      created_at = now;
    } in
    if leb oauth_max_registered_clients (count_oauth_clients pruned)
    then (err temporarily_unavailable, record s { db = pruned })
    else answer_client client (record s { db = pruned }) (create_oauth_client pruned client)

-- RegisterClient; `secret` is the hexadecimal text of 16 random bytes
unfoldable pub register_client : Platform → Time → Text → Registration → Server → Answer Client
unfolding checked_registration store_client
register_client p now secret input s = elim (checked_registration p input) [
  | err e ↦ (err e, s)
  | ok checked ↦ store_client now secret s checked
]
