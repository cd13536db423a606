-- ===== src/Tests/ApiTokenTests.antt =====
-- internal/service/api_tokens.go on the tables of the other tests: a token is issued, used and revoked.
use redlaunch.Base.{
  ◌≡◌, ◌+◌, ◌*◌, ◌++◌, refl, arith, false, [], ◌∷◌, some, none, Text, codes, ok, text_eq, len,
  is_hex, trim_space, any_char, is_control,
}
use redlaunch.Base.Number.{pos}
use redlaunch.OAuth.Types.{Token, manage, day}
use redlaunch.OAuth.Texts.{format_api_token, expired}
use redlaunch.OAuth.Store.Tables.{Db, some_row, application_allowed}
use redlaunch.OAuth.Store.Tokens.{insert_api_token}
use redlaunch.OAuth.Store.Sound.{IsSound}
use redlaunch.OAuth.ApiTokens.{TokenInput, create, authenticate}
use redlaunch.OAuth.ApiTokens.Lifecycle.{created_token_authenticates}
use redlaunch.Tests.OAuthTests.{platform, db, token}

abbrev secret : Text
secret = codes "0123456789abcdef0123456789abcdef0123456789abcdef0123456789abcdef"

abbrev input : TokenInput
input = record {
  display_name = codes "ci";
  application_id = pos 0;
  scope = codes "manage";
  expires_in_days = pos 30;
}

abbrev issued : Token
issued = record {
  id = 2;
  display_name = codes "ci";
  prefix = codes "rlr_01234567";
  token_hash = codes "rlr_" ++ secret;
  application_id = 0;
  scope = manage;
  created_at = 7;
  expires_at = some (7 + 30 * day);
  last_used_at = none;
}

abbrev issued_db : Db
issued_db = record db { tokens = token ∷ issued ∷ []; next_token_id = 3 }

created : create platform 7 7 secret input db ≡ ok (issued, codes "rlr_" ++ secret, issued_db)
unfolding create trim_space any_char is_control text_eq insert_api_token format_api_token some_row
    application_allowed
created = refl

live : expired issued 9 ≡ false
unfolding expired
live = refl

created_token_authenticates_example :
    (after : Db) × (authenticate platform 9 9 (codes "rlr_" ++ secret) issued_db
      ≡ ok (record issued { last_used_at = some 9 }, after))
unfolding is_hex len
created_token_authenticates_example =
    created_token_authenticates platform 7 7 9 9 secret input db issued (codes "rlr_" ++ secret)
      issued_db refl refl created live

issued_db-IsSound : IsSound issued_db
unfolding some_row text_eq
issued_db-IsSound = record {
  held = (refl, tt);
  known = (refl, tt);
  timely = (omega arith, tt);
  grant_ids = (omega arith, tt);
  token_ids = (omega arith, (omega arith, tt));
  distinct_ids = (refl, tt);
  distinct_token_ids = (refl, (refl, tt));
  distinct_hashes = (refl, (refl, tt));
}

abbrev revoked_db : Db
revoked_db = record db { next_token_id = 3 }
