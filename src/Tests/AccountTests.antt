-- ===== src/Tests/AccountTests.antt =====
-- The users table with two users, one of whom has a session.
use redlaunch.Base.{
  ◌≡◌, ◌≢◌, refl, arith, codes, [], ◌∷◌, List, len, some, none, ok, trim_space, any_char,
  is_control, text_eq,
}
use redlaunch.Base.Number.{pos}
use redlaunch.Auth.Passwords.{hash_password, validate_password, encoded_hash}
use redlaunch.Auth.Users.{
  validate_email, normalize_user, normalize_account, parses_as_itself, within_sizes, with_email,
}
use redlaunch.Auth.Sessions.{new_session, enabled}
use redlaunch.Auth.Validation.{accepted, validate_session}
use redlaunch.Auth.Acceptance.{IsUnchanged, new_session-accepted}
use redlaunch.Accounts.Table.{
  Row, Users, list_users, find, login_user, scan_login_user, get_user_by_id, change_user_password,
  update_id, with_password,
}
use redlaunch.Accounts.Calls.{
  Call, creates, deletes, assigns, run_calls, change_password, checked_id, hashed,
}
use redlaunch.Accounts.Soundness.{IsOrderly}
use redlaunch.Accounts.Keeping.{Follows, run_calls-IsOrderly}
use redlaunch.Accounts.Endings.{served, change_password_ends_sessions}
use redlaunch.Tests.AuthTests.{
  platform, service, ann, session, salt, password, hash, platform-IsUrlBase64, ann-IsAccount,
  session_short,
}

abbrev ann_row : Row
ann_row = record {
  id = 3;
  email = some (codes "ann@example.org");
  legacy_username = none;
  password_hash = hash;
  credential_version = 2;
  created_at = codes "2024";
  updated_at = codes "2024";
}

abbrev bob_row : Row
bob_row = record {
  id = 1;
  email = none;
  legacy_username = some (codes "bob");
  password_hash = hash;
  credential_version = 1;
  created_at = codes "2023";
  updated_at = codes "2023";
}

abbrev users : Users
users = record { rows = ann_row ∷ bob_row ∷ []; last_id = 3 }

users-IsOrderly : IsOrderly users
unfolding find text_eq
users-IsOrderly = record {
  distinct = (refl, refl, (refl, tt, tt));
  numbered = ((omega arith, omega arith), ((omega arith, omega arith), tt));
  named = (λ e. cc, ((λ e f. cc), tt));
  present = omega arith;
}

-- Both users are to be deleted by a list from before; the second one stays.
abbrev calls : List Call
calls =
    deletes (list_users users) (pos 3)
    ∷ deletes (list_users users) (pos 1)
    ∷ assigns (codes "2025") (pos 1) (codes "bob@example.org")
    ∷ creates salt (codes "2025") (codes "eve@example.org") password
    ∷ []

run_calls-IsOrderly_example :
    IsOrderly (run_calls platform calls users) × Follows users (run_calls platform calls users)
run_calls-IsOrderly_example = run_calls-IsOrderly platform calls users users-IsOrderly

abbrev changed : Users
changed = record users { rows = update_id 3 (with_password (codes "2025") hash) users.rows }

change_made : change_password platform salt (codes "2025") (pos 3) password users ≡ ok changed
unfolding change_password checked_id hashed hash_password validate_password any_char
    change_user_password find update_id text_eq encoded_hash
change_made = refl

ann-IsUnchanged : IsUnchanged (served platform service users) ann 3 2
unfolding served get_user_by_id find scan_login_user login_user hash_password validate_password
    any_char encoded_hash
ann-IsUnchanged = record {
  account = login_user ann_row;
  has_accounts = refl;
  stored = refl;
  same_version = refl;
  same_email = refl;
  google_on = λ e. absurd (ground arith);
  password_set = λ g e. ground arith;
}

session_made : new_session platform (served platform service users) 0 (9 ∷ []) ann ≡ ok session
unfolding new_session enabled normalize_user normalize_account text_eq validate_email trim_space
    any_char is_control parses_as_itself within_sizes with_email len served
session_made = refl

session_accepted :
    validate_session platform (served platform service users) 1000000000 session ≡ accepted ann
unfolding served
session_accepted =
    new_session-accepted platform (served platform service users) ann 3 2 0 1000000000 (9 ∷ [])
      session platform-IsUrlBase64 ann-IsAccount ann-IsUnchanged (λ e. ground arith)
      (λ v e. ground arith) (omega arith) (omega arith) session_short session_made

change_password_ends_sessions_example :
    validate_session platform
      (served platform service (run_calls platform calls changed))
      2000000000
      session
    ≢ accepted ann
change_password_ends_sessions_example =
    change_password_ends_sessions platform service 1000000000 2000000000 session ann ann salt
      (codes "2025") 2 password users changed calls users-IsOrderly refl session_accepted
      change_made
