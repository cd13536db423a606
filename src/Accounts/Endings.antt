-- ===== src/Accounts/Endings.antt =====
-- Sessions of internal/auth over the users table, before and after a change of a password.
use redlaunch.Base.{
  ℕ, suc, ◌≤◌, ◌<◌, ◌≡◌, ◌≢◌, refl, sym, subst, ap, ◌∙◌, arith, true, not, Text, split, [], ◌∷◌,
  List, All, All-select, Option, none, some, some_injective, Result, >>=-eq-ok, ok, err, inl, inr,
  Bool-cases,
}
use redlaunch.Base.Number.{ℤ, pos, negsuc}
use redlaunch.Auth.Platform.{Platform, Bytes}
use redlaunch.Auth.Users.{User, LocalUser}
use redlaunch.Auth.Sessions.{Answer, found, missing, bar, parse_session_user, Service}
use redlaunch.Auth.Validation.{accepted, validate_session}
use redlaunch.Auth.Current.{
  IsKnown, by_account, by_name, by_email, IsCurrent, validate_session-IsCurrent,
}
use redlaunch.Accounts.Table.{
  Error, Row, Users, find, has_id, login_user, scan_login_user, new_row, with_password,
  with_assigned, get_user_by_id, get_local_user, update_id,
}
use redlaunch.Accounts.Calls.{Call, run_calls, change_password, checked_id, hashed}
use redlaunch.Accounts.Soundness.{
  IsOrderly, IsNumbered, Distinct, All-update_id, update_found, update_passed, update_absent,
}
use redlaunch.Accounts.Moves.{
  Moves, inserts, changes_password, removes, assigns_email, updated, change_user_password-updated,
}
use redlaunch.Accounts.Keeping.{run_calls-keeps}

-- Each row of the ID has a later version.
abbrev pub IsLater : (id version : ℕ) → Row → Type 0
IsLater id version row = row.id ≡ id → version < row.credential_version

-- Credentials of this version are out of date, and the ID is not given again.
pub record IsStale (id version : ℕ) (db : Users) : Type 0 where
  pub given : id ≤ db.last_id
  pub later : All (IsLater id version) db.rows

module _ (id version : ℕ) where
  Moves-IsStale :
      (db next : Users) → Moves db next → IsStale id version db → IsStale id version next
  unfolding new_row with_password with_assigned
  Moves-IsStale db next (inserts now email hash fresh) h = record {
    given = omega (arith, h.given);
    later = (λ e. omega (arith, h.given), h.later);
  }
  Moves-IsStale db next (changes_password id' now hash) h = record {
    given = h.given;
    later =
        All-update_id id' _ (IsLater id version) (λ row k e. omega (arith, k e)) db.rows h.later;
  }
  Moves-IsStale db next (removes id' many) h = record {
    given = h.given;
    later = All-select (IsLater id version) (λ row. not (has_id id' row)) db.rows h.later;
  }
  Moves-IsStale db next (assigns_email id' now email fresh) h = record {
    given = h.given;
    later =
        All-update_id id' _ (IsLater id version) (λ row k e. omega (arith, k e)) db.rows h.later;
  }

  IsLater-find :
      (rows : List Row) (row : Row)
      → All (IsLater id version) rows
      → find (has_id id) rows ≡ some row
      → version < row.credential_version
  unfolding find
  IsLater-find [] row h e = cc
  IsLater-find (first ∷ rows) row (k, h) e = ground (arith, IsLater-find rows row h)

-- The statements that read one user fail only with ErrUserNotFound.
abbrev pub answer : Result Error LocalUser → Answer
answer (err e) = missing
answer (ok a) = found a

abbrev pub query_by_id : Users → ℤ → Answer
query_by_id db (pos n) = answer (get_user_by_id n db)
query_by_id db (negsuc n) = missing

-- The authentication service over the users table.
unfoldable pub served : Platform → Service → Users → Service
served p s db = record s {
  has_accounts = true;
  user_by_id = query_by_id db;
  local_user = λ name. answer (get_local_user p name db);
}

account_row :
    (id : ℕ) (db : Users) (a : LocalUser) (o : Option Row)
    → answer (scan_login_user o) ≡ found a
    → (row : Row) × (o ≡ some row) × (a ≡ login_user row)
unfolding scan_login_user
account_row id db a none h = cc
account_row id db a (some row) h = (row, refl, ground arith)

IsKnown-version :
    (p : Platform) (s : Service) (db : Users) (u : User) (id : ℕ)
    → u.account_id ≡ pos (suc id)
    → IsKnown (served p s db) u
    → (row : Row) × (find (has_id (suc id)) db.rows ≡ some row)
      × (pos row.credential_version ≡ u.credential_version)
unfolding served get_user_by_id login_user
IsKnown-version p s db u id e (by_account a q v m g w) =
    let (row, at, same) = account_row (suc id) db a _ (sym (ap (query_by_id db) e) ∙ q) in
    (row, at, sym (ap (λ b. b.credential_version) same) ∙ v)
IsKnown-version p s db u id e (by_name a z q v) = ground arith
IsKnown-version p s db u id e (by_email z n g q) = ground arith

module _ (id version : ℕ) where
  absent-IsLater : (rows : List Row) → find (has_id id) rows ≡ none → All (IsLater id version) rows
  unfolding find
  absent-IsLater [] h = tt
  absent-IsLater (row ∷ rows) h = (λ e. ground arith, absent-IsLater rows (ground arith))

  updated-IsLater :
      (change : Row → Row) (rows : List Row) (row : Row)
      → ((r : Row) → (change r).credential_version ≡ suc r.credential_version)
      → Distinct rows
      → find (has_id id) rows ≡ some row
      → row.credential_version ≡ version
      → All (IsLater id version) (update_id id change rows)
  unfolding find
  updated-IsLater change [] row k d e v = cc
  updated-IsLater change (first ∷ rows) row k (i, m, d) e v = elim (Bool-cases (has_id id first)) [
    | inl b ↦
        let absent = subst (λ j. find (has_id j) rows ≡ none) (ground arith) i in
        subst (All (IsLater id version))
          (sym (
            update_found id change first rows b
            ∙ ap (λ rs. change first ∷ rs) (update_absent id change rows absent)))
          (λ _. ground (arith, k first), absent-IsLater rows absent)
    | inr b ↦
        subst (All (IsLater id version)) (sym (update_passed id change first rows b))
          (λ e. ground arith, updated-IsLater change rows row k d (ground arith) v)
  ]

found_numbered :
    (last id : ℕ) (rows : List Row) (row : Row)
    → All (IsNumbered last) rows
    → find (has_id id) rows ≡ some row
    → id ≤ last
unfolding find
found_numbered last id [] row h e = cc
found_numbered last id (first ∷ rows) row ((l, m), h) e =
    ground (arith, found_numbered last id rows row h)

checked_id_ok : (id m : ℕ) → checked_id (pos id) ≡ ok m → m ≡ id
unfolding checked_id
checked_id_ok id m h = ground arith

change_password-updated :
    (p : Platform) (salt : Bytes) (now : Text) (id : ℕ) (password : Text) (db next : Users)
    → change_password p salt now (pos id) password db ≡ ok next
    → (hash : Text) × (updated id (with_password now hash) db ≡ next)
unfolding change_password
change_password-updated p salt now id password db next e =
    let (m, c, e1) = >>=-eq-ok (checked_id (pos id)) _ e in
    let (hash, _, e2) = >>=-eq-ok (hashed p salt password) _ e1 in
    (
      hash,
      subst (λ j. updated j (with_password now hash) db ≡ next) (checked_id_ok id m c)
          (change_user_password-updated now m hash db next e2),
    )

change_password-IsStale :
    (p : Platform) (salt : Bytes) (now : Text) (id : ℕ) (password : Text) (db next : Users)
    (row : Row)
    → IsOrderly db
    → find (has_id id) db.rows ≡ some row
    → change_password p salt now (pos id) password db ≡ ok next
    → IsStale id row.credential_version next
unfolding with_password
change_password-IsStale p salt now id password db next row h f e =
    let (hash, same) = change_password-updated p salt now id password db next e in
    subst (IsStale id row.credential_version) same (record {
      given = found_numbered db.last_id id db.rows row h.numbered f;
      later =
          updated-IsLater id row.credential_version (with_password now hash) db.rows row (λ r. refl)
            h.distinct f refl;
    })

-- The payload of a session decides its user.
same_user :
    (p : Platform) (s s' : Service) (t t' : ℕ) (value : Text) (u v : User)
    → IsCurrent p s t value u
    → IsCurrent p s' t' value v
    → u ≡ v
same_user p s s' t t' value u v c d =
    let payload = ap (λ q. q.0) (some_injective (sym c.signed ∙ d.signed)) in
    ap (λ q. q.0)
      (some_injective
        (sym c.parsed ∙ ap (λ x. parse_session_user p (split bar x)) payload ∙ d.parsed))

module _ (p : Platform) (s : Service) (t t' : ℕ) (value : Text) (u v : User) where
  -- When a session of an account was accepted and the account's password was then changed in a table
  -- in order, the same session is never accepted again, whatever calls of the user service follow.
  pub change_password_ends_sessions :
      (salt : Bytes) (now : Text) (id : ℕ) (password : Text) (db next : Users) (calls : List Call)
      → IsOrderly db
      → u.account_id ≡ pos (suc id)
      → validate_session p (served p s db) t value ≡ accepted u
      → change_password p salt now (pos (suc id)) password db ≡ ok next
      → validate_session p (served p s (run_calls p calls next)) t' value ≢ accepted v
  change_password_ends_sessions salt now id password db next calls h i c e d =
      let now_current = validate_session-IsCurrent p (served p s db) t value u c in
      let later = served p s (run_calls p calls next) in
      let later_current = validate_session-IsCurrent p later t' value v d in
      let same = same_user p (served p s db) later t t' value u v now_current later_current in
      let (row, at, w) = IsKnown-version p s db u id i now_current.known in
      let (row', at', w') =
        IsKnown-version p s (run_calls p calls next) v id (sym (ap (λ x. x.account_id) same) ∙ i)
          later_current.known in
      let stale =
        run_calls-keeps (IsStale (suc id) row.credential_version)
          (Moves-IsStale (suc id) row.credential_version) p calls next
          (change_password-IsStale p salt now (suc id) password db next row h at e) in
      let versions = w ∙ ap (λ x. x.credential_version) same ∙ sym w' in
      let less =
        IsLater-find (suc id) row.credential_version (run_calls p calls next).rows row' stale.later
          at' in
      absurd (ground (arith, versions, less))
