-- ===== src/Accounts/Moves.antt =====
-- What one call does to the users table when it succeeds.
use redlaunch.Base.{
  ℕ, suc, ◌<◌, ◌≡◌, refl, subst, ap, arith, Bool, true, false, not, if◌then◌else◌, Text, [], ◌∷◌,
  length, select, text_eq, Option, none, some, Result, ok, err, ◌&&◌, >>=-eq-ok, ok_injective,
}
use redlaunch.Auth.Platform.{Platform}
use redlaunch.Accounts.Table.{
  Error, Row, Users, UserAccount, has_email, has_id, without_email, find, update_id, new_row,
  insert_row, create_user, with_password, change_user_password, delete_user, with_assigned,
  assign_row, assign_user_email, valid_email,
}
use redlaunch.Accounts.Calls.{
  checked_id, hashed, create, change_password, delete, assign_email, Call, creates, changes,
  deletes, assigns, is_listed, outcome,
}

module _ (e : Error) (r : Result Error Users) (next : Users) where
  found_none :
      (o : Option Row)
      → elim o [ some row ↦ err e | none ↦ r ] ≡ ok next
      → (o ≡ none) × (r ≡ ok next)
  found_none none h = (refl, h)
  found_none (some row) h = cc

  found_some : (o : Option Row) → elim o [ none ↦ err e | some row ↦ r ] ≡ ok next → r ≡ ok next
  found_some none h = cc
  found_some (some row) h = h

  passed_when : (b : Bool) → (if b then r else err e) ≡ ok next → (b ≡ true) × (r ≡ ok next)
  passed_when true h = (refl, h)
  passed_when false h = cc

module _ {A : Type 0} (e : Error) (r : Result Error A) (a : A) where
  passed_unless : (b : Bool) → (if b then err e else r) ≡ ok a → r ≡ ok a
  passed_unless true h = cc
  passed_unless false h = h

abbrev pub inserted : (now email hash : Text) → Users → Users
inserted now email hash db = record {
  rows = new_row (suc db.last_id) now email hash ∷ db.rows;
  last_id = suc db.last_id;
}

abbrev pub updated : ℕ → (Row → Row) → Users → Users
updated id change db = record db { rows = update_id id change db.rows }

abbrev pub removed : ℕ → Users → Users
removed id db = record db { rows = select (λ row. not (has_id id row)) db.rows }

-- The ways in which a call changes the table.
pub data Moves (db : Users) : Users → Type 0 where
  inserts :
      (now email hash : Text)
      → find (has_email email) db.rows ≡ none
      → Moves db (inserted now email hash db)
  changes_password : (id : ℕ) (now hash : Text) → Moves db (updated id (with_password now hash) db)
  removes : (id : ℕ) → 1 < length db.rows → Moves db (removed id db)
  assigns_email :
      (id : ℕ) (now email : Text)
      → find (has_email email) db.rows ≡ none
      → Moves db (updated id (with_assigned now email) db)

insert_row-Moves :
    (now email hash : Text) (db next : Users)
    → insert_row now email hash db ≡ ok next
    → Moves db next
unfolding insert_row
insert_row-Moves now email hash db next e =
    let (fresh, e1) = found_none _ _ next (find (has_email email) db.rows) e in
    let e2 = passed_unless _ _ next _ e1 in
    subst (Moves db) (ok_injective e2) (inserts now email hash fresh)

create_user-Moves :
    (p : Platform) (now email hash : Text) (db : Users) (made : UserAccount × Users)
    → create_user p now email hash db ≡ ok made
    → Moves db made.1
unfolding create_user
create_user-Moves p now email hash db made e =
    let (valid, _, e1) = >>=-eq-ok (valid_email p email) _ e in
    let e2 = passed_unless _ _ made (text_eq hash []) e1 in
    let (next, e3, e4) = >>=-eq-ok (insert_row now valid hash db) _ e2 in
    subst (Moves db) (ap (λ m. m.1) (ok_injective e4)) (insert_row-Moves now valid hash db next e3)

pub change_user_password-updated :
    (now : Text) (id : ℕ) (hash : Text) (db next : Users)
    → change_user_password now id hash db ≡ ok next
    → updated id (with_password now hash) db ≡ next
unfolding change_user_password
change_user_password-updated now id hash db next e =
    let e1 = passed_unless _ _ next _ e in
    ok_injective (found_some _ _ next (find (has_id id) db.rows) e1)

change_user_password-Moves :
    (now : Text) (id : ℕ) (hash : Text) (db next : Users)
    → change_user_password now id hash db ≡ ok next
    → Moves db next
change_user_password-Moves now id hash db next e =
    subst (Moves db) (change_user_password-updated now id hash db next e)
      (changes_password id now hash)

delete_user-Moves : (id : ℕ) (db next : Users) → delete_user id db ≡ ok next → Moves db next
unfolding delete_user
delete_user-Moves id db next e =
    let (many, e2) = passed_when _ _ next _ (found_some _ _ next (find (has_id id) db.rows) e) in
    subst (Moves db) (ok_injective e2) (removes id (ground arith))

assign_row-Moves :
    (now : Text) (id : ℕ) (email : Text) (db next : Users)
    → assign_row now id email db ≡ ok next
    → Moves db next
unfolding assign_row
assign_row-Moves now id email db next e =
    let (fresh, e2) = found_none _ _ next (find (has_email email) db.rows) e in
    subst (Moves db) (ok_injective e2) (assigns_email id now email fresh)

assign_user_email-Moves :
    (p : Platform) (now : Text) (id : ℕ) (email : Text) (db next : Users)
    → assign_user_email p now id email db ≡ ok next
    → Moves db next
unfolding assign_user_email
assign_user_email-Moves p now id email db next e =
    let (valid, _, e) = >>=-eq-ok (valid_email p email) _ e in
    assign_row-Moves now id valid db next
      (found_some _ _ next (find (λ row. has_id id row && without_email row) db.rows) e)

pub outcome-Moves :
    (p : Platform) (call : Call) (db next : Users) → outcome p call db ≡ ok next → Moves db next
unfolding outcome create create_user change_password delete assign_email
outcome-Moves p (creates salt now email password) db next e =
    let (email', _, e1) = >>=-eq-ok (valid_email p email) _ e in
    let (hash, _, e2) = >>=-eq-ok (hashed p salt password) _ e1 in
    let (made, e3, e4) = >>=-eq-ok (create_user p now email' hash db) _ e2 in
    subst (Moves db) (ok_injective e4) (create_user-Moves p now email' hash db made e3)
outcome-Moves p (changes salt now id password) db next e =
    let (id', _, e1) = >>=-eq-ok (checked_id id) _ e in
    let (hash, _, e2) = >>=-eq-ok (hashed p salt password) _ e1 in
    change_user_password-Moves now id' hash db next e2
outcome-Moves p (deletes listed id) db next e =
    let (id', _, e1) = >>=-eq-ok (checked_id id) _ e in
    let e2 = passed_unless _ _ next (not (is_listed id' listed)) e1 in
    let e3 = passed_unless _ _ next _ e2 in delete_user-Moves id' db next e3
outcome-Moves p (assigns now id email) db next e =
    let (id', _, e1) = >>=-eq-ok (checked_id id) _ e in
    let (email', _, e2) = >>=-eq-ok (valid_email p email) _ e1 in
    assign_user_email-Moves p now id' email' db next e2
