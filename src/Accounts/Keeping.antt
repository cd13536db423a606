-- ===== src/Accounts/Keeping.antt =====
-- The order of the users table before and after the calls of internal/service/users.go.
use redlaunch.Base.{
  ℕ, ◌≤◌, ◌<◌, ◌≢◌, ◌⊎◌, none, All, sym, subst, ap, arith, not, [], ◌∷◌, List, All-map, All-select,
  Result-cases, inl, inr,
}
use redlaunch.Auth.Platform.{Platform}
use redlaunch.Accounts.Table.{Row, find, Users, has_id, new_row, with_password, with_assigned}
use redlaunch.Accounts.Calls.{Call, outcome, settled, run_calls}
use redlaunch.Accounts.Soundness.{
  IsOrderly, IsNumbered, IsNamed, find_fresh, Distinct-select, length-update_id, length-select_one,
  All-update_id, Distinct-with_password, Distinct-with_assigned,
}
use redlaunch.Accounts.Moves.{
  Moves, inserts, changes_password, removes, assigns_email, outcome-Moves,
}

Moves-IsOrderly : (db next : Users) → Moves db next → IsOrderly db → IsOrderly next
unfolding new_row with_password with_assigned
Moves-IsOrderly db next (inserts now email hash fresh) h = record {
  distinct = (find_fresh db.last_id db.rows h.numbered, fresh, h.distinct);
  numbered =
      ((omega arith, omega arith), All-map (λ row k. (k.0, omega (arith, k.1))) db.rows h.numbered);
  named = (λ k. cc, h.named);
  present = omega arith;
}
Moves-IsOrderly db next (changes_password id now hash) h = record {
  distinct = Distinct-with_password id now hash db.rows h.distinct;
  numbered = All-update_id id _ (IsNumbered db.last_id) (λ row k. k) db.rows h.numbered;
  named = All-update_id id _ IsNamed (λ row k. k) db.rows h.named;
  present = omega (arith, h.present, length-update_id id (with_password now hash) db.rows);
}
Moves-IsOrderly db next (removes id many) h = record {
  distinct = Distinct-select (λ row. not (has_id id row)) db.rows h.distinct;
  numbered = All-select (IsNumbered db.last_id) (λ row. not (has_id id row)) db.rows h.numbered;
  named = All-select IsNamed (λ row. not (has_id id row)) db.rows h.named;
  present = omega (arith, many, length-select_one id db.rows h.distinct);
}
Moves-IsOrderly db next (assigns_email id now email fresh) h = record {
  distinct = Distinct-with_assigned id now email db.rows fresh h.distinct;
  numbered = All-update_id id _ (IsNumbered db.last_id) (λ row k. k) db.rows h.numbered;
  named = All-update_id id _ IsNamed (λ row k e. cc) db.rows h.named;
  present = omega (arith, h.present, length-update_id id (with_assigned now email) db.rows);
}

-- What every change of the table keeps, any calls keep.
module _ (P : Users → Type 0) (keeps : (db next : Users) → Moves db next → P db → P next) where
  pub run_calls-keeps :
      (p : Platform) (calls : List Call) (db : Users) → P db → P (run_calls p calls db)
  unfolding run_calls
  run_calls-keeps p [] db h = h
  run_calls-keeps p (call ∷ calls) db h =
      run_calls-keeps p calls (settled db (outcome p call db))
        (elim (Result-cases (outcome p call db)) [
          | inl (failure, e) ↦ subst P (sym (ap (settled db) e)) h
          | inr (next, e) ↦
              subst P (sym (ap (settled db) e)) (keeps db next (outcome-Moves p call db next e) h)
        ])

-- a row whose ID is new, or is that of a user who is in the table
abbrev pub IsOld : Users → Row → Type 0
IsOld db row = (db.last_id < row.id) ⊎ (find (has_id row.id) db.rows ≢ none)

-- What becomes of a table: no ID that was given before comes back.
pub record Follows (db next : Users) : Type 0 where
  pub later : db.last_id ≤ next.last_id
  pub old : All (IsOld db) next.rows

found_further :
    (id : ℕ) (row : Row) (rows : List Row)
    → find (has_id id) rows ≢ none
    → find (has_id id) (row ∷ rows) ≢ none
unfolding find
found_further id row rows h = λ e. ground arith

found_self : (row : Row) (rows : List Row) → find (has_id row.id) (row ∷ rows) ≢ none
unfolding find
found_self row rows = λ e. ground arith

members-found : (rows : List Row) → All (λ row. find (has_id row.id) rows ≢ none) rows
members-found [] = tt
members-found (row ∷ rows) =
    (found_self row rows, All-map (λ r h. found_further r.id row rows h) rows (members-found rows))

Follows-self : (db : Users) → Follows db db
Follows-self db = record {
  later = omega arith;
  old = All-map (λ r h. inr h) db.rows (members-found db.rows);
}

module _ (first : Users) where
  Moves-Follows : (db next : Users) → Moves db next → Follows first db → Follows first next
  unfolding new_row with_password with_assigned
  Moves-Follows db next (inserts now email hash fresh) h = record {
    later = omega (arith, h.later);
    old = (inl (omega (arith, h.later)), h.old);
  }
  Moves-Follows db next (changes_password id now hash) h = record {
    later = h.later;
    old = All-update_id id _ (IsOld first) (λ row k. k) db.rows h.old;
  }
  Moves-Follows db next (removes id many) h = record {
    later = h.later;
    old = All-select (IsOld first) (λ row. not (has_id id row)) db.rows h.old;
  }
  Moves-Follows db next (assigns_email id now email fresh) h = record {
    later = h.later;
    old = All-update_id id _ (IsOld first) (λ row k. k) db.rows h.old;
  }

-- A table of users in order with at least one user stays so over any sequence of creations,
-- password changes, deletions and assignments of an email address, whatever list of users each
-- deletion has read: IDs are positive, distinct and at most the last one given, email addresses are
-- distinct without regard to ASCII case, each user has an email address or an old username, and at
-- least one user is left. The last ID given does not fall, and a user whose ID is at most the one
-- that was the last before the calls has the ID of a user from before: no ID is given again.
pub run_calls-IsOrderly :
    (p : Platform) (calls : List Call) (db : Users)
    → IsOrderly db
    → IsOrderly (run_calls p calls db) × Follows db (run_calls p calls db)
run_calls-IsOrderly p calls db h = (
  run_calls-keeps IsOrderly Moves-IsOrderly p calls db h,
  run_calls-keeps (Follows db) (Moves-Follows db) p calls db (Follows-self db),
)
