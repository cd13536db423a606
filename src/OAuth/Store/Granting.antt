-- ===== src/OAuth/Store/Granting.antt =====
-- CreateOAuthGrant and RotateOAuthGrant (internal/store/oauth.go): what they store, and that they keep
-- the tables sound.
use redlaunch.Base.{
  ℕ, ◌+◌, ◌<◌, ◌≤◌, true, false, [], ◌∷◌, some, text_eq, ◌==◌, ok, ◌≡◌, refl, arith, All-append,
  All-map, is_blank, ==_iff, inl, inr, >>=-eq-ok, ◌>>=◌, Option-cases,
}
use redlaunch.OAuth.Types.{Grant, Token, Time, Rotation}
use redlaunch.OAuth.Store.Tables.{Db, first, some_row, delete_token}
use redlaunch.OAuth.Store.Tokens.{stored_token, with_token, insert_api_token}
use redlaunch.OAuth.Store.Grants.{
  stored_grant, with_grant, insert_grant, create_oauth_grant, is_expected, rotated, with_rotation,
  rotate_rows, carried, last_use, rotate_found, rotate_oauth_grant,
}
use redlaunch.OAuth.Store.Rows.{
  some_row-none, All-both, first-some, some_row-append_last, All-update, All-update_map,
}
use redlaunch.OAuth.Store.Distinct.{Unique-first, Unique-append, Unique-update}
use redlaunch.OAuth.Store.Sound.{
  IsSound, IsHeld, IsKnown, IsTimely, same_id, insert_api_token_stored, with_token-IsSound,
  delete_token-IsSound,
}

with_grant-IsSound :
    (g : Grant) (db : Db)
    → g.id ≡ db.next_grant_id
    → IsHeld db.tokens g
    → IsKnown db.clients g
    → IsTimely g
    → IsSound db
    → IsSound (with_grant g db)
with_grant-IsSound g db e held known timely s = record {
  held = All-append (IsHeld db.tokens) db.grants (g ∷ []) s.held (held, tt);
  known = All-append (IsKnown db.clients) db.grants (g ∷ []) s.known (known, tt);
  timely = All-append IsTimely db.grants (g ∷ []) s.timely (timely, tt);
  grant_ids =
      All-append (λ (h : Grant). h.id < db.next_grant_id + 1) db.grants (g ∷ [])
        (All-map (λ h l. omega arith) db.grants s.grant_ids) (omega arith, tt);
  token_ids = s.token_ids;
  distinct_ids =
      Unique-append same_id db.grants g s.distinct_ids
        (some_row-none (λ (h : Grant). same_id h g) (λ h l. ground arith) db.grants s.grant_ids);
  distinct_token_ids = s.distinct_token_ids;
  distinct_hashes = s.distinct_hashes;
}

-- what the creation of a grant that succeeds has stored
pub create_oauth_grant_stored :
    (now : Time) (db : Db) (issued : Grant) (item : Token) (g : Grant) (access : Token) (db' : Db)
    → create_oauth_grant now db issued item ≡ ok (g, access, db')
    → let row = stored_token now db item in
      (db' ≡ with_grant (stored_grant issued db.next_grant_id row.id) (with_token row db))
      × (some_row (λ (t : Token). text_eq t.token_hash item.token_hash) db.tokens ≡ false)
      × (is_blank item.token_hash ≡ false)
      × IsKnown db.clients issued
unfolding create_oauth_grant insert_grant
create_oauth_grant_stored now db issued item g access db' h =
    let ((row, middle), inserted, rest) =
      >>=-eq-ok (insert_api_token now db item) (λ (access, db'). insert_grant issued access db')
        h in
    let (same_row, same_middle, fresh, filled) =
      insert_api_token_stored now db item row middle inserted in
    ground arith

pub create_oauth_grant-IsSound :
    (now : Time) (db : Db) (issued : Grant) (item : Token) (g : Grant) (access : Token) (db' : Db)
    → create_oauth_grant now db issued item ≡ ok (g, access, db')
    → IsTimely issued
    → IsSound db
    → IsSound db'
create_oauth_grant-IsSound now db issued item g access db' h timely s =
    let (stored, fresh, filled, known) =
      create_oauth_grant_stored now db issued item g access db' h in
    let row = stored_token now db item in
    let held =
      some_row-append_last (λ (t : Token). t.id == row.id) db.tokens row
        ((==_iff row.id row.id).1 refl) in
    rw stored (
      with_grant-IsSound (stored_grant issued db.next_grant_id row.id) (with_token row db) refl held
        known timely (with_token-IsSound now db item fresh s))

-- the tables after a rotation that succeeds
pub rotate_oauth_grant_stored :
    (now : Time) (db : Db) (rotation : Rotation) (access : Token) (db' : Db)
    → rotate_oauth_grant now db rotation ≡ ok (access, db')
    → (g : Grant) × (first (is_expected rotation) db.grants ≡ some g)
      × let item = carried (last_use db.tokens g.access_token_id) rotation.access in
        let row = stored_token now db item in
        (db' ≡ delete_token g.access_token_id (with_rotation rotation row.id (with_token row db)))
        × (some_row (λ (t : Token). text_eq t.token_hash item.token_hash) db.tokens ≡ false)
unfolding rotate_oauth_grant rotate_found rotate_rows
rotate_oauth_grant_stored now db rotation access db' h =
    elim (Option-cases (first (is_expected rotation) db.grants)) [
      | inl missing ↦ ground arith
      | inr (g, found) ↦
          let item = carried (last_use db.tokens g.access_token_id) rotation.access in
          let chain : rotate_found now db rotation g ≡ ok (access, db') = ground arith in
          let ((row, middle), inserted, rest) =
            >>=-eq-ok (insert_api_token now db item)
              (λ (access, db').
                rotate_rows rotation g.access_token_id access.id db' >>= λ db''. ok (access, db''))
              chain in
          let (same_row, same_middle, fresh, filled) =
            insert_api_token_stored now db item row middle inserted in
          (g, found, ground arith)
    ]

pub same_id-swap : (g h : Grant) → same_id g h ≡ same_id h g
same_id-swap g h = ground arith

IsTimely-rotated :
    (rotation : Rotation) (id : ℕ) (g : Grant)
    → is_expected rotation g ≡ true
    → rotation.refresh_idle_expires_at ≤ g.absolute_expires_at
    → (h : Grant) → is_expected rotation h ≡ true
    → IsTimely h × (same_id g h ≡ true → h ≡ g)
    → IsTimely (rotated rotation id h)
IsTimely-rotated rotation id g e timely h k (_, same) =
    let equal : h ≡ g = same (ground arith) in
    let until : h.absolute_expires_at ≡ g.absolute_expires_at = cc in omega arith

-- a rotated grant holds the new token, and the others theirs
with_rotation-IsSound :
    (rotation : Rotation) (row : Token) (g : Grant) (db : Db)
    → first (is_expected rotation) db.grants ≡ some g
    → rotation.refresh_idle_expires_at ≤ g.absolute_expires_at
    → IsHeld db.tokens (rotated rotation row.id g)
    → IsSound db
    → IsSound (with_rotation rotation row.id db)
unfolding with_rotation
with_rotation-IsSound rotation row g db found timely held s =
    let hit = is_expected rotation in
    let change = rotated rotation row.id in
    record {
      held = All-update (IsHeld db.tokens) hit change (λ h e k. held) db.grants s.held;
      known = All-update (IsKnown db.clients) hit change (λ h e k. k) db.grants s.known;
      timely =
          All-update_map hit change
            (IsTimely-rotated rotation row.id g (first-some hit db.grants found) timely)
            (λ h e (k, _). k) db.grants
            (All-both IsTimely (λ h. same_id g h ≡ true → h ≡ g) db.grants s.timely
              (Unique-first same_id same_id-swap hit db.grants s.distinct_ids found));
      grant_ids =
          All-update (λ (h : Grant). h.id < db.next_grant_id) hit change (λ h e k. k) db.grants
            s.grant_ids;
      token_ids = s.token_ids;
      distinct_ids =
          Unique-update same_id hit change (λ h k. refl) (λ h k. refl) db.grants s.distinct_ids;
      distinct_token_ids = s.distinct_token_ids;
      distinct_hashes = s.distinct_hashes;
    }

pub rotate_oauth_grant-IsSound :
    (now : Time) (db : Db) (rotation : Rotation) (g : Grant) (access : Token) (db' : Db)
    → first (is_expected rotation) db.grants ≡ some g
    → rotation.refresh_idle_expires_at ≤ g.absolute_expires_at
    → rotate_oauth_grant now db rotation ≡ ok (access, db')
    → IsSound db
    → IsSound db'
rotate_oauth_grant-IsSound now db rotation g access db' found timely h s =
    let (g', found', (stored, fresh)) = rotate_oauth_grant_stored now db rotation access db' h in
    let item = carried (last_use db.tokens g'.access_token_id) rotation.access in
    let row = stored_token now db item in
    let held =
      some_row-append_last (λ (t : Token). t.id == row.id) db.tokens row
        ((==_iff row.id row.id).1 refl) in
    rw stored (
      delete_token-IsSound g'.access_token_id (with_rotation rotation row.id (with_token row db)) (
        with_rotation-IsSound rotation row g (with_token row db) found timely held
          (with_token-IsSound now db item fresh s)))
