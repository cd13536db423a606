-- ===== src/OAuth/Server/Replays.antt =====
-- Replays (internal/service/oauth.go): a refresh token that was just rotated gets the same answer again.
use redlaunch.Base.{
  ◌+◌, ◌<◌, true, false, not, ◌||◌, ◌⊎◌, inl, inr, some, Text, text_eq, text_eq_iff, leb, ◌==◌,
  Result, ok, err, ◌≡◌, ◌≢◌, refl, ap, arith, All-map, is_blank, length, Bool-cases,
}
use redlaunch.Base.Assoc.{insert, retain, lookup-insert}
use redlaunch.OAuth.Types.{Platform, Grant, Token, Time, TokenRequest, TokenResponse, minute, Error}
use redlaunch.OAuth.Texts.{split_oauth_refresh_token, format_oauth_refresh_token}
use redlaunch.OAuth.Store.Tables.{Db, first, delete_token}
use redlaunch.OAuth.Store.Grants.{
  get_oauth_grant_by_refresh_hash, is_expected, rotated, with_rotation, rotate_oauth_grant,
}
use redlaunch.OAuth.Store.Rows.{first-update, All-first, first-some}
use redlaunch.OAuth.Store.Sound.{IsSound, IsHeld, same_id}
use redlaunch.OAuth.Store.Granting.{rotate_oauth_grant_stored}
use redlaunch.OAuth.Server.State.{Server, Replay, Secrets, oauth_max_replays}
use redlaunch.OAuth.Server.Refresh.{
  rotation_of, new_replay, live_replay, answer_rotation, rotate_refresh_token, refresh_access_token,
  refresh_presented, refresh_grant, replay_or_reject,
}
use redlaunch.OAuth.Server.Kept.{by_refresh_hash-IsOnly}
use redlaunch.OAuth.Server.Issued.{token_id-below}

by_refresh_hash-first :
    (db : Db) (hash : Text) {g : Grant}
    → get_oauth_grant_by_refresh_hash db hash ≡ some g
    → (is_blank hash ≡ false)
      × (first
            (λ (h : Grant).
              text_eq h.refresh_token_hash hash || text_eq h.previous_refresh_token_hash hash)
            db.grants
          ≡ some g)
unfolding get_oauth_grant_by_refresh_hash
by_refresh_hash-first db hash e = (ground arith, ground arith)

-- the grant keeps its place when its access token and its refresh token are replaced
rotated-found :
    (p : Platform) (now : Time) (secrets : Secrets) (g : Grant) (db db' : Db) (t : Token)
    (hash : Text)
    → IsSound db
    → get_oauth_grant_by_refresh_hash db hash ≡ some g
    → g.refresh_token_hash ≡ hash
    → rotate_oauth_grant now db (rotation_of p now secrets g) ≡ ok (t, db')
    → get_oauth_grant_by_refresh_hash db' hash
      ≡ some (rotated (rotation_of p now secrets g) db.next_token_id g)
unfolding get_oauth_grant_by_refresh_hash delete_token with_rotation rotation_of
rotated-found p now secrets g db db' t hash sound found current done =
    let rotation = rotation_of p now secrets g in
    let hit = is_expected rotation in
    let (filled, placed) = by_refresh_hash-first db hash found in
    let only = by_refresh_hash-IsOnly db hash found sound in
    let (g0, expected, (stored, _)) = rotate_oauth_grant_stored now db rotation t db' done in
    let hit0 = first-some hit db.grants expected in
    let same : g0 ≡ g =
      All-first (λ (h : Grant). same_id g h ≡ true → h ≡ g) hit db.grants only expected
        (ground arith) in
    let below =
      token_id-below g.access_token_id db sound
        (All-first (IsHeld db.tokens) _ db.grants sound.held placed) in
    let test = λ (h : Grant).
      text_eq h.refresh_token_hash hash || text_eq h.previous_refresh_token_hash hash in
    let keep = λ (h : Grant). not (h.access_token_id == g0.access_token_id) in
    let change = rotated rotation db.next_token_id in
    let access : g0.access_token_id ≡ g.access_token_id =
      ap (λ (h : Grant). h.access_token_id) same in
    let stays =
      first-update test hit keep change db.grants g placed
        (ground (arith, text_eq_iff g.refresh_token_hash g.refresh_token_hash))
        (All-map (λ h k e. k (ground arith)) db.grants only)
        (ground (arith, text_eq_iff g.refresh_token_hash hash)) (ground arith) in
    rw (filled, stored) stays

-- what a rotation that succeeds has done
rotation_done :
    (hash : Text) (replay : Replay) (s : Server) (r : Result Error (Token × Db))
    (response : TokenResponse)
    → (answer_rotation hash replay s r).0 ≡ ok response
    → (t : Token) × (db : Db) × (r ≡ ok (t, db))
      × (response ≡ replay.response)
      × ((answer_rotation hash replay s r).1
          ≡ record s { db = db; replays = insert hash replay s.replays })
unfolding answer_rotation
rotation_done hash replay s (err e) response h = ground arith
rotation_done hash replay s (ok (t, db)) response h = (t, db, refl, ground arith, refl)

rotated_state :
    (p : Platform) (now : Time) (secrets : Secrets) (g : Grant) (hash : Text) (s : Server)
    (response : TokenResponse)
    → (rotate_refresh_token p now secrets g hash s).0 ≡ ok response
    → let replay = new_replay now secrets g in
      (t : Token) × (db : Db) × (rotate_oauth_grant now s.db (rotation_of p now secrets g)
        ≡ ok (t, db))
      × (response ≡ replay.response)
      × ((rotate_refresh_token p now secrets g hash s).1
          ≡ record s { db = db; replays = insert hash replay (retain (live_replay now) s.replays) })
unfolding rotate_refresh_token
rotated_state p now secrets g hash s response h =
    let live = retain (live_replay now) s.replays in
    elim (Bool-cases (leb oauth_max_replays (length live))) [
      | inl full ↦ ground arith
      | inr room ↦
          let replay = new_replay now secrets g in
          let result = rotate_oauth_grant now s.db (rotation_of p now secrets g) in
          let done : (answer_rotation hash replay (record s { replays = live }) result).0
              ≡ ok response =
            ground arith in
          let (t, db, made, same, state) =
            rotation_done hash replay (record s { replays = live }) result response done in
          (t, db, made, same, rw (room, rotate_refresh_token) state)
    ]

-- If the tables are sound and a grant's current refresh token is rotated, then the same request, by
-- the grant's client and with no other resource, gets the same answer again and changes nothing, as long
-- as it comes less than a minute after the rotation and before the end of the grant; the new refresh token's hash
-- must differ from the old one's, and the time of the rotation from the zero time.
pub rotation_replayed :
    (p : Platform) (now later : Time) (secrets secrets' : Secrets) (request : TokenRequest)
    (s : Server) (presented : Text) (g : Grant) (response : TokenResponse)
    → let hash = p.sha256 presented in
      let rotation = rotate_refresh_token p now secrets g hash s in
      IsSound s.db
      → split_oauth_refresh_token request.refresh_token ≡ some presented
      → get_oauth_grant_by_refresh_hash s.db hash ≡ some g
      → g.refresh_token_hash ≡ hash
      → request.client_id ≡ g.client_id
      → (is_blank request.resource ≡ true) ⊎ (request.resource ≡ g.resource)
      → rotation.0 ≡ ok response
      → p.sha256 (format_oauth_refresh_token secrets.refresh) ≢ hash
      → 0 < now
      → later < now + minute
      → later < g.absolute_expires_at
      → refresh_access_token p later secrets' request rotation.1 ≡ (ok response, rotation.1)
unfolding refresh_access_token refresh_presented refresh_grant replay_or_reject rotation_of
rotation_replayed p now later secrets secrets' request s presented g response sound read found
      current client resource done fresh positive soon alive =
    let hash = p.sha256 presented in
    let replay = new_replay now secrets g in
    let (t, db, made, same, state) = rotated_state p now secrets g hash s response done in
    let placed = rotated-found p now secrets g s.db db t hash sound found current made in
    let kept = lookup-insert hash hash replay (retain (live_replay now) s.replays) in
    rw state (
      ground (
        arith,
        text_eq_iff request.client_id g.client_id,
        text_eq_iff request.resource g.resource,
        text_eq_iff hash hash,
        text_eq_iff (p.sha256 (format_oauth_refresh_token secrets.refresh)) hash,
      ))
