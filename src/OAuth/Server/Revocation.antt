-- ===== src/OAuth/Server/Revocation.antt =====
-- Revocation (internal/service/oauth.go): a revoked grant is gone, with its access token.
use redlaunch.Base.{
  ℕ, true, false, not, ◌&&◌, ◌⊎◌, none, some, Text, text_eq, text_eq_iff, ◌==◌, ok, err, ◌≡◌, refl,
  ap, sym, subst, ◌∙◌, arith, is_blank, select, ==_iff, Bool-cases, inl, inr, Result-cases,
}
use redlaunch.OAuth.Types.{invalid_grant, Platform, Grant, Token, Time, Error, TokenRequest}
use redlaunch.OAuth.Store.Tables.{Db, first, some_row, delete_token, delete_grant}
use redlaunch.OAuth.Store.Grants.{
  revoke_oauth_grant, get_oauth_grant_by_refresh_hash, get_oauth_grant_by_superseded_refresh_hash,
  get_oauth_grant_by_access_token_hash,
}
use redlaunch.OAuth.Store.Rows.{
  All-first, first-some, first-member, some_row-first, some_row_contra, some_row-never, first-none,
  some_row-select, some_row-select-false, some_row-select_out, some_row-none,
}
use redlaunch.OAuth.Store.Distinct.{Unique-first}
use redlaunch.OAuth.Store.Sound.{IsSound, same_id, same_hash}
use redlaunch.OAuth.Store.Transactions.{revoke_oauth_grant_deleted}
use redlaunch.OAuth.Store.Granting.{same_id-swap}
use redlaunch.OAuth.Texts.{split_oauth_refresh_token}
use redlaunch.OAuth.Server.State.{Server, Secrets, committed}
use redlaunch.OAuth.Server.Refresh.{
  reject_grant, refresh_grant, refresh_presented, refresh_access_token,
}
use redlaunch.OAuth.Server.Connections.{validate_access_token_resource, revoke_token, owner_of}
use redlaunch.OAuth.Server.Kept.{IsOnly, by_superseded_hash-IsOnly}

-- neither the grant nor its access token is left in the tables
abbrev pub IsGone : Grant → Db → Type 0
IsGone g db =
    (some_row (λ (h : Grant). h.id == g.id) db.grants ≡ false)
    × (some_row (λ (t : Token). t.id == g.access_token_id) db.tokens ≡ false)

none_left_grant :
    (id other : ℕ) (db : Db)
    → some_row (λ (h : Grant). h.id == id) (delete_token other (delete_grant id db)).grants ≡ false
unfolding delete_token delete_grant
none_left_grant id other db =
    some_row-select-false (λ (h : Grant). h.id == id)
      (λ (h : Grant). not (h.access_token_id == other))
      (select (λ (h : Grant). not (h.id == id)) db.grants)
      (some_row-select_out (λ (h : Grant). h.id == id) db.grants)

none_left_token :
    (id other : ℕ) (db : Db)
    → some_row (λ (t : Token). t.id == other) (delete_token other (delete_grant id db)).tokens
      ≡ false
unfolding delete_token delete_grant
none_left_token id other db = some_row-select_out (λ (t : Token). t.id == other) db.tokens

revoke_oauth_grant_fails :
    (db : Db) (id : ℕ) (e : Error)
    → some_row (λ (h : Grant). h.id == id) db.grants ≡ true
    → ¬ (revoke_oauth_grant db id ≡ err e)
unfolding revoke_oauth_grant
revoke_oauth_grant_fails db id e there failed =
    let (g, found) = some_row-first (λ (h : Grant). h.id == id) db.grants there in ground arith

-- the revocation of the only grant with its ID
revoked_only :
    (g : Grant) (s : Server)
    → IsOnly s.db g
    → some_row (λ (h : Grant). h.id == g.id) s.db.grants ≡ true
    → (db : Db) × (revoke_oauth_grant s.db g.id ≡ ok db)
      × (db ≡ delete_token g.access_token_id (delete_grant g.id s.db))
revoked_only g s only there = elim (Result-cases (revoke_oauth_grant s.db g.id)) [
  | inl (e, failed) ↦ absurd (revoke_oauth_grant_fails s.db g.id e there failed)
  | inr (db, done) ↦
      let (h, found, deleted) = revoke_oauth_grant_deleted s.db g.id db done in
      let hit = first-some (λ (h : Grant). h.id == g.id) s.db.grants found in
      let same : h ≡ g =
        All-first (λ (h : Grant). same_id g h ≡ true → h ≡ g) (λ (h : Grant). h.id == g.id)
          s.db.grants only found (ground arith) in
      (
        db,
        done,
        subst (λ (h : Grant). db ≡ delete_token h.access_token_id (delete_grant g.id s.db)) same
            deleted,
      )
]

revoked-IsGone :
    (g : Grant) (s : Server)
    → IsOnly s.db g
    → some_row (λ (h : Grant). h.id == g.id) s.db.grants ≡ true
    → IsGone g (committed s (revoke_oauth_grant s.db g.id)).db
revoked-IsGone g s only there =
    let (db, done, deleted) = revoked_only g s only there in
    rw (done, deleted)
      (none_left_grant g.id g.access_token_id s.db, none_left_token g.id g.access_token_id s.db)

-- the grant that a lookup finds is in the table
by_superseded_hash-there :
    (db : Db) (hash : Text) {g : Grant}
    → get_oauth_grant_by_superseded_refresh_hash db hash ≡ some g
    → some_row (λ (h : Grant). h.id == g.id) db.grants ≡ true
unfolding get_oauth_grant_by_superseded_refresh_hash
by_superseded_hash-there db hash {g = g} e =
    let found : first
          (λ (h : Grant).
            some_row (λ x. x.grant_id == h.id && text_eq x.refresh_token_hash hash) db.superseded)
          db.grants
        ≡ some g =
      ground arith in
    first-member _ (λ (h : Grant). h.id == g.id) db.grants found ((==_iff g.id g.id).1 refl)

-- A refresh with a token that was rotated more than one rotation ago, by the client it was issued to
-- and with no other resource, is refused with invalid_grant and revokes the grant: the tables
-- then hold neither the grant nor its access token.
pub reused_token_revokes :
    (p : Platform) (now : Time) (secrets : Secrets) (request : TokenRequest) (s : Server)
    (presented : Text) (g : Grant)
    → IsSound s.db
    → split_oauth_refresh_token request.refresh_token ≡ some presented
    → get_oauth_grant_by_refresh_hash s.db (p.sha256 presented) ≡ none
    → get_oauth_grant_by_superseded_refresh_hash s.db (p.sha256 presented) ≡ some g
    → request.client_id ≡ g.client_id
    → (is_blank request.resource ≡ true) ⊎ (request.resource ≡ g.resource)
    → let answer = refresh_access_token p now secrets request s in
      (answer.0 ≡ err invalid_grant) × IsGone g answer.1.db
unfolding refresh_access_token refresh_presented refresh_grant reject_grant
reused_token_revokes p now secrets request s presented g sound read absent older client resource =
    let gone =
      revoked-IsGone g s (by_superseded_hash-IsOnly s.db (p.sha256 presented) older sound)
        (by_superseded_hash-there s.db (p.sha256 presented) older) in
    ground
      (arith, text_eq_iff request.client_id g.client_id, text_eq_iff request.resource g.resource)

by_access_token_hash-first :
    (db : Db) (hash : Text) {g : Grant}
    → get_oauth_grant_by_access_token_hash db hash ≡ some g
    → first
        (λ (h : Grant).
          some_row
            (λ (t : Token). t.id == h.access_token_id && text_eq t.token_hash hash)
            db.tokens)
        db.grants
      ≡ some g
unfolding get_oauth_grant_by_access_token_hash
by_access_token_hash-first db hash e = ground arith

pub same_hash-swap : (t u : Token) → same_hash t u ≡ same_hash u t
same_hash-swap t u =
    ground (arith, text_eq_iff t.token_hash u.token_hash, text_eq_iff u.token_hash t.token_hash)

other_hash :
    (hash : Text) (g : Grant) (t u : Token)
    → (t.id == g.access_token_id && text_eq t.token_hash hash) ≡ true
    → (same_hash t u ≡ true → u ≡ t)
    → (not (u.id == g.access_token_id) && text_eq u.token_hash hash) ≡ false
other_hash hash g t u mine same = elim (Bool-cases (text_eq u.token_hash hash)) [
  | inl equal ↦
      let left : t.token_hash ≡ hash = (text_eq_iff t.token_hash hash).0 (ground arith) in
      let right = (text_eq_iff u.token_hash hash).0 equal in
      let one : u ≡ t = same ((text_eq_iff t.token_hash u.token_hash).1 (left ∙ sym right)) in
      let id : u.id ≡ t.id = ap (λ (t : Token). t.id) one in ground arith
  | inr differs ↦ ground arith
]

-- the token with the hash is the one that the grant holds, so that none is left without it
hash_gone :
    (db : Db) (hash : Text) (g : Grant)
    → IsSound db
    → get_oauth_grant_by_access_token_hash db hash ≡ some g
    → some_row
        (λ (t : Token). text_eq t.token_hash hash)
        (select (λ (t : Token). not (t.id == g.access_token_id)) db.tokens)
      ≡ false
hash_gone db hash g sound e =
    let mine = λ (t : Token). t.id == g.access_token_id && text_eq t.token_hash hash in
    let held = first-some _ db.grants (by_access_token_hash-first db hash e) in
    let (t, found) = some_row-first mine db.tokens held in
    let is_mine = first-some mine db.tokens found in
    let only = Unique-first same_hash same_hash-swap mine db.tokens sound.distinct_hashes found in
    some_row-select (λ (u : Token). text_eq u.token_hash hash)
      (λ (u : Token). not (u.id == g.access_token_id)) db.tokens
    ∙ some_row-none (λ (u : Token). not (u.id == g.access_token_id) && text_eq u.token_hash hash)
        (λ u same. other_hash hash g t u is_mine same) db.tokens only

committed-tokens :
    (g : Grant) (s : Server)
    → IsOnly s.db g
    → some_row (λ (h : Grant). h.id == g.id) s.db.grants ≡ true
    → (committed s (revoke_oauth_grant s.db g.id)).db.tokens
      ≡ select (λ (t : Token). not (t.id == g.access_token_id)) s.db.tokens
unfolding delete_token delete_grant
committed-tokens g s only there =
    let (db, done, deleted) = revoked_only g s only there in rw (done, deleted) refl

-- without a token of the hash, no grant is found by it
by_access_token_hash-none :
    (db : Db) (hash : Text)
    → some_row (λ (t : Token). text_eq t.token_hash hash) db.tokens ≡ false
    → get_oauth_grant_by_access_token_hash db hash ≡ none
unfolding get_oauth_grant_by_access_token_hash
by_access_token_hash-none db hash h =
    let holds = λ (g : Grant).
      some_row (λ (t : Token). t.id == g.access_token_id && text_eq t.token_hash hash) db.tokens in
    let never : (g : Grant) → holds g ≡ false = λ g.
      some_row_contra (λ (t : Token). t.id == g.access_token_id && text_eq t.token_hash hash)
        (λ (t : Token). text_eq t.token_hash hash) (λ t e. ground arith) db.tokens h in
    ground (arith, first-none holds db.grants (some_row-never holds never db.grants))

-- After the revocation of an access token that a grant holds, and that is no refresh token, the token
-- is accepted for no resource.
pub revoked_token_refused :
    (p : Platform) (token resource : Text) (s : Server) (g : Grant)
    → IsSound s.db
    → get_oauth_grant_by_refresh_hash s.db (p.sha256 token) ≡ none
    → get_oauth_grant_by_superseded_refresh_hash s.db (p.sha256 token) ≡ none
    → get_oauth_grant_by_access_token_hash s.db (p.sha256 token) ≡ some g
    → validate_access_token_resource p token resource (revoke_token p token s).1 ≡ err invalid_grant
unfolding validate_access_token_resource revoke_token owner_of
revoked_token_refused p token resource s g sound current older held =
    let hash = p.sha256 token in
    let found = by_access_token_hash-first s.db hash held in
    let only = Unique-first same_id same_id-swap _ s.db.grants sound.distinct_ids found in
    let there =
      first-member _ (λ (h : Grant). h.id == g.id) s.db.grants found ((==_iff g.id g.id).1 refl) in
    let after = committed s (revoke_oauth_grant s.db g.id) in
    let refused =
      by_access_token_hash-none after.db hash
        (rw (committed-tokens g s only there) (hash_gone s.db hash g sound held)) in
    ground arith
