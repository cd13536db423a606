-- ===== src/Auth/Acceptance.antt =====
-- A session that NewSession makes for an account is accepted until it expires or the account changes.
use redlaunch.Base.{
  ℕ, ◌+◌, ◌≤◌, ◌<◌, ◌≡◌, ◌≢◌, refl, sym, ap, ◌∙◌, subst, arith, true, false, ltb, leb, Text, [],
  ◌∷◌, ◌++◌, text_eq, text_eq_iff, text_eq_refl, len, split, some, ok,
}
use redlaunch.Base.Number.{pos, int_eq_refl, int_leb, format_int, max_int64}
use redlaunch.Auth.Platform.{Platform, Bytes}
use redlaunch.Auth.Users.{User, LocalUser, join, normalize_user, password_provider, google_provider}
use redlaunch.Auth.Sessions.{
  found, Service, enabled, unix, bar, session_parts, encode_signed_value, new_session,
  parse_session_user,
}
use redlaunch.Auth.Validation.{
  accepted, check_account, check_user, check_parsed, check_signed, validate_session,
  max_session_value_size,
}
use redlaunch.Auth.SessionTexts.{IsUrlBase64, IsAccount, decode-encode_signed_value, positive}
use redlaunch.Auth.AccountTexts.{session_text, session_text-read, session_text-given}

-- The store still has the account, as it was when the session was made.
pub record IsUnchanged (s : Service) (u : User) (id version : ℕ) : Type 0 where
  pub account : LocalUser
  pub has_accounts : s.has_accounts ≡ true
  pub stored : s.user_by_id (pos id) ≡ found account
  pub same_version : account.credential_version ≡ pos version
  pub same_email : account.email ≡ u.email
  pub google_on : u.provider ≡ google_provider → s.google_enabled ≡ true
  pub password_set : u.provider ≡ password_provider → account.password_hash ≢ []

check_user-unchanged :
    (p : Platform) (s : Service) (u : User) (id version : ℕ)
    → IsAccount p u id version
    → IsUnchanged s u id version
    → check_user s u ≡ accepted u
unfolding check_user check_account
check_user-unchanged p s u id version w q =
    rw
      (
        positive p u id version w,
        q.has_accounts,
        ap s.user_by_id w.id_given ∙ q.stored,
        q.same_version ∙ sym w.version_given,
        int_eq_refl u.credential_version,
        q.same_email,
        text_eq_refl u.email,
      )
      (ground (
        arith,
        q.google_on,
        q.password_set,
        text_eq_iff u.provider google_provider,
        text_eq_iff u.provider password_provider,
        text_eq_iff q.account.password_hash [],
      ))

append-blank : (a b : Text) (c : ℕ) → text_eq (a ++ c ∷ b) [] ≡ false
unfolding text_eq
append-blank [] b c = refl
append-blank (d ∷ a) b c = refl

signed_value-blank :
    (p : Platform) (payload secret : Text)
    → text_eq (encode_signed_value p payload secret) [] ≡ false
unfolding encode_signed_value
signed_value-blank p payload secret =
    append-blank (p.encode_text payload) (p.encode_signature (p.hmac payload secret)) b'.'

-- a signed payload that reads as a user and a time to come
signed-accepted :
    (p : Platform) (s : Service) (later e : ℕ) (u : User) (payload : Text)
    → IsUrlBase64 p
    → payload ≢ []
    → p.hmac payload s.secret ≢ []
    → enabled s ≡ true
    → len (encode_signed_value p payload s.secret) ≤ max_session_value_size
    → parse_session_user p (split bar payload) ≡ some (u, pos e)
    → unix later < e
    → check_user s u ≡ accepted u
    → validate_session p s later (encode_signed_value p payload s.secret) ≡ accepted u
unfolding validate_session check_signed check_parsed int_leb
signed-accepted p s later e u payload laws given signed on short read early known =
    rw
      (
        on,
        not_blank,
        not_long,
        decode-encode_signed_value p laws payload s.secret given signed,
        text_eq_refl (p.hmac payload s.secret),
        read,
        not_over,
      )
      known
  where
    not_blank : text_eq (encode_signed_value p payload s.secret) [] ≡ false
    not_blank = signed_value-blank p payload s.secret

    not_long : ltb max_session_value_size (len (encode_signed_value p payload s.secret)) ≡ false
    not_long = ground arith

    not_over : leb e (unix later) ≡ false
    not_over = ground arith

-- what NewSession returns for an identity in normal form
new_session-eq :
    (p : Platform) (s : Service) (u : User) (now : ℕ) (nonce : Bytes) (value : Text)
    → normalize_user p u ≡ ok u
    → new_session p s now nonce u ≡ ok value
    → (enabled s ≡ true)
      × (encode_signed_value p
            (join bar (
              session_parts p
                (format_int (pos (unix (now + s.duration))))
                (p.encode_signature nonce)
                u))
            s.secret
          ≡ value)
unfolding new_session
new_session-eq p s u now nonce value n h = (ground arith, ground (arith, n))

pub new_session-accepted :
    (p : Platform) (s : Service) (u : User) (id version now later : ℕ) (nonce : Bytes)
    (value : Text)
    → IsUrlBase64 p
    → IsAccount p u id version
    → IsUnchanged s u id version
    → nonce ≢ []
    → ((payload : Text) → p.hmac payload s.secret ≢ [])
    → unix (now + s.duration) ≤ max_int64
    → unix later < unix (now + s.duration)
    → len value ≤ max_session_value_size
    → new_session p s now nonce u ≡ ok value
    → validate_session p s later value ≡ accepted u
unfolding session_text
new_session-accepted p s u id version now later nonce value laws w q drawn signed small early short
      h =
    let payload : Text =
      session_text p laws u id version w (unix (now + s.duration)) small nonce drawn in
    let (on, made) = new_session-eq p s u now nonce value w.normal h in
    subst (λ v. validate_session p s later v ≡ accepted u) made
      (signed-accepted p s later (unix (now + s.duration)) u payload laws
        (session_text-given p laws u id version w (unix (now + s.duration)) small nonce drawn)
        (signed payload) on (subst (λ v. len v ≤ max_session_value_size) (sym made) short)
        (session_text-read p laws u id version w (unix (now + s.duration)) small nonce drawn) early
        (check_user-unchanged p s u id version w q))
