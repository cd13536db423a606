-- ===== src/Auth/Current.antt =====
-- What is true of a user whose session is accepted.
use redlaunch.Base.{
  ℕ, ◌≡◌, ◌≢◌, refl, ap, ◌∙◌, subst, arith, inl, inr, Bool, true, false, not, if◌then◌else◌, Text,
  [], text_eq, text_eq_iff, split, Option, none, some, Bool-cases,
}
use redlaunch.Base.Number.{ℤ, pos, int_eq_iff, int_leb, is_positive}
use redlaunch.Auth.Platform.{Platform, Bytes}
use redlaunch.Auth.Users.{User, LocalUser, password_provider, google_provider}
use redlaunch.Auth.Sessions.{
  Answer, found, missing, unavailable, Service, unix, bar, decode_signed_value, parse_session_user,
}
use redlaunch.Auth.Validation.{
  Checked, refused, accepted, check_account, check_local, check_email, check_user, check_parsed,
  check_signed, validate_session,
}

-- The store knows the user now.
pub data IsKnown (s : Service) (u : User) : Type 0 where
  by_account :
      (a : LocalUser)
      → s.user_by_id u.account_id ≡ found a
      → a.credential_version ≡ u.credential_version
      → a.email ≡ u.email
      → (u.provider ≡ google_provider → s.google_enabled ≡ true)
      → (u.provider ≡ password_provider → a.password_hash ≢ [])
      → IsKnown s u
  by_name :
      (a : LocalUser)
      → is_positive u.account_id ≡ false
      → s.local_user u.username ≡ found a
      → a.credential_version ≡ u.credential_version
      → IsKnown s u
  by_email :
      is_positive u.account_id ≡ false
      → s.has_accounts ≡ false
      → s.google_enabled ≡ true
      → s.authorized_email u.email ≡ some true
      → IsKnown s u

pub record IsCurrent (p : Platform) (s : Service) (now : ℕ) (value : Text) (u : User) : Type 0 where
  pub payload : Text
  pub expires : ℤ
  pub signed : decode_signed_value p value ≡ some (payload, p.hmac payload s.secret)
  pub parsed : parse_session_user p (split bar payload) ≡ some (u, expires)
  pub unexpired : int_leb expires (pos (unix now)) ≡ false
  pub known : IsKnown s u

accepted_unless :
    (b : Bool) {u v : User}
    → (if b then refused else accepted u) ≡ accepted v
    → (b ≡ false) × (u ≡ v)
accepted_unless true h = cc
accepted_unless false h = (refl, ground arith)

accepted_when :
    (b : Bool) {u v : User}
    → (if b then accepted u else refused) ≡ accepted v
    → (b ≡ true) × (u ≡ v)
accepted_when true h = (refl, ground arith)
accepted_when false h = cc

refused_unless :
    (b : Bool) {c : Checked} {v : User}
    → (if b then c else refused) ≡ accepted v
    → (b ≡ true) × (c ≡ accepted v)
refused_unless true h = (refl, h)
refused_unless false h = cc

refused_when :
    (b : Bool) {c : Checked} {v : User}
    → (if b then refused else c) ≡ accepted v
    → (b ≡ false) × (c ≡ accepted v)
refused_when true h = cc
refused_when false h = (refl, h)

module _ (s : Service) (u v : User) where
  Known : Type 0
  Known = (u ≡ v) × IsKnown s u

  check_account-IsKnown :
      (o : Answer) → s.user_by_id u.account_id ≡ o → check_account s u o ≡ accepted v → Known
  unfolding check_account Known
  check_account-IsKnown missing e h = cc
  check_account-IsKnown unavailable e h = cc
  check_account-IsKnown (found a) e h =
      let (passed, same) = accepted_unless _ h in
      (
        same,
        by_account a e (int_eq_iff a.credential_version u.credential_version (ground arith))
            (ground (arith, text_eq_iff a.email u.email))
            (λ g. ground (arith, text_eq_iff u.provider google_provider))
            (λ g b.
              ground
                (arith, text_eq_iff u.provider password_provider, text_eq_iff a.password_hash [])),
      )

  check_local-IsKnown :
      (o : Answer)
      → is_positive u.account_id ≡ false
      → s.local_user u.username ≡ o
      → check_local u o ≡ accepted v
      → Known
  unfolding check_local Known
  check_local-IsKnown missing z e h = cc
  check_local-IsKnown unavailable z e h = cc
  check_local-IsKnown (found a) z e h =
      let (passed, same) = accepted_when _ h in
      (same, by_name a z e (int_eq_iff a.credential_version u.credential_version passed))

  check_email-IsKnown :
      (o : Option Bool)
      → is_positive u.account_id ≡ false
      → s.has_accounts ≡ false
      → s.google_enabled ≡ true
      → s.authorized_email u.email ≡ o
      → check_email u o ≡ accepted v
      → Known
  unfolding check_email Known
  check_email-IsKnown none z a g e h = cc
  check_email-IsKnown (some b) z a g e h =
      let (passed, same) = accepted_when b h in (same, by_email z a g (e ∙ ap some passed))

  check_user-IsKnown : check_user s u ≡ accepted v → Known
  unfolding check_user
  check_user-IsKnown h = elim (Bool-cases (is_positive u.account_id)) [
    | inl a ↦ check_account-IsKnown _ refl (ground arith)
    | inr a ↦ elim (Bool-cases (text_eq u.username [])) [
      | inl n ↦ check_email-IsKnown _ a (ground arith) (ground arith) refl (ground arith)
      | inr n ↦ check_local-IsKnown _ a refl (ground arith)
    ]
  ]

module _ (p : Platform) (s : Service) (now : ℕ) where
  checked_parsed :
      (o : Option (User × ℤ)) (v : User)
      → check_parsed s now o ≡ accepted v
      → (expires : ℤ) × (o ≡ some (v, expires))
        × (int_leb expires (pos (unix now)) ≡ false)
        × IsKnown s v
  unfolding check_parsed Known
  checked_parsed none v h = cc
  checked_parsed (some (u, expires)) v h =
      let (fresh, c) = refused_when _ h in
      let (same, known) = check_user-IsKnown s u v c in
      (expires, ap (λ w. some (w, expires)) same, fresh, subst (IsKnown s) same known)

  checked_signed :
      (value : Text) (o : Option (Text × Bytes)) (v : User)
      → decode_signed_value p value ≡ o
      → check_signed p s now o ≡ accepted v
      → IsCurrent p s now value v
  unfolding check_signed
  checked_signed value none v e h = cc
  checked_signed value (some (payload, signature)) v e h =
      let (equal, c) = refused_when (not (text_eq signature (p.hmac payload s.secret))) h in
      let (expires, parsed, fresh, known) = checked_parsed _ v c in
      record {
        payload = payload;
        expires = expires;
        signed =
            e
            ∙ ap (λ g. some (payload, g))
                ((text_eq_iff signature (p.hmac payload s.secret)).0 (ground arith));
        parsed = parsed;
        unexpired = fresh;
        known = known;
      }

  -- A session is accepted for a user only if its text decodes to a payload and the payload's hmac under
  -- the secret, the payload reads as that user and a time that has not come, and the store knows the
  -- user now: the account with that ID has the same credential version and email address, and a
  -- password or Google login as its provider needs; or the local user with that name has the same
  -- credential version; or, where there are no accounts, the email address is authorized.
  pub validate_session-IsCurrent :
      (value : Text) (u : User)
      → validate_session p s now value ≡ accepted u
      → IsCurrent p s now value u
  unfolding validate_session
  validate_session-IsCurrent value u h =
      let (given, c) = refused_when _ h in checked_signed value _ u refl c
