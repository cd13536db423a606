-- ===== src/Auth/AccountTexts.antt =====
-- The text of the session of an account reads as this account.
use redlaunch.Base.{
  ℕ, ◌≤◌, ◌≡◌, ◌≢◌, refl, arith, Text, [], ◌∷◌, List, text_eq, split, Lacks, some, ok, any_char,
  All,
}
use redlaunch.Base.Number.{pos, parse_int, parse_int-format_nat, format_int, format_nat, max_int64}
use redlaunch.Auth.Platform.{Platform, Bytes}
use redlaunch.Auth.Users.{User, join, normalize_user}
use redlaunch.Auth.Sessions.{
  bar, user_tag, session_parts, normalized, account_user, finished, user_session,
  parse_session_user,
}
use redlaunch.Auth.SessionTexts.{
  IsUrlBase64, IsAccount, split-join, format_nat-barless, text_eq-blank, positive, provider-barless,
  renamed, barless_by_test,
}

module _ (p : Platform) (laws : IsUrlBase64 p) (u : User) (id version : ℕ)
    (w : IsAccount p u id version) (e : ℕ) (small : e ≤ max_int64) (nonce : Bytes)
    (drawn : nonce ≢ []) where
  account_parts : List Text
  account_parts =
      format_nat id
      ∷ u.provider
      ∷ format_nat version
      ∷ p.encode_text u.email
      ∷ p.encode_text u.name
      ∷ p.encode_text u.picture_url
      ∷ format_nat e
      ∷ p.encode_signature nonce
      ∷ []

  session_parts-account :
      session_parts p (format_int (pos e)) (p.encode_signature nonce) u ≡ user_tag ∷ account_parts
  unfolding session_parts format_int account_parts
  session_parts-account = rw (positive p u id version w, w.id_given, w.version_given) refl

  account_parts-barless : All (Lacks bar) account_parts
  unfolding account_parts
  account_parts-barless = (
    format_nat-barless id,
    (
      provider-barless p u id version w,
      (
        format_nat-barless version,
        (
          laws.text_barless u.email,
          (
            laws.text_barless u.name,
            (
              laws.text_barless u.picture_url,
              (format_nat-barless e, (laws.signature_barless nonce, tt)),
            ),
          ),
        ),
      ),
    ),
  )

  read_back : User
  read_back = record {
    account_id = pos id;
    provider = u.provider;
    username = u.name;
    credential_version = pos version;
    email = u.email;
    name = u.name;
    picture_url = u.picture_url;
  }

  read_back-normal : normalize_user p read_back ≡ ok u
  unfolding read_back
  read_back-normal = rw (← w.id_given, ← w.version_given) (renamed p u id version w)

  account_user-read_back :
      account_user p
        (parse_int (format_nat id))
        u.provider
        (parse_int (format_nat version))
        (p.decode_text (p.encode_text u.email))
        (p.decode_text (p.encode_text u.name))
        (p.decode_text (p.encode_text u.picture_url))
      ≡ some read_back
  unfolding account_user read_back
  account_user-read_back =
      rw
        (
          parse_int-format_nat id w.id_small,
          parse_int-format_nat version w.version_small,
          laws.text_decodes u.email,
          laws.text_decodes u.name,
          laws.text_decodes u.picture_url,
        )
        (ground (arith, w.id_positive))

  user_session-account : user_session p account_parts ≡ some (u, pos e)
  unfolding user_session account_parts finished normalized
  user_session-account =
      rw
        (
          account_user-read_back,
          parse_int-format_nat e small,
          finished,
          text_eq-blank (p.encode_signature nonce) (laws.signature_given nonce drawn),
          normalized,
          read_back-normal,
        )
        refl

  unfoldable pub session_text : Text
  session_text = join bar (session_parts p (format_int (pos e)) (p.encode_signature nonce) u)

  pub session_text-read : parse_session_user p (split bar session_text) ≡ some (u, pos e)
  unfolding session_text parse_session_user any_char text_eq
  session_text-read =
      rw
        (
          session_parts-account,
          split-join bar user_tag account_parts (barless_by_test user_tag refl)
              account_parts-barless,
          user_session-account,
        )
        refl

  pub session_text-given : session_text ≢ []
  unfolding session_text join account_parts
  session_text-given = rw session_parts-account (λ b. ground arith)
