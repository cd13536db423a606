-- ===== src/Auth/SessionTexts.antt =====
-- The texts of sessions are read back.
use redlaunch.Base.{
  ℕ, ◌≤◌, ◌<◌, ◌≡◌, ◌≢◌, refl, ap, ◌∙◌, arith, ◌⊎◌, inl, inr, true, false, Text, [], ◌∷◌, List,
  text_eq, text_eq_iff, split, split-append, split-Lacks, Lacks, some, ok, All, All-map, any_char,
  ◌==◌,
}
use redlaunch.Base.Trimming.{cut-append}
use redlaunch.Base.Number.{pos, is_positive, format_nat, format_nat-IsDigit, max_int64}
use redlaunch.Auth.Platform.{Platform, Bytes}
use redlaunch.Auth.Users.{
  User, join, normalize_user, normalize_account, with_email, password_provider, google_provider,
}
use redlaunch.Auth.Sessions.{bar, encode_signed_value, decoded_parts, decode_signed_value}

-- What base64.RawURLEncoding does: it is decoded again, has neither a bar nor a dot, and is empty for
-- nothing only.
pub record IsUrlBase64 (p : Platform) : Type 0 where
  pub text_decodes : (t : Text) → p.decode_text (p.encode_text t) ≡ some t
  pub text_barless : (t : Text) → Lacks bar (p.encode_text t)
  pub text_dotless : (t : Text) → Lacks b'.' (p.encode_text t)
  pub text_given : (t : Text) → t ≢ [] → p.encode_text t ≢ []
  pub signature_decodes : (b : Bytes) → p.decode_signature (p.encode_signature b) ≡ some b
  pub signature_barless : (b : Bytes) → Lacks bar (p.encode_signature b)
  pub signature_given : (b : Bytes) → b ≢ [] → p.encode_signature b ≢ []

pub split-join :
    (sep : ℕ) (part : Text) (parts : List Text)
    → Lacks sep part
    → All (Lacks sep) parts
    → split sep (join sep (part ∷ parts)) ≡ part ∷ parts
unfolding join
split-join sep part [] h hs = split-Lacks sep part h
split-join sep part (next ∷ parts) h (n, hs) =
    split-append sep part (join sep (next ∷ parts)) h
    ∙ ap (λ l. part ∷ l) (split-join sep next parts n hs)

pub format_nat-barless : (n : ℕ) → Lacks bar (format_nat n)
format_nat-barless n =
    All-map {Q = λ c. c ≢ bar} (λ c d e. ground arith) (format_nat n) (format_nat-IsDigit n)

pub text_eq-blank : (t : Text) → t ≢ [] → text_eq t [] ≡ false
text_eq-blank t h = ground (arith, text_eq_iff t [])

module _ (p : Platform) (laws : IsUrlBase64 p) where
  -- a signed value is taken apart again
  pub decode-encode_signed_value :
      (payload secret : Text)
      → payload ≢ []
      → p.hmac payload secret ≢ []
      → decode_signed_value p (encode_signed_value p payload secret)
        ≡ some (payload, p.hmac payload secret)
  unfolding decode_signed_value encode_signed_value decoded_parts
  decode-encode_signed_value payload secret given signed =
      rw
        (
          decode_signed_value,
          encode_signed_value,
          cut-append b'.' (p.encode_text payload) (p.encode_signature (p.hmac payload secret))
              (laws.text_dotless payload),
          text_eq-blank (p.encode_text payload) (laws.text_given payload given),
          text_eq-blank (p.encode_signature (p.hmac payload secret))
              (laws.signature_given (p.hmac payload secret) signed),
          laws.text_decodes payload,
          laws.signature_decodes (p.hmac payload secret),
        )
        refl

pub barless_by_test : (t : Text) → any_char (λ c. c == bar) t ≡ false → Lacks bar t
unfolding any_char
barless_by_test [] h = tt
barless_by_test (c ∷ t) h = (λ e. ground arith, barless_by_test t (ground arith))

-- An identity in normal form of an account with an email address.
pub record IsAccount (p : Platform) (u : User) (id version : ℕ) : Type 0 where
  pub id_given : u.account_id ≡ pos id
  pub id_positive : 0 < id
  pub id_small : id ≤ max_int64
  pub version_given : u.credential_version ≡ pos version
  pub version_small : version ≤ max_int64
  pub email_given : u.email ≢ []
  pub normal : normalize_user p u ≡ ok u

module _ (p : Platform) (u : User) (id version : ℕ) (w : IsAccount p u id version) where
  pub positive : is_positive u.account_id ≡ true
  positive = rw w.id_given (ground (arith, w.id_positive))

  normal_account : normalize_account p u ≡ ok u
  unfolding normalize_user
  normal_account = ground (arith, positive, w.normal)

  provider_known : (u.provider ≡ password_provider) ⊎ (u.provider ≡ google_provider)
  unfolding normalize_account
  provider_known = ground (
    arith,
    normal_account,
    text_eq_iff u.provider password_provider,
    text_eq_iff u.provider google_provider,
  )

  pub provider-barless : Lacks bar u.provider
  unfolding any_char
  provider-barless = elim provider_known [
    | inl e ↦ rw e (barless_by_test password_provider refl)
    | inr e ↦ rw e (barless_by_test google_provider refl)
  ]

  -- The username of the parsed identity is its name, and is dropped again.
  pub renamed : normalize_user p (record u { username = u.name }) ≡ ok u
  unfolding normalize_user normalize_account with_email
  renamed =
      rw (positive, text_eq-blank u.email w.email_given)
        (ground (arith, normal_account, text_eq-blank u.email w.email_given))
