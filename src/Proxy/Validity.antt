-- ===== src/Proxy/Validity.antt =====
-- Which policies Validate accepts (internal/application/proxy_settings.go).
use redlaunch.Base.{
  ℕ, ◌≤◌, ◌≡◌, ◌≢◌, refl, sym, ◌∙◌, ◌↔◌, ◌⊎◌, inl, inr, Bool, true, Option, none, some, arith, Text,
  codes, List, [], ◌∷◌, ◌++◌, ok, err, false, not, ◌&&◌, len, any_char, ◌>>=◌, All, All-append,
  is_blank, text_eq, text_eq_iff, some_injective, if◌then◌else◌,
}
use redlaunch.Base.Number.{ℤ, pos, negsuc}
use redlaunch.Proxy.Settings.{
  invalid_proxy_settings, ProxySettings, ProxyCompression, ProxyBodyLimit, ProxyTimeouts,
  ProxySecurityHeaders,
}
use redlaunch.Proxy.Validation.{
  check_compression, check_body_limit, check_timeouts, check_durations, check_duration,
  check_options, check_values, validate, cache_values, header_values, is_brace, is_unprintable,
  in_range, max_timeout, Checked,
}

abbrev pub InRange : ℕ → ℤ → Type 0
InRange limit (pos n) = n ≤ limit
InRange limit (negsuc n) = ⊥

-- at most 1 MiB
abbrev pub IsCompression : Option ProxyCompression → Type 0
IsCompression none = Unit
IsCompression (some c) = InRange 1_048_576 c.minimum_length

-- at most 1 TiB
abbrev pub IsBodyLimit : Option ProxyBodyLimit → Type 0
IsBodyLimit none = Unit
IsBodyLimit (some b) = InRange 1_099_511_627_776 b.bytes

-- nothing, or a duration of at most a day
abbrev pub IsTimeout : (Text → Option ℤ) → Text → Type 0
IsTimeout parse_duration t =
    (t ≡ []) ⊎ ((n : ℕ) × (parse_duration t ≡ some (pos n)) × (n ≤ 86_400_000_000_000))

abbrev pub IsTimeouts : (Text → Option ℤ) → Option ProxyTimeouts → Type 0
IsTimeouts parse_duration none = Unit
IsTimeouts parse_duration (some t) =
    IsTimeout parse_duration t.dial
    × IsTimeout parse_duration t.response_header
    × IsTimeout parse_duration t.read
    × IsTimeout parse_duration t.write

abbrev pub IsOptions : Option ProxySecurityHeaders → Type 0
IsOptions none = Unit
IsOptions (some h) =
    ((h.content_type_options ≡ []) ⊎ (h.content_type_options ≡ codes "nosniff"))
    × ((h.frame_options ≡ [])
        ⊎ (h.frame_options ≡ codes "DENY")
        ⊎ (h.frame_options ≡ codes "SAMEORIGIN"))

-- a printable ASCII character that is not a brace
abbrev pub IsPlain : ℕ → Type 0
IsPlain c = (32 ≤ c) × (c ≤ 126) × (c ≢ b'{') × (c ≢ b'}')

abbrev pub IsHeaderValue : Text → Type 0
IsHeaderValue value = (len value ≤ 4096) × All IsPlain value

-- the policies as the documentation of the settings has them
abbrev pub IsValid : (Text → Option ℤ) → ProxySettings → Type 0
IsValid parse_duration p =
    IsCompression p.compression
    × IsBodyLimit p.body_limit
    × IsTimeouts parse_duration p.timeouts
    × IsOptions p.security_headers
    × All IsHeaderValue (cache_values p.cache_control)
    × All IsHeaderValue (header_values p.security_headers)

in_range_iff : (limit : ℕ) (z : ℤ) → (in_range limit z ≡ ok tt) ↔ InRange limit z
in_range_iff limit (pos n) = (λ h. ground arith, λ h. ground arith)
in_range_iff limit (negsuc n) = (λ h. cc, λ h. absurd h)

check_compression_iff :
    (c : Option ProxyCompression) → (check_compression c ≡ ok tt) ↔ IsCompression c
unfolding check_compression
check_compression_iff none = (λ h. tt, λ h. refl)
check_compression_iff (some c) = in_range_iff 1048576 c.minimum_length

check_body_limit_iff : (b : Option ProxyBodyLimit) → (check_body_limit b ≡ ok tt) ↔ IsBodyLimit b
unfolding check_body_limit
check_body_limit_iff none = (λ h. tt, λ h. refl)
check_body_limit_iff (some b) = in_range_iff 1099511627776 b.bytes

passes_both : (a b : Checked) → ((a >>= λ _. b) ≡ ok tt) ↔ ((a ≡ ok tt) × (b ≡ ok tt))
passes_both (err e) b = (λ h. cc, λ (h, k). cc)
passes_both (ok u) b = (λ h. (refl, h), λ (h, k). k)

module _ (parse_duration : Text → Option ℤ) where
  check_duration_iff :
      (c : ℕ) (s : Text) (o : Option ℤ)
      → parse_duration (c ∷ s) ≡ o
      → (check_duration o ≡ ok tt) ↔ IsTimeout parse_duration (c ∷ s)
  check_duration_iff c s none e = (λ h. cc, λ t. elim t [ inl q ↦ cc | inr (n, q, l) ↦ cc ])
  check_duration_iff c s (some (negsuc m)) e =
      (λ h. cc, λ t. elim t [ inl q ↦ cc | inr (n, q, l) ↦ cc ])
  check_duration_iff c s (some (pos m)) e = (
    λ h. inr (m, e, (in_range_iff max_timeout (pos m)).0 h),
    λ t. elim t [
      | inl q ↦ cc
      | inr (n, q, l) ↦
          let same = some_injective (sym e ∙ q) in
          (in_range_iff max_timeout (pos m)).1 (ground arith)
    ],
  )

  check_durations_iff :
      (ts : List Text)
      → (check_durations parse_duration ts ≡ ok tt) ↔ All (IsTimeout parse_duration) ts
  unfolding check_durations
  check_durations_iff [] = (λ h. tt, λ h. refl)
  check_durations_iff ([] ∷ ts) =
      (λ h. (inl refl, (check_durations_iff ts).0 h), λ (t, h). (check_durations_iff ts).1 h)
  check_durations_iff ((c ∷ s) ∷ ts) =
      let here = check_duration_iff c s (parse_duration (c ∷ s)) refl in
      let both =
        passes_both (check_duration (parse_duration (c ∷ s))) (check_durations parse_duration ts) in
      (
        λ h. (here.0 (both.0 h).0, (check_durations_iff ts).0 (both.0 h).1),
        λ (t, h). both.1 (here.1 t, (check_durations_iff ts).1 h),
      )

  check_timeouts_iff :
      (t : Option ProxyTimeouts)
      → (check_timeouts parse_duration t ≡ ok tt) ↔ IsTimeouts parse_duration t
  unfolding check_timeouts
  check_timeouts_iff none = (λ h. tt, λ h. refl)
  check_timeouts_iff (some t) =
      let all = check_durations_iff (t.dial ∷ t.response_header ∷ t.read ∷ t.write ∷ []) in
      (
        λ h. let (a, (b, (c, (d, u)))) = all.0 h in (a, b, c, d),
        λ (a, b, c, d). all.1 (a, (b, (c, (d, tt)))),
      )

blank_iff : (t : Text) → (is_blank t ≡ true) ↔ (t ≡ [])
blank_iff [] = (λ h. refl, λ h. refl)
blank_iff (c ∷ s) = (λ h. cc, λ h. ground arith)

option_one :
    (value name : Text)
    → ((not (is_blank value) && not (text_eq value name)) ≡ false) ↔ ((value ≡ []) ⊎ (value ≡ name))
option_one value name = (
  λ h. ground (arith, blank_iff value, text_eq_iff value name),
  λ h. elim h [
    | inl e ↦ ground (arith, (blank_iff value).1 e)
    | inr e ↦ ground (arith, (text_eq_iff value name).1 e)
  ],
)

option_two :
    (value one two : Text)
    → ((not (is_blank value) && not (text_eq value one) && not (text_eq value two)) ≡ false)
      ↔ ((value ≡ []) ⊎ (value ≡ one) ⊎ (value ≡ two))
option_two value one two = (
  λ h. ground (arith, blank_iff value, text_eq_iff value one, text_eq_iff value two),
  λ h. elim h [
    | inl e ↦ ground (arith, (blank_iff value).1 e)
    | inr (inl e) ↦ ground (arith, (text_eq_iff value one).1 e)
    | inr (inr e) ↦ ground (arith, (text_eq_iff value two).1 e)
  ],
)

abbrev refused_when : (a b : Bool) → Checked
refused_when a b =
    if a then err invalid_proxy_settings else if b then err invalid_proxy_settings else ok tt

neither_refused : (a b : Bool) → (refused_when a b ≡ ok tt) ↔ ((a ≡ false) × (b ≡ false))
neither_refused true b = (λ h. cc, λ (h, k). cc)
neither_refused false true = (λ h. cc, λ (h, k). cc)
neither_refused false false = (λ h. (refl, refl), λ h. refl)

check_options_iff : (h : Option ProxySecurityHeaders) → (check_options h ≡ ok tt) ↔ IsOptions h
unfolding check_options
check_options_iff none = (λ h. tt, λ h. refl)
check_options_iff (some h) =
    let content = option_one h.content_type_options (codes "nosniff") in
    let frame = option_two h.frame_options (codes "DENY") (codes "SAMEORIGIN") in
    let both =
      neither_refused
        (not (is_blank h.content_type_options)
          && not (text_eq h.content_type_options (codes "nosniff")))
        (not (is_blank h.frame_options)
          && not (text_eq h.frame_options (codes "DENY"))
          && not (text_eq h.frame_options (codes "SAMEORIGIN"))) in
    (λ k. (content.0 (both.0 k).0, frame.0 (both.0 k).1), λ (c, f). both.1 (content.1 c, frame.1 f))

IsPlain-iff :
    (s : Text)
    → ((any_char is_brace s ≡ false) × (any_char is_unprintable s ≡ false)) ↔ All IsPlain s
unfolding any_char
IsPlain-iff [] = (λ h. tt, λ h. (refl, refl))
IsPlain-iff (c ∷ s) = (
  λ (b, u). (
    (ground arith, ground arith, ground arith, ground arith),
    (IsPlain-iff s).0 (ground arith, ground arith),
  ),
  λ (h, k). let (b, u) = (IsPlain-iff s).1 k in (ground arith, ground arith),
)

check_values_iff : (values : List Text) → (check_values values ≡ ok tt) ↔ All IsHeaderValue values
unfolding check_values
check_values_iff [] = (λ h. tt, λ h. refl)
check_values_iff (value ∷ values) = (
  λ h. (
    (ground arith, (IsPlain-iff value).0 (ground arith, ground arith)),
    (check_values_iff values).0 (ground arith),
  ),
  λ ((short, plain), rest).
      let (b, u) = (IsPlain-iff value).1 plain in
      let more = (check_values_iff values).1 rest in ground (arith, b, u, more),
)

All-append_left : (xs ys : List Text) → All IsHeaderValue (xs ++ ys) → All IsHeaderValue xs
All-append_left [] ys h = tt
All-append_left (x ∷ xs) ys (v, h) = (v, All-append_left xs ys h)

All-append_right : (xs ys : List Text) → All IsHeaderValue (xs ++ ys) → All IsHeaderValue ys
All-append_right [] ys h = h
All-append_right (x ∷ xs) ys (v, h) = All-append_right xs ys h

-- five checks in a row pass when each does
five_checks :
    (a b c d e : Checked)
    → (a >>= λ _. b >>= λ _. c >>= λ _. d >>= λ _. e) ≡ ok tt
    → (a ≡ ok tt) × (b ≡ ok tt) × (c ≡ ok tt) × (d ≡ ok tt) × (e ≡ ok tt)
five_checks a b c d e h = (ground arith, ground arith, ground arith, ground arith, ground arith)

-- Validate accepts a policy exactly when, for each category that is set, the minimum length of the
-- compression is between 0 and 1,048,576 and the body limit between 0 and 1,099,511,627,776; each
-- timeout is empty or reads as a duration between 0 and 24 hours; the content type options are empty
-- or nosniff and the frame options empty, DENY or SAMEORIGIN; and each value of a header has at most
-- 4,096 bytes, all of them printable ASCII and none a brace.
pub validate_iff :
    (parse_duration : Text → Option ℤ) (p : ProxySettings)
    → (validate parse_duration p ≡ ok tt) ↔ IsValid parse_duration p
unfolding validate
validate_iff parse_duration p =
    let cache = cache_values p.cache_control in
    let headers = header_values p.security_headers in
    (
      λ h.
          let (c, b, t, o, w) =
            five_checks (check_compression p.compression) (check_body_limit p.body_limit)
              (check_timeouts parse_duration p.timeouts) (check_options p.security_headers)
              (check_values (cache ++ headers)) h in
          let values = (check_values_iff (cache ++ headers)).0 w in
          (
            (check_compression_iff p.compression).0 c,
            (check_body_limit_iff p.body_limit).0 b,
            (check_timeouts_iff parse_duration p.timeouts).0 t,
            (check_options_iff p.security_headers).0 o,
            All-append_left cache headers values,
            All-append_right cache headers values,
          ),
      λ (c, b, t, o, v, w).
          rw
            (
              (check_compression_iff p.compression).1 c,
              (check_body_limit_iff p.body_limit).1 b,
              (check_timeouts_iff parse_duration p.timeouts).1 t,
              (check_options_iff p.security_headers).1 o,
            )
            ((check_values_iff (cache ++ headers)).1 (All-append IsHeaderValue cache headers v w)),
    )
