-- ===== src/Proxy/Validation.antt =====
-- ProxySettings.Validate (internal/application/proxy_settings.go).
use redlaunch.Base.{
  ℕ, ◌*◌, Bool, not, ◌&&◌, ◌||◌, List, [], ◌∷◌, ◌++◌, Option, none, some, Text, codes, text_eq, ltb,
  ◌==◌, if◌then◌else◌, is_blank, len, any_char, Result, ok, err, ◌>>=◌,
}
use redlaunch.Base.Number.{ℤ, pos, negsuc}
use redlaunch.Proxy.Settings.{
  Error, invalid_proxy_settings, ProxySettings, ProxyCompression, ProxyBodyLimit, ProxyTimeouts,
  ProxySecurityHeaders,
}

abbrev pub Checked : Type 0
Checked = Result Error (Unit {0})

-- `if value < 0 || value > limit { return invalid(…) }`
abbrev pub in_range : ℕ → ℤ → Checked
in_range limit (pos n) = if ltb limit n then err invalid_proxy_settings else ok tt
in_range limit (negsuc n) = err invalid_proxy_settings

unfoldable pub check_compression : Option ProxyCompression → Checked
check_compression none = ok tt
check_compression (some c) = in_range 1048576 c.minimum_length

unfoldable pub check_body_limit : Option ProxyBodyLimit → Checked
check_body_limit none = ok tt
check_body_limit (some b) = in_range 1099511627776 b.bytes

-- 24*time.Hour
abbrev pub max_timeout : ℕ
max_timeout = 24 * 60 * 60 * 1_000_000_000

-- what follows time.ParseDuration
abbrev pub check_duration : Option ℤ → Checked
check_duration none = err invalid_proxy_settings
check_duration (some d) = in_range max_timeout d

-- the loop over the four timeouts
unfoldable pub check_durations : (Text → Option ℤ) → List Text → Checked
check_durations parse_duration [] = ok tt
check_durations parse_duration (v ∷ vs) =
    if is_blank v
    then check_durations parse_duration vs
    else check_duration (parse_duration v) >>= λ _. check_durations parse_duration vs

unfoldable pub check_timeouts : (Text → Option ℤ) → Option ProxyTimeouts → Checked
check_timeouts parse_duration none = ok tt
check_timeouts parse_duration (some t) =
    check_durations parse_duration (t.dial ∷ t.response_header ∷ t.read ∷ t.write ∷ [])

unfoldable pub check_options : Option ProxySecurityHeaders → Checked
check_options none = ok tt
check_options (some h) =
    if not (is_blank h.content_type_options)
      && not (text_eq h.content_type_options (codes "nosniff"))
    then err invalid_proxy_settings
    else if not (is_blank h.frame_options)
        && not (text_eq h.frame_options (codes "DENY"))
        && not (text_eq h.frame_options (codes "SAMEORIGIN"))
    then err invalid_proxy_settings
    else ok tt

abbrev pub cache_values : Option Text → List Text
cache_values none = []
cache_values (some value) = value ∷ []

abbrev pub header_values : Option ProxySecurityHeaders → List Text
header_values none = []
header_values (some h) =
    h.content_type_options ∷ h.frame_options ∷ h.referrer_policy ∷ h.content_security_policy
    ∷ h.permissions_policy ∷ h.strict_transport_security ∷ []

abbrev pub is_brace : ℕ → Bool
is_brace c = c == b'{' || c == b'}'

abbrev pub is_unprintable : ℕ → Bool
is_unprintable c = ltb c 32 || ltb 126 c

-- the loop over the header values
unfoldable pub check_values : List Text → Checked
check_values [] = ok tt
check_values (value ∷ values) =
    if ltb 4096 (len value) || any_char is_brace value
    then err invalid_proxy_settings
    else if any_char is_unprintable value
    then err invalid_proxy_settings
    else check_values values

-- Validate
unfoldable pub validate : (Text → Option ℤ) → ProxySettings → Checked
unfolding check_compression check_body_limit check_timeouts check_options check_values
validate parse_duration p = check_compression p.compression >>= λ _.
    check_body_limit p.body_limit >>= λ _. check_timeouts parse_duration p.timeouts >>= λ _.
    check_options p.security_headers >>= λ _.
    check_values (cache_values p.cache_control ++ header_values p.security_headers)
