-- ===== src/Tests/ProxyTests.antt =====
-- internal/application/proxy_settings.go on two policies.
use redlaunch.Base.{
  ◌≡◌, ◌↔◌, refl, true, false, none, some, Option, Text, [], codes, ok, text_eq, len, any_char,
}
use redlaunch.Base.Number.{ℤ, pos}
use redlaunch.Proxy.Settings.{ProxySettings}
use redlaunch.Proxy.Validation.{validate, check_durations}
use redlaunch.Proxy.Validity.{validate_iff, IsValid}

abbrev global : ProxySettings
global = record {
  compression =
      some (record { gzip = true; zstandard = false; brotli = false; minimum_length = pos 512 });
  security_headers = none;
  body_limit = some (record { bytes = pos 1000 });
  timeouts =
      some (record { dial = codes "5s"; response_header = []; read = []; write = codes "5s" });
  cache_control = some (codes "no-store");
}

abbrev own : ProxySettings
own = record {
  compression = none;
  security_headers = some (record {
    content_type_options = codes "nosniff";
    frame_options = codes "DENY";
    referrer_policy = [];
    content_security_policy = [];
    permissions_policy = [];
    strict_transport_security = [];
  });
  body_limit = none;
  timeouts = none;
  cache_control = some [];
}

-- every duration is five seconds
abbrev parse_duration : Text → Option ℤ
parse_duration t = some (pos 5_000_000_000)

global_valid : validate parse_duration global ≡ ok tt
unfolding validate check_durations len any_char
global_valid = refl

own_valid : validate parse_duration own ≡ ok tt
unfolding validate text_eq len any_char
own_valid = refl

validate_iff_example : (validate parse_duration own ≡ ok tt) ↔ IsValid parse_duration own
validate_iff_example = validate_iff parse_duration own
