-- ===== src/Proxy/Settings.antt =====
-- internal/application/proxy_settings.go; a nil category is `none`. The messages of the errors are
-- left out, and time.ParseDuration is a parameter, with its nanoseconds as result.
use redlaunch.Base.{Bool, Option, none, some, Text}
use redlaunch.Base.Number.{ℤ}

-- ErrInvalidProxySettings
pub data Error : Type 0 where
  invalid_proxy_settings : Error

pub record ProxyCompression : Type 0 where
  pub gzip : Bool
  pub zstandard : Bool
  pub brotli : Bool
  pub minimum_length : ℤ

pub record ProxySecurityHeaders : Type 0 where
  pub content_type_options : Text
  pub frame_options : Text
  pub referrer_policy : Text
  pub content_security_policy : Text
  pub permissions_policy : Text
  pub strict_transport_security : Text

pub record ProxyBodyLimit : Type 0 where
  pub bytes : ℤ

pub record ProxyTimeouts : Type 0 where
  pub dial : Text
  pub response_header : Text
  pub read : Text
  pub write : Text

pub record ProxySettings : Type 0 where
  pub compression : Option ProxyCompression
  pub security_headers : Option ProxySecurityHeaders
  pub body_limit : Option ProxyBodyLimit
  pub timeouts : Option ProxyTimeouts
  pub cache_control : Option Text

pub record ProxyCompressionInput : Type 0 where
  pub gzip : Bool
  pub zstandard : Bool
  pub brotli : Bool
  pub minimum_length : ℤ

pub record ProxySecurityHeadersInput : Type 0 where
  pub content_type_options : Text
  pub frame_options : Text
  pub referrer_policy : Text
  pub content_security_policy : Text
  pub permissions_policy : Text
  pub strict_transport_security : Text

pub record ProxyBodyLimitInput : Type 0 where
  pub bytes : ℤ

pub record ProxyTimeoutsInput : Type 0 where
  pub dial : Text
  pub response_header : Text
  pub read : Text
  pub write : Text

pub record ProxySettingsInput : Type 0 where
  pub compression : Option ProxyCompressionInput
  pub security_headers : Option ProxySecurityHeadersInput
  pub body_limit : Option ProxyBodyLimitInput
  pub timeouts : Option ProxyTimeoutsInput
  pub cache_control : Option Text

abbrev compression_from : ProxyCompressionInput → ProxyCompression
compression_from c = record {
  gzip = c.gzip;
  zstandard = c.zstandard;
  brotli = c.brotli;
  minimum_length = c.minimum_length;
}

abbrev headers_from : ProxySecurityHeadersInput → ProxySecurityHeaders
headers_from h = record {
  content_type_options = h.content_type_options;
  frame_options = h.frame_options;
  referrer_policy = h.referrer_policy;
  content_security_policy = h.content_security_policy;
  permissions_policy = h.permissions_policy;
  strict_transport_security = h.strict_transport_security;
}

abbrev timeouts_from : ProxyTimeoutsInput → ProxyTimeouts
timeouts_from t = record {
  dial = t.dial;
  response_header = t.response_header;
  read = t.read;
  write = t.write;
}

-- `if p.Category != nil { result.Category = … }`
abbrev pub where_set : {A B : Type 0} → (A → B) → Option A → Option B
where_set f none = none
where_set f (some a) = some (f a)

-- ProxySettingsFromInput
unfoldable pub proxy_settings_from_input : ProxySettingsInput → ProxySettings
proxy_settings_from_input p = record {
  compression = where_set compression_from p.compression;
  security_headers = where_set headers_from p.security_headers;
  body_limit = where_set (λ (b : ProxyBodyLimitInput). record { bytes = b.bytes }) p.body_limit;
  timeouts = where_set timeouts_from p.timeouts;
  cache_control = where_set (λ value. value) p.cache_control;
}

abbrev compression_input : ProxyCompression → ProxyCompressionInput
compression_input c = record {
  gzip = c.gzip;
  zstandard = c.zstandard;
  brotli = c.brotli;
  minimum_length = c.minimum_length;
}

abbrev headers_input : ProxySecurityHeaders → ProxySecurityHeadersInput
headers_input h = record {
  content_type_options = h.content_type_options;
  frame_options = h.frame_options;
  referrer_policy = h.referrer_policy;
  content_security_policy = h.content_security_policy;
  permissions_policy = h.permissions_policy;
  strict_transport_security = h.strict_transport_security;
}

abbrev timeouts_input : ProxyTimeouts → ProxyTimeoutsInput
timeouts_input t = record {
  dial = t.dial;
  response_header = t.response_header;
  read = t.read;
  write = t.write;
}

-- ProxySettingsInputFrom
unfoldable pub proxy_settings_input_from : ProxySettings → ProxySettingsInput
proxy_settings_input_from p = record {
  compression = where_set compression_input p.compression;
  security_headers = where_set headers_input p.security_headers;
  body_limit = where_set (λ (b : ProxyBodyLimit). record { bytes = b.bytes }) p.body_limit;
  timeouts = where_set timeouts_input p.timeouts;
  cache_control = where_set (λ value. value) p.cache_control;
}

-- `if p.Category == nil { p.Category = global.Category }`
abbrev pub inherited : {A : Type 0} → Option A → Option A → Option A
inherited none global = global
inherited (some own) global = some own

-- Resolve
unfoldable pub resolve : ProxySettings → ProxySettings → ProxySettings
resolve p global = record {
  compression = inherited p.compression global.compression;
  security_headers = inherited p.security_headers global.security_headers;
  body_limit = inherited p.body_limit global.body_limit;
  timeouts = inherited p.timeouts global.timeouts;
  cache_control = inherited p.cache_control global.cache_control;
}
