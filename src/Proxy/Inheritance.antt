-- ===== src/Proxy/Inheritance.antt =====
-- The machine form of a policy and the inheritance of its categories
-- (internal/application/proxy_settings.go).
use redlaunch.Base.{◌≡◌, arith}
use redlaunch.Proxy.Settings.{
  ProxySettings, ProxySettingsInput, proxy_settings_from_input, proxy_settings_input_from, resolve,
}

-- The machine form of a policy is read back as the policy, and a policy that is read is written as it was.
pub proxy_settings_input_roundtrip :
    (p : ProxySettings) (i : ProxySettingsInput)
    → (proxy_settings_from_input (proxy_settings_input_from p) ≡ p)
      × (proxy_settings_input_from (proxy_settings_from_input i) ≡ i)
unfolding proxy_settings_from_input proxy_settings_input_from
proxy_settings_input_roundtrip p i = (ground arith, ground arith)

-- Inheritance does not depend on the grouping of three policies.
pub resolve_assoc : (p q r : ProxySettings) → resolve (resolve p q) r ≡ resolve p (resolve q r)
unfolding resolve
resolve_assoc p q r = ground arith
