-- ===== src/Tests.antt =====
-- The theorems at concrete inputs, and runs of the definitions on inputs that can be followed in the
-- source.
mod ReleaseTests
mod RetentionTests
mod OAuthTests
mod ApiTokenTests
mod ProxyTests
mod RegistryTests
mod LockTests
mod UpdateTests
mod AuthTests
mod AccountTests
mod ConfigTests
