-- ===== src/OAuth/Server.antt =====
-- internal/service/oauth.go: the authorization server. A method takes the time of the call (`now`)
-- and the random secrets that it draws, and returns its result with the new state; a call is
-- taken as one step.
pub mod State
pub mod Register
pub mod Authorize
pub mod Exchange
pub mod Refresh
pub mod Connections
pub mod Calls
pub mod Pending
pub mod Codes
pub mod Cases
pub mod Kept
pub mod Sound
pub mod Limits
pub mod Bounds
pub mod Revocation
pub mod Issued
pub mod Replays
