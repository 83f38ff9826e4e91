-- ===== src/Oauth.antt =====
-- The authorization server, crates/mcpmem-oauth.
pub mod Limits
pub mod Store
pub mod Token
pub mod Registration
pub mod Consent
