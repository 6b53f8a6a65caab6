-- ===== src/Compat.antt =====
-- The compatibility API: sessions of Matrix clients that log in the legacy way, with a password or by
-- single sign-on, crates/data-model/src/compat.rs, crates/storage/src/compat.rs and
-- crates/handlers/src/compat.
pub mod Device
pub mod Session
pub mod Rows
pub mod Lookup
pub mod Tokens
pub mod Login
pub mod Sso
pub mod Endpoint
pub mod LoginPost
pub mod RefreshPost
pub mod LogoutPost
pub mod ScopeToken
pub mod LookupLaws
pub mod Rotation
pub mod Rotated
pub mod Refreshed
pub mod Exchanged
pub mod LoginOnce
pub mod SsoPages
pub mod SsoDone
pub mod LoginLive
pub mod LoggedOut
