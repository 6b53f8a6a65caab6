-- ===== src/Authorization.antt =====
-- The end of an authorization request: the user's consent and the completion of the grant,
-- crates/handlers/src/oauth2/consent.rs and authorization/complete.rs.
pub mod Complete
pub mod Consent
pub mod Consented
pub mod Completed
