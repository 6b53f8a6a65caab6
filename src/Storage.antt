-- ===== src/Storage.antt =====
-- The database of crates/storage: its tables as lists of rows in the order of insertion, and the
-- joins that the queries share. Ids are primary keys and the columns `token` and `code` are UNIQUE
-- (crates/storage/migrations), so the first row with a given one is the only one.
pub mod Rows
pub mod Table
pub mod Lookups
pub mod Sessions
pub mod AccessToken
pub mod RefreshToken
pub mod GrantLookup
pub mod Grant
pub mod GrantStage
pub mod Constraints
pub mod Links
pub mod SessionEnd
pub mod User
pub mod Consent
pub mod Consented
