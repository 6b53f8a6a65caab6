-- ===== src/Model.antt =====
-- The data model, crates/data-model/src. The data that a storage backend keeps with a record is the
-- row's id, an `i64` that the database's sequences keep positive.
pub mod User
pub mod Client
pub mod Session
pub mod Grant
