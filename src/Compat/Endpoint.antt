-- ===== src/Compat/Endpoint.antt =====
-- What the handlers of crates/handlers/src/compat share.
use turnkey_triumph_326606_m.Prelude.{ℕ, Bool, Option, Text}
use turnkey_triumph_326606_m.Time.{Timestamp}

-- `MatrixError`, the status first.
pub record MatrixError : Type 0 where
  pub status : ℕ
  pub errcode : Text
  pub error : Text

-- The code that is not here: the CRC-32, Argon2's verification and the URL parser; and the homeserver
-- of the configuration.
pub record CompatEnv : Type 0 where
  pub crc32 : Text → ℕ
  pub verify : Text → Text → Bool
  pub parse_url : Text → Option Text
  pub homeserver : Text

-- The time that the transaction started, which the queries take, the read of the local clock, and the
-- random bytes that are drawn.
pub record CompatMoment : Type 0 where
  pub db_now : Timestamp
  pub now : Timestamp
  pub rng : ℕ → ℕ
