-- ===== src/Storage/Rows.antt =====
-- The tables' rows (crates/storage/migrations) and the errors of the queries.
use turnkey_triumph_326606_m.Prelude.{ℕ, Bool, Option, List, Text, Result, ok, err, zero, suc}
use turnkey_triumph_326606_m.Prelude.Int.{ℤ}
use turnkey_triumph_326606_m.Time.{Timestamp}
use turnkey_triumph_326606_m.Model.Client.{Client}

pub record UserRow : Type 0 where
  pub id : ℕ
  pub username : Text
  pub primary_email_id : Option ℕ

pub record UserEmailRow : Type 0 where
  pub id : ℕ
  pub user_id : ℕ
  pub email : Text
  pub created_at : Timestamp
  pub confirmed_at : Option Timestamp

pub record UserPasswordRow : Type 0 where
  pub user_id : ℕ
  pub hashed_password : Text
  pub created_at : Timestamp

pub record VerificationRow : Type 0 where
  pub id : ℕ
  pub user_email_id : ℕ
  pub code : Text
  pub created_at : Timestamp
  pub consumed_at : Option Timestamp

pub record UserSessionRow : Type 0 where
  pub id : ℕ
  pub user_id : ℕ
  pub created_at : Timestamp
  pub active : Bool

pub record AuthenticationRow : Type 0 where
  pub id : ℕ
  pub session_id : ℕ
  pub created_at : Timestamp

pub record SessionRow : Type 0 where
  pub id : ℕ
  pub user_session_id : ℕ
  pub oauth2_client_id : ℕ
  pub scope : Text
  pub created_at : Timestamp
  pub ended_at : Option Timestamp

-- `expires_after` is a number of seconds.
pub record AccessTokenRow : Type 0 where
  pub id : ℕ
  pub oauth2_session_id : ℕ
  pub token : Text
  pub expires_after : ℕ
  pub created_at : Timestamp

pub record RefreshTokenRow : Type 0 where
  pub id : ℕ
  pub oauth2_session_id : ℕ
  pub oauth2_access_token_id : Option ℕ
  pub token : Text
  pub next_token_id : Option ℕ
  pub created_at : Timestamp

pub record GrantRow : Type 0 where
  pub id : ℕ
  pub oauth2_client_id : ℕ
  pub redirect_uri : Text
  pub scope : Text
  pub state : Option Text
  pub nonce : Option Text
  pub max_age : Option ℤ
  pub acr_values : Option Text
  pub response_mode : Text
  pub code_challenge : Option Text
  pub code_challenge_method : Option Text
  pub response_type_code : Bool
  pub response_type_token : Bool
  pub response_type_id_token : Bool
  pub code : Option Text
  pub requires_consent : Bool
  pub created_at : Timestamp
  pub fulfilled_at : Option Timestamp
  pub cancelled_at : Option Timestamp
  pub exchanged_at : Option Timestamp
  pub oauth2_session_id : Option ℕ

pub record ConsentRow : Type 0 where
  pub oauth2_client_id : ℕ
  pub user_id : ℕ
  pub scope_token : Text
  pub updated_at : Timestamp

-- The clients are kept decoded, as `lookup_client` returns them. Each `next_…` is a table's sequence.
pub record Db : Type 0 where
  pub clients : List Client
  pub users : List UserRow
  pub user_emails : List UserEmailRow
  pub user_passwords : List UserPasswordRow
  pub verifications : List VerificationRow
  pub user_sessions : List UserSessionRow
  pub authentications : List AuthenticationRow
  pub sessions : List SessionRow
  pub access_tokens : List AccessTokenRow
  pub refresh_tokens : List RefreshTokenRow
  pub grants : List GrantRow
  pub consents : List ConsentRow
  pub next_user_id : ℕ
  pub next_user_email_id : ℕ
  pub next_verification_id : ℕ
  pub next_user_session_id : ℕ
  pub next_authentication_id : ℕ
  pub next_session_id : ℕ
  pub next_access_token_id : ℕ
  pub next_refresh_token_id : ℕ
  pub next_grant_id : ℕ

-- `sqlx::Error`, told apart as the callers do.
pub data SqlError : Type 0 where
  row_not_found unique_violation : SqlError

-- `DatabaseInconsistencyError`, `anyhow::Error` and the errors of the lookups, in one type.
pub data StorageError : Type 0 where
  database : SqlError → StorageError
  client_fetch : SqlError → StorageError
  inconsistency : StorageError
  no_row_affected : StorageError
  too_many_rows_affected : StorageError
  -- A password does not verify.
  invalid_password : StorageError
  -- The password hasher failed.
  hashing : StorageError
  -- An `unwrap` of an error.
  panicked : StorageError
  invalid_transition : StorageError

-- The `match` on `rows_affected()`.
abbrev pub exactly_one : {A : Type 0} → ℕ → A → Result StorageError A
exactly_one zero a = err no_row_affected
exactly_one (suc zero) a = ok a
exactly_one (suc (suc n)) a = err too_many_rows_affected
