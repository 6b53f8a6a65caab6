-- ===== src/Compat/Rows.antt =====
-- The tables of the compatibility API (crates/storage/migrations), beside the others. The columns
-- `device_id` and `token` are UNIQUE.
use turnkey_triumph_326606_m.Prelude.{ℕ, Option, List, Text}
use turnkey_triumph_326606_m.Time.{Timestamp}
use turnkey_triumph_326606_m.Storage.Rows.{Db}

pub record CompatSessionRow : Type 0 where
  pub id : ℕ
  pub user_id : ℕ
  pub device_id : Text
  pub created_at : Timestamp
  pub deleted_at : Option Timestamp

pub record CompatAccessTokenRow : Type 0 where
  pub id : ℕ
  pub compat_session_id : ℕ
  pub token : Text
  pub created_at : Timestamp
  pub expires_at : Option Timestamp

pub record CompatRefreshTokenRow : Type 0 where
  pub id : ℕ
  pub compat_session_id : ℕ
  pub compat_access_token_id : Option ℕ
  pub token : Text
  pub next_token_id : Option ℕ
  pub created_at : Timestamp

pub record CompatSsoLoginRow : Type 0 where
  pub id : ℕ
  pub redirect_uri : Text
  pub token : Text
  pub created_at : Timestamp
  pub fullfilled_at : Option Timestamp
  pub exchanged_at : Option Timestamp
  pub compat_session_id : Option ℕ

pub record CompatDb : Type 0 where
  pub main : Db
  pub sessions : List CompatSessionRow
  pub access_tokens : List CompatAccessTokenRow
  pub refresh_tokens : List CompatRefreshTokenRow
  pub sso_logins : List CompatSsoLoginRow
  pub next_session_id : ℕ
  pub next_access_token_id : ℕ
  pub next_refresh_token_id : ℕ
  pub next_sso_login_id : ℕ
