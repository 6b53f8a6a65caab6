-- ===== src/Compat/Session.antt =====
-- Sessions, tokens and single sign-on logins of the compatibility API,
-- crates/data-model/src/compat.rs.
use turnkey_triumph_326606_m.Prelude.{ℕ, Option, Text}
use turnkey_triumph_326606_m.Time.{Timestamp}
use turnkey_triumph_326606_m.Model.User.{User}
use turnkey_triumph_326606_m.Compat.Device.{Device}

pub record CompatSession : Type 0 where
  pub id : ℕ
  pub user : User
  pub device : Device
  pub created_at : Timestamp
  pub deleted_at : Option Timestamp

pub record CompatAccessToken : Type 0 where
  pub id : ℕ
  pub token : Text
  pub created_at : Timestamp
  pub expires_at : Option Timestamp

pub record CompatRefreshToken : Type 0 where
  pub id : ℕ
  pub token : Text
  pub created_at : Timestamp

pub data CompatSsoLoginState : Type 0 where
  pending : CompatSsoLoginState
  fullfilled : Timestamp → CompatSession → CompatSsoLoginState
  exchanged : Timestamp → Timestamp → CompatSession → CompatSsoLoginState

pub record CompatSsoLogin : Type 0 where
  pub id : ℕ
  pub redirect_uri : Text
  pub token : Text
  pub created_at : Timestamp
  pub state : CompatSsoLoginState
