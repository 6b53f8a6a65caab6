-- ===== src/Model/Session.antt =====
-- OAuth 2.0 sessions and their tokens, crates/data-model/src/oauth2/session.rs and tokens.rs.
use turnkey_triumph_326606_m.Prelude.{ℕ, ◌+◌, Option, Text}
use turnkey_triumph_326606_m.Scope.{Scope}
use turnkey_triumph_326606_m.Time.{Timestamp}
use turnkey_triumph_326606_m.Model.User.{BrowserSession}
use turnkey_triumph_326606_m.Model.Client.{Client}

pub record Session : Type 0 where
  pub id : ℕ
  pub browser_session : BrowserSession
  pub client : Client
  pub scope : Scope

pub record AccessToken : Type 0 where
  pub id : ℕ
  pub jti : Text
  pub token : Text
  pub expires_after : ℕ
  pub created_at : Timestamp

abbrev pub exp : AccessToken → Timestamp
exp t = t.created_at + t.expires_after

pub record RefreshToken : Type 0 where
  pub id : ℕ
  pub token : Text
  pub created_at : Timestamp
  pub access_token : Option AccessToken
