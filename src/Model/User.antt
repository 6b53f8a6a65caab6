-- ===== src/Model/User.antt =====
-- Users and browser sessions, crates/data-model/src/users.rs.
use turnkey_triumph_326606_m.Prelude.{ℕ, Bool, false, Option, none, some, Text}
use turnkey_triumph_326606_m.Prelude.Int.{ℤ, pos, ltb_ℤ}
use turnkey_triumph_326606_m.Time.{Timestamp}

pub record UserEmail : Type 0 where
  pub id : ℕ
  pub email : Text
  pub created_at : Timestamp
  pub confirmed_at : Option Timestamp

pub record User : Type 0 where
  pub id : ℕ
  pub username : Text
  pub sub : Text
  pub primary_email : Option UserEmail

pub record Authentication : Type 0 where
  pub id : ℕ
  pub created_at : Timestamp

pub record BrowserSession : Type 0 where
  pub id : ℕ
  pub user : User
  pub created_at : Timestamp
  pub last_authentication : Option Authentication

-- `after` may lie before the epoch: it is an instant less a maximal age.
unfoldable pub was_authenticated_after : BrowserSession → ℤ → Bool
was_authenticated_after s after = elim s.last_authentication [
  | none ↦ false
  | some auth ↦ ltb_ℤ after (pos auth.created_at)
]

pub data UserEmailVerificationState : Type 0 where
  already_used : Timestamp → UserEmailVerificationState
  expired valid : UserEmailVerificationState

pub record UserEmailVerification : Type 0 where
  pub id : ℕ
  pub email : UserEmail
  pub code : Text
  pub created_at : Timestamp
  pub state : UserEmailVerificationState
