-- ===== src/Model/Grant.antt =====
-- Authorization grants, crates/data-model/src/oauth2/authorization_grant.rs, with PKCE,
-- crates/oauth2-types/src/pkce.rs.
pub mod Stages
use turnkey_triumph_326606_m.Prelude.{
  ℕ, ◌*◌, Bool, true, false, Option, none, some, Result, ok, err, Text, text_eq,
}
use turnkey_triumph_326606_m.Prelude.Int.{ℤ, sub_ℕ}
use turnkey_triumph_326606_m.Scope.{Scope}
use turnkey_triumph_326606_m.Time.{Timestamp, seconds}
use turnkey_triumph_326606_m.Model.Client.{Client}
use turnkey_triumph_326606_m.Model.Session.{Session}

pub data PkceCodeChallengeMethod : Type 0 where
  plain s256 : PkceCodeChallengeMethod

pub record Pkce : Type 0 where
  pub challenge_method : PkceCodeChallengeMethod
  pub challenge : Text

-- `sha256` stands for the unpadded base64url encoding of the SHA-256 of a text's bytes.
module _ (sha256 : Text → Text) where
  pub compute_challenge : PkceCodeChallengeMethod → Text → Text
  compute_challenge plain verifier = verifier
  compute_challenge s256 verifier = sha256 verifier

  pub method_verify : PkceCodeChallengeMethod → Text → Text → Bool
  unfolding compute_challenge text_eq
  method_verify m challenge verifier = text_eq (compute_challenge m verifier) challenge

  -- `Pkce::verify`
  unfoldable pub verify : Pkce → Text → Bool
  unfolding method_verify
  verify p verifier = method_verify p.challenge_method p.challenge verifier

pub record AuthorizationCode : Type 0 where
  pub code : Text
  pub pkce : Option Pkce

pub data AuthorizationGrantStage : Type 0 where
  pending : AuthorizationGrantStage
  fulfilled : Session → Timestamp → AuthorizationGrantStage
  exchanged : Session → Timestamp → Timestamp → AuthorizationGrantStage
  cancelled : Timestamp → AuthorizationGrantStage

pub data InvalidTransitionError : Type 0 where
  invalid_transition : InvalidTransitionError

unfoldable pub fulfill :
    AuthorizationGrantStage
    → Timestamp
    → Session
    → Result InvalidTransitionError AuthorizationGrantStage
fulfill pending fulfilled_at session = ok (fulfilled session fulfilled_at)
fulfill _ fulfilled_at session = err invalid_transition

unfoldable pub exchange :
    AuthorizationGrantStage → Timestamp → Result InvalidTransitionError AuthorizationGrantStage
exchange (fulfilled session fulfilled_at) exchanged_at =
    ok (exchanged session fulfilled_at exchanged_at)
exchange _ exchanged_at = err invalid_transition

unfoldable pub cancel :
    AuthorizationGrantStage → Timestamp → Result InvalidTransitionError AuthorizationGrantStage
cancel pending cancelled_at = ok (cancelled cancelled_at)
cancel _ cancelled_at = err invalid_transition

unfoldable pub is_pending : AuthorizationGrantStage → Bool
is_pending pending = true
is_pending _ = false

-- `ResponseMode`, crates/oauth2-types/src/requests.rs.
pub data ResponseMode : Type 0 where
  query fragment form_post : ResponseMode

pub record AuthorizationGrant : Type 0 where
  pub id : ℕ
  pub stage : AuthorizationGrantStage
  pub code : Option AuthorizationCode
  pub client : Client
  pub redirect_uri : Text
  pub scope : Scope
  pub state : Option Text
  pub nonce : Option Text
  pub max_age : Option ℕ
  pub acr_values : Option Text
  pub response_mode : ResponseMode
  pub response_type_token : Bool
  pub response_type_id_token : Bool
  pub created_at : Timestamp
  pub requires_consent : Bool

abbrev pub age_or_year : Option ℕ → ℕ
age_or_year none = 3600 * 24 * 365
age_or_year (some n) = n

-- An instant that may lie before the epoch.
unfoldable pub max_auth_time : AuthorizationGrant → ℤ
max_auth_time g = sub_ℕ g.created_at (seconds (age_or_year g.max_age))
