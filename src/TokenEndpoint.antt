-- ===== src/TokenEndpoint.antt =====
-- The token endpoint, crates/handlers/src/oauth2/token.rs: its errors, its response, and what it takes
-- from the code that is not here. A request runs in one transaction: it ends with its reply and with
-- the database as committed.
pub mod IdToken
pub mod AuthorizationCode
pub mod Refresh
pub mod Post
pub mod Redeemed
pub mod Replay
pub mod Rotated
pub mod Rotation
pub mod Invariant
pub mod Linked
pub mod Live
pub mod Rollback
pub mod Authenticated
use turnkey_triumph_326606_m.Prelude.{ℕ, Option, none, some, Result, ok, err, Text, codes}
use turnkey_triumph_326606_m.Time.{Timestamp}
use turnkey_triumph_326606_m.Scope.{Scope}
use turnkey_triumph_326606_m.Claims.{Claims, ClaimError, Codec}
use turnkey_triumph_326606_m.ClientAuth.{CredentialsVerificationError}
use turnkey_triumph_326606_m.Storage.Rows.{Db, StorageError, database, row_not_found, client_fetch}

-- What the boxed errors hold.
pub data Cause : Type 0 where
  storage : StorageError → Cause
  claim : ClaimError → Cause
  -- The digest is shorter than 128 bits.
  short_digest : Cause
  -- No key for the algorithm, or the signature failed.
  signing : Cause

pub data RouteError : Type 0 where
  internal anyhow : Cause → RouteError
  bad_request client_not_found client_not_allowed : RouteError
  client_credentials_verification : CredentialsVerificationError → RouteError
  invalid_grant unauthorized_client : RouteError

-- `From<ClientFetchError>` and `From<RefreshTokenLookupError>`
unfoldable pub of_client_fetch : StorageError → RouteError
of_client_fetch (client_fetch row_not_found) = client_not_found
of_client_fetch e = internal (storage e)

unfoldable pub of_refresh_token_lookup : StorageError → RouteError
of_refresh_token_lookup (database row_not_found) = invalid_grant
of_refresh_token_lookup e = internal (storage e)

-- `IntoResponse`: the status and the `error` of the body.
unfoldable pub into_response : RouteError → ℕ × Text
into_response (internal _) = (500, codes "server_error")
into_response (anyhow _) = (500, codes "server_error")
into_response bad_request = (400, codes "invalid_request")
into_response client_not_found = (401, codes "invalid_client")
into_response (client_credentials_verification _) = (401, codes "invalid_client")
into_response client_not_allowed = (401, codes "unauthorized_client")
into_response unauthorized_client = (401, codes "unauthorized_client")
into_response invalid_grant = (400, codes "invalid_grant")

-- `token_type` is always `Bearer`.
pub record AccessTokenResponse : Type 0 where
  pub access_token : Text
  pub refresh_token : Option Text
  pub id_token : Option Text
  pub expires_in : Option ℕ
  pub scope : Option Scope

-- The code that is not here: the URL parser, the CRC-32, SHA-256 with its bytes, unpadded base64url,
-- the issuer of the URL builder, the codec of times in claims, and the key store's signature by an
-- algorithm.
pub record Env : Type 0 where
  pub parse_url : Text → Option Text
  pub crc32 : Text → ℕ
  pub sha256 : Text → Text
  pub base64url : Text → Text
  pub oidc_issuer : Text
  pub ts_seconds : Codec Timestamp
  pub sign : Text → Claims → Option Text

-- The time that the transaction started, which the queries take, the two reads of the local clock, and
-- the random bytes that are drawn.
pub record Moment : Type 0 where
  pub db_now : Timestamp
  pub now : Timestamp
  pub id_token_now : Timestamp
  pub rng : ℕ → ℕ

pub record AuthorizationCodeGrant : Type 0 where
  pub code : Text
  pub redirect_uri : Option Text
  pub code_verifier : Option Text

pub record RefreshTokenGrant : Type 0 where
  pub refresh_token : Text
  pub scope : Option Scope

pub data AccessTokenRequest : Type 0 where
  authorization_code : AuthorizationCodeGrant → AccessTokenRequest
  refresh_token_request : RefreshTokenGrant → AccessTokenRequest
  client_credentials : Option Scope → AccessTokenRequest
  unsupported : AccessTokenRequest

-- The transaction is committed with its result; an error drops it, which rolls back to `db`.
unfoldable pub commit_or_rollback {ℓ κ μ} :
    {E : Type ℓ} {A : Type κ} {D : Type μ} → D → Result E (A × D) → Result E A × D
commit_or_rollback db (ok (a, done)) = (ok a, done)
commit_or_rollback db (err e) = (err e, db)
