-- ===== src/Compat/LoginPost.antt =====
-- The login endpoint, crates/handlers/src/compat/login.rs.
use turnkey_triumph_326606_m.Prelude.{
  ℕ, ◌+◌, Bool, true, false, Option, none, some, List, [], ◌∷◌, ◌++◌, Result, ok, err, map_err,
  ensure, Text, codes, ltb, not, Nothing,
}
use turnkey_triumph_326606_m.Prelude.ResultMonad.{◌>>=◌}
use turnkey_triumph_326606_m.Time.{Timestamp, seconds, minutes}
use turnkey_triumph_326606_m.Token.{generate, compat_access_token, compat_refresh_token}
use turnkey_triumph_326606_m.Storage.Rows.{StorageError, database, panicked, row_not_found}
use turnkey_triumph_326606_m.TokenEndpoint.{commit_or_rollback}
use turnkey_triumph_326606_m.Compat.Device.{Device, generate_device}
use turnkey_triumph_326606_m.Compat.Session.{
  CompatSession, CompatAccessToken, CompatSsoLoginState, pending, fullfilled, exchanged,
}
use turnkey_triumph_326606_m.Compat.Rows.{CompatDb}
use turnkey_triumph_326606_m.Compat.Tokens.{add_compat_access_token, add_compat_refresh_token}
use turnkey_triumph_326606_m.Compat.Login.{compat_login}
use turnkey_triumph_326606_m.Compat.Sso.{
  get_compat_sso_login_by_token, mark_compat_sso_login_as_exchanged,
}
use turnkey_triumph_326606_m.Compat.Endpoint.{MatrixError, CompatEnv, CompatMoment}

pub data Action : Type 0 where
  login register : Action

-- `identity_providers` is always empty.
pub data LoginType : Type 0 where
  password_type : List Action → LoginType
  token_type : LoginType
  sso_type : List Action → LoginType

-- `get`
abbrev pub flows : List LoginType
flows = password_type (login ∷ []) ∷ sso_type (login ∷ register ∷ []) ∷ token_type ∷ []

pub data Identifier : Type 0 where
  user : Text → Identifier
  unsupported_identifier : Identifier

pub data Credentials : Type 0 where
  password : Identifier → Text → Credentials
  token : Text → Credentials
  unsupported_credentials : Credentials

pub record RequestBody : Type 0 where
  pub credentials : Credentials
  pub refresh_token : Bool

pub record ResponseBody : Type 0 where
  pub access_token : Text
  pub device_id : Device
  pub user_id : Text
  pub refresh_token : Option Text
  pub expires_in : Option ℕ

pub data LoginRouteError : Type 0 where
  internal anyhow : StorageError → LoginRouteError
  unsupported login_failed login_took_too_long invalid_login_token : LoginRouteError

-- `From<CompatSsoLoginLookupError>`
unfoldable pub of_sso_lookup : StorageError → LoginRouteError
of_sso_lookup (database row_not_found) = invalid_login_token
of_sso_lookup e = internal e

unfoldable pub into_response : LoginRouteError → MatrixError
into_response (internal _) = record {
  status = 500;
  errcode = codes "M_UNKNOWN";
  error = codes "Internal server error";
}
into_response (anyhow _) = record {
  status = 500;
  errcode = codes "M_UNKNOWN";
  error = codes "Internal server error";
}
into_response unsupported = record {
  status = 400;
  errcode = codes "M_UNRECOGNIZED";
  error = codes "Invalid login type";
}
into_response login_failed = record {
  status = 403;
  errcode = codes "M_UNAUTHORIZED";
  error = codes "Invalid username/password";
}
into_response login_took_too_long = record {
  status = 403;
  errcode = codes "M_UNAUTHORIZED";
  error = codes "Login token expired";
}
into_response invalid_login_token = record {
  status = 403;
  errcode = codes "M_UNAUTHORIZED";
  error = codes "Invalid login token";
}

-- The first `match` of `token_login`; the second limit of 30 s only decides what is logged.
abbrev pub check_state : Timestamp → CompatSsoLoginState → Result LoginRouteError Nothing
check_state now pending = err invalid_login_token
check_state now (fullfilled fullfilled_at _) =
    ensure (not (ltb (fullfilled_at + seconds 30) now)) login_took_too_long
check_state now (exchanged _ _ _) = err invalid_login_token

-- The last `match`, whose other branch is `unreachable!()`.
abbrev pub session_of_state : CompatSsoLoginState → Result LoginRouteError CompatSession
session_of_state pending = err (internal panicked)
session_of_state (fullfilled _ _) = err (internal panicked)
session_of_state (exchanged _ _ session) = ok session

abbrev pub expires_in : Bool → Option ℕ
expires_in false = none
expires_in true = some (minutes 5)

module _ (env : CompatEnv) (moment : CompatMoment) where
  unfoldable pub token_login : CompatDb → Text → Result LoginRouteError (CompatSession × CompatDb)
  unfolding get_compat_sso_login_by_token mark_compat_sso_login_as_exchanged
  token_login db sso_token = do
    found ← map_err of_sso_lookup (get_compat_sso_login_by_token env.parse_url db sso_token)
    _ ← check_state moment.now found.state
    (marked, db') ← map_err anyhow (mark_compat_sso_login_as_exchanged db moment.db_now found)
    session ← session_of_state marked.state
    ok (session, db')

  -- The session, the database, and what is left of the random stream.
  unfoldable pub user_password_login :
      CompatDb → Text → Text → Result LoginRouteError (CompatSession × CompatDb × (ℕ → ℕ))
  unfolding generate_device compat_login
  user_password_login db username secret = do
    let drawn = generate_device moment.rng
    (session, db') ←
        map_err (λ _. login_failed)
          (compat_login env.verify db moment.db_now username secret drawn.0)
    ok (session, db', drawn.1)

  unfoldable pub authenticate :
      CompatDb → Credentials → Result LoginRouteError (CompatSession × CompatDb × (ℕ → ℕ))
  unfolding user_password_login token_login
  authenticate db (password (user name) secret) = user_password_login db name secret
  authenticate db (password unsupported_identifier secret) = err unsupported
  authenticate db (token sso_token) = do
    (session, db') ← token_login db sso_token
    ok (session, db', moment.rng)
  authenticate db unsupported_credentials = err unsupported

  -- `if input.refresh_token`: the text of the refresh token that is added.
  unfoldable pub optional_refresh_token :
      Bool
      → CompatDb
      → CompatSession
      → CompatAccessToken
      → (ℕ → ℕ)
      → Result LoginRouteError (Option Text × CompatDb)
  unfolding add_compat_refresh_token
  optional_refresh_token false db session access_token rng = ok (none, db)
  optional_refresh_token true db session access_token rng = do
    (refresh_token, db') ← map_err anyhow (
        add_compat_refresh_token db moment.db_now session access_token
          (generate env.crc32 compat_refresh_token rng).0)
    ok (some refresh_token.token, db')

  -- `format!("@{}:{}", session.user.username, config.homeserver)`
  abbrev pub user_id_of : CompatSession → Text
  user_id_of session = b'@' ∷ session.user.username ++ b':' ∷ env.homeserver

  -- From the session on.
  unfoldable pub issue :
      CompatDb → Bool → CompatSession → (ℕ → ℕ) → Result LoginRouteError (ResponseBody × CompatDb)
  unfolding add_compat_access_token optional_refresh_token
  issue db refreshable session rng = do
    let drawn = generate env.crc32 compat_access_token rng
    (access_token, db1) ←
        map_err anyhow
          (add_compat_access_token db moment.db_now session drawn.0 (expires_in refreshable))
    (refresh_token, db2) ← optional_refresh_token refreshable db1 session access_token drawn.1
    ok (
      record {
        access_token = access_token.token;
        device_id = session.device;
        user_id = user_id_of session;
        refresh_token = refresh_token;
        expires_in = expires_in refreshable;
      },
      db2,
    )

  unfoldable pub login_steps :
      CompatDb → RequestBody → Result LoginRouteError (ResponseBody × CompatDb)
  unfolding authenticate issue
  login_steps db input = do
    (session, db', rng) ← authenticate db input.credentials
    issue db' input.refresh_token session rng

  unfoldable pub post_login :
      CompatDb → RequestBody → Result LoginRouteError ResponseBody × CompatDb
  unfolding login_steps commit_or_rollback
  post_login db input = commit_or_rollback db (login_steps db input)
