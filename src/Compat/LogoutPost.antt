-- ===== src/Compat/LogoutPost.antt =====
-- The logout endpoint, crates/handlers/src/compat/logout.rs. Its one query is a transaction of its
-- own.
use turnkey_triumph_326606_m.Prelude.{
  Bool, true, false, Option, Result, ok, ok_or, map_err, ensure, Text, codes, Nothing, nothing,
}
use turnkey_triumph_326606_m.Prelude.ResultMonad.{◌>>=◌}
use turnkey_triumph_326606_m.Token.{
  TokenType, access_token, refresh_token, compat_access_token, compat_refresh_token, check,
}
use turnkey_triumph_326606_m.Storage.Rows.{StorageError}
use turnkey_triumph_326606_m.TokenEndpoint.{commit_or_rollback}
use turnkey_triumph_326606_m.Compat.Rows.{CompatDb}
use turnkey_triumph_326606_m.Compat.Tokens.{compat_logout}
use turnkey_triumph_326606_m.Compat.Endpoint.{MatrixError, CompatEnv, CompatMoment}

pub data LogoutRouteError : Type 0 where
  internal : StorageError → LogoutRouteError
  missing_authorization invalid_authorization logout_failed : LogoutRouteError

unfoldable pub into_response : LogoutRouteError → MatrixError
into_response (internal _) = record {
  status = 500;
  errcode = codes "M_UNKNOWN";
  error = codes "Internal error";
}
into_response missing_authorization = record {
  status = 401;
  errcode = codes "M_MISSING_TOKEN";
  error = codes "Missing access token";
}
into_response invalid_authorization = record {
  status = 401;
  errcode = codes "M_UNKNOWN_TOKEN";
  error = codes "Invalid access token";
}
into_response logout_failed = record {
  status = 401;
  errcode = codes "M_UNKNOWN_TOKEN";
  error = codes "Invalid access token";
}

abbrev pub is_compat_access_token : TokenType → Bool
is_compat_access_token compat_access_token = true
is_compat_access_token access_token = false
is_compat_access_token refresh_token = false
is_compat_access_token compat_refresh_token = false

module _ (env : CompatEnv) (moment : CompatMoment) where
  -- The token of the header `Authorization: Bearer`, if there is one.
  unfoldable pub logout_steps :
      CompatDb → Option Text → Result LogoutRouteError (Nothing × CompatDb)
  unfolding check compat_logout
  logout_steps db maybe_authorization = do
    token ← ok_or maybe_authorization missing_authorization
    token_type ← map_err (λ _. invalid_authorization) (check env.crc32 token)
    _ ← ensure (is_compat_access_token token_type) invalid_authorization
    db' ← map_err (λ _. logout_failed) (compat_logout db moment.db_now token)
    ok (nothing, db')

  unfoldable pub post_logout : CompatDb → Option Text → Result LogoutRouteError Nothing × CompatDb
  unfolding logout_steps commit_or_rollback
  post_logout db maybe_authorization = commit_or_rollback db (logout_steps db maybe_authorization)
