-- ===== src/Compat/RefreshPost.antt =====
-- The refresh endpoint, crates/handlers/src/compat/refresh.rs.
use turnkey_triumph_326606_m.Prelude.{
  ℕ, Bool, true, false, some, Result, ok, map_err, ensure, Text, codes,
}
use turnkey_triumph_326606_m.Prelude.ResultMonad.{◌>>=◌}
use turnkey_triumph_326606_m.Time.{minutes}
use turnkey_triumph_326606_m.Token.{
  TokenType, access_token, refresh_token, compat_access_token, compat_refresh_token, generate,
  check,
}
use turnkey_triumph_326606_m.Storage.Rows.{StorageError, database, row_not_found}
use turnkey_triumph_326606_m.TokenEndpoint.{commit_or_rollback}
use turnkey_triumph_326606_m.Compat.Session.{CompatSession, CompatAccessToken, CompatRefreshToken}
use turnkey_triumph_326606_m.Compat.Rows.{CompatDb}
use turnkey_triumph_326606_m.Compat.Lookup.{lookup_active_compat_refresh_token}
use turnkey_triumph_326606_m.Compat.Tokens.{
  add_compat_access_token, expire_compat_access_token, add_compat_refresh_token,
  replace_compat_refresh_token,
}
use turnkey_triumph_326606_m.Compat.Endpoint.{MatrixError, CompatEnv, CompatMoment}

pub data RefreshRouteError : Type 0 where
  internal anyhow : StorageError → RefreshRouteError
  invalid_token : RefreshRouteError

-- `From<CompatRefreshTokenLookupError>`
unfoldable pub of_lookup : StorageError → RefreshRouteError
of_lookup (database row_not_found) = invalid_token
of_lookup e = internal e

unfoldable pub into_response : RefreshRouteError → MatrixError
into_response (internal _) = record {
  status = 500;
  errcode = codes "M_UNKNOWN";
  error = codes "Internal error";
}
into_response (anyhow _) = record {
  status = 500;
  errcode = codes "M_UNKNOWN";
  error = codes "Internal error";
}
into_response invalid_token = record {
  status = 401;
  errcode = codes "M_UNKNOWN_TOKEN";
  error = codes "Invalid refresh token";
}

pub record RefreshResponse : Type 0 where
  pub access_token : Text
  pub refresh_token : Text
  pub expires_in : ℕ

abbrev pub is_compat_refresh_token : TokenType → Bool
is_compat_refresh_token compat_refresh_token = true
is_compat_refresh_token access_token = false
is_compat_refresh_token refresh_token = false
is_compat_refresh_token compat_access_token = false

abbrev pub ttl : ℕ
ttl = minutes 5

module _ (env : CompatEnv) (moment : CompatMoment) where
  -- The refresh token is drawn first.
  abbrev pub new_refresh_token : Text
  new_refresh_token = (generate env.crc32 compat_refresh_token moment.rng).0

  abbrev pub new_access_token : Text
  new_access_token =
      (generate env.crc32 compat_access_token
        (generate env.crc32 compat_refresh_token moment.rng).1).0

  -- From the tokens that were found to the end.
  unfoldable pub rotate :
      CompatDb
      → CompatRefreshToken
      → CompatAccessToken
      → CompatSession
      → Result StorageError (RefreshResponse × CompatDb)
  unfolding add_compat_access_token add_compat_refresh_token replace_compat_refresh_token
      expire_compat_access_token
  rotate db old_refresh old_access session = do
    (access, db1) ← add_compat_access_token db moment.db_now session new_access_token (some ttl)
    (fresh, db2) ← add_compat_refresh_token db1 moment.db_now session access new_refresh_token
    db3 ← replace_compat_refresh_token db2 old_refresh fresh
    db4 ← expire_compat_access_token db3 moment.db_now old_access
    ok (record { access_token = access.token; refresh_token = fresh.token; expires_in = ttl }, db4)

  unfoldable pub refresh_steps :
      CompatDb → Text → Result RefreshRouteError (RefreshResponse × CompatDb)
  unfolding check lookup_active_compat_refresh_token rotate
  refresh_steps db input = do
    token_type ← map_err (λ _. invalid_token) (check env.crc32 input)
    _ ← ensure (is_compat_refresh_token token_type) invalid_token
    (old_refresh, old_access, session) ←
        map_err of_lookup (lookup_active_compat_refresh_token db input)
    map_err anyhow (rotate db old_refresh old_access session)

  unfoldable pub post_refresh :
      CompatDb → Text → Result RefreshRouteError RefreshResponse × CompatDb
  unfolding refresh_steps commit_or_rollback
  post_refresh db input = commit_or_rollback db (refresh_steps db input)
