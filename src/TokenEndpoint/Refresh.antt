-- ===== src/TokenEndpoint/Refresh.antt =====
-- `refresh_token_grant`, crates/handlers/src/oauth2/token.rs.
use turnkey_triumph_326606_m.Prelude.{Option, none, some, Result, ok, map_err, ensure, text_eq}
use turnkey_triumph_326606_m.Prelude.ResultMonad.{◌>>=◌}
use turnkey_triumph_326606_m.Model.Client.{Client}
use turnkey_triumph_326606_m.Model.Session.{Session, AccessToken, RefreshToken}
use turnkey_triumph_326606_m.Storage.Rows.{Db, StorageError}
use turnkey_triumph_326606_m.Storage.AccessToken.{add_access_token, revoke_access_token}
use turnkey_triumph_326606_m.Storage.RefreshToken.{
  add_refresh_token, lookup_active_refresh_token, replace_refresh_token,
}
use turnkey_triumph_326606_m.TokenEndpoint.{
  RouteError, of_refresh_token_lookup, invalid_grant, AccessTokenResponse, Env, Moment,
  RefreshTokenGrant, commit_or_rollback,
}
use turnkey_triumph_326606_m.TokenEndpoint.AuthorizationCode.{
  ttl, failed, new_access_token, new_refresh_token,
}

-- The access token that the refresh token came with, while there is one.
abbrev pub revoke_optional : Db → Option AccessToken → Result StorageError Db
revoke_optional db none = ok db
revoke_optional db (some access_token) = revoke_access_token db access_token

module _ (env : Env) (moment : Moment) where
  -- From the refresh token that was found to the end.
  unfoldable pub rotate : Db → RefreshToken → Session → Result RouteError (AccessTokenResponse × Db)
  unfolding add_access_token add_refresh_token replace_refresh_token revoke_access_token
  rotate db refresh_token session = do
    (access_token, db1) ←
        failed (add_access_token db moment.db_now session (new_access_token env moment) ttl)
    (next, db2) ←
        failed
          (add_refresh_token db1 moment.db_now session access_token (new_refresh_token env moment))
    db3 ← failed (replace_refresh_token db2 refresh_token next)
    db4 ← failed (revoke_optional db3 refresh_token.access_token)
    ok (
      record {
        access_token = new_access_token env moment;
        refresh_token = some (new_refresh_token env moment);
        id_token = none;
        expires_in = some ttl;
        scope = some session.scope;
      },
      db4,
    )

  unfoldable pub refresh :
      Db → RefreshTokenGrant → Client → Result RouteError (AccessTokenResponse × Db)
  unfolding lookup_active_refresh_token rotate text_eq
  refresh db grant client = do
    (refresh_token, session) ←
        map_err of_refresh_token_lookup (lookup_active_refresh_token db grant.refresh_token)
    _ ← ensure (text_eq client.client_id session.client.client_id) invalid_grant
    rotate db refresh_token session

  unfoldable pub refresh_token_grant :
      Db → RefreshTokenGrant → Client → Result RouteError AccessTokenResponse × Db
  unfolding commit_or_rollback refresh
  refresh_token_grant db grant client = commit_or_rollback db (refresh db grant client)
