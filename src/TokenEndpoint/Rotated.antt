-- ===== src/TokenEndpoint/Rotated.antt =====
-- What a successful `refresh_token_grant` has done, crates/handlers/src/oauth2/token.rs.
use turnkey_triumph_326606_m.Prelude.{◌≡◌, sym, ap, ◌∙◌, some, ok, map_err, ensure, text_eq, arith}
use turnkey_triumph_326606_m.Prelude.ResultMonad.{>>=-eq-ok}
use turnkey_triumph_326606_m.Model.Client.{Client}
use turnkey_triumph_326606_m.Model.Session.{Session, AccessToken, RefreshToken}
use turnkey_triumph_326606_m.Storage.Rows.{Db}
use turnkey_triumph_326606_m.Storage.AccessToken.{add_access_token}
use turnkey_triumph_326606_m.Storage.RefreshToken.{
  add_refresh_token, lookup_active_refresh_token, replace_refresh_token,
}
use turnkey_triumph_326606_m.TokenEndpoint.{
  of_refresh_token_lookup, invalid_grant, AccessTokenResponse, Env, Moment, RefreshTokenGrant,
}
use turnkey_triumph_326606_m.TokenEndpoint.AuthorizationCode.{
  ttl, failed, new_access_token, new_refresh_token,
}
use turnkey_triumph_326606_m.TokenEndpoint.Refresh.{
  revoke_optional, rotate, refresh, refresh_token_grant,
}
use turnkey_triumph_326606_m.TokenEndpoint.Redeemed.{commit_ok, failed_ok, ok_pair, ensure_text}

module _ (env : Env) (moment : Moment) (db : Db) where
  -- What the steps of a successful rotation have done.
  pub record Rotated (old : RefreshToken) (session : Session) (r : AccessTokenResponse) (db' : Db)
      : Type 0 where
    pub access : AccessToken
    pub with_access : Db
    pub access_added :
        add_access_token db moment.db_now session (new_access_token env moment) ttl
        ≡ ok (access, with_access)
    pub fresh : RefreshToken
    pub with_refresh : Db
    pub refresh_added :
        add_refresh_token with_access moment.db_now session access (new_refresh_token env moment)
        ≡ ok (fresh, with_refresh)
    pub with_next : Db
    pub replaced : replace_refresh_token with_refresh old fresh ≡ ok with_next
    pub revoked : revoke_optional with_next old.access_token ≡ ok db'
    pub same_access_token : r.access_token ≡ new_access_token env moment
    pub same_refresh_token : r.refresh_token ≡ some (new_refresh_token env moment)
    pub same_scope : r.scope ≡ some session.scope

  rotate_ok :
      (old : RefreshToken) (session : Session) (r : AccessTokenResponse) (db' : Db)
      → rotate env moment db old session ≡ ok (r, db')
      → Rotated old session r db'
  unfolding rotate
  rotate_ok old session r db' h =
      let (access_db1, e4, h4) =
        >>=-eq-ok
          (failed (add_access_token db moment.db_now session (new_access_token env moment) ttl)) _
          h in
      let (fresh_db2, e5, h5) =
        >>=-eq-ok
          (failed (
            add_refresh_token access_db1.1 moment.db_now session access_db1.0
              (new_refresh_token env moment)))
          _ h4 in
      let (db3, e6, h6) =
        >>=-eq-ok (failed (replace_refresh_token fresh_db2.1 old fresh_db2.0)) _ h5 in
      let (db4, e7, h7) = >>=-eq-ok (failed (revoke_optional db3 old.access_token)) _ h6 in
      let same = ok_pair h7 in
      record {
        access = access_db1.0;
        with_access = access_db1.1;
        access_added = failed_ok _ e4;
        fresh = fresh_db2.0;
        with_refresh = fresh_db2.1;
        refresh_added = failed_ok _ e5;
        with_next = db3;
        replaced = failed_ok _ e6;
        revoked = failed_ok _ e7 ∙ ap ok same.1;
        same_access_token = ap (λ q. q.access_token) (sym same.0);
        same_refresh_token = ap (λ q. q.refresh_token) (sym same.0);
        same_scope = ap (λ q. q.scope) (sym same.0);
      }

  -- A refresh token is exchanged only for the client that its session is of.
  pub refreshed :
      (grant : RefreshTokenGrant) (client : Client) (r : AccessTokenResponse) (db' : Db)
      → refresh_token_grant env moment db grant client ≡ (ok r, db')
      → (old : RefreshToken) × (s : Session) × (lookup_active_refresh_token db grant.refresh_token
          ≡ ok (old, s))
        × (client.client_id ≡ s.client.client_id)
        × Rotated old s r db'
  unfolding refresh_token_grant refresh
  refreshed grant client r db' h =
      let (old_s, e1, h1) =
        >>=-eq-ok
          (map_err of_refresh_token_lookup (lookup_active_refresh_token db grant.refresh_token)) _
          (commit_ok db _ r db' h) in
      let (x, e2, h2) =
        >>=-eq-ok (ensure (text_eq client.client_id old_s.1.client.client_id) invalid_grant) _ h1 in
      (old_s.0, old_s.1, ground arith, ensure_text _ _ _ e2, rotate_ok old_s.0 old_s.1 r db' h2)
