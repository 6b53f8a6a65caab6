-- ===== src/Tests/Endpoint.antt =====
-- Runs of the token endpoint.
use turnkey_triumph_326606_m.Prelude.{
  ℕ, ◌+◌, ◌≤◌, ◌<◌, ◌≡◌, ◌≢◌, ◌⊎◌, inl, inr, refl, Option, none, some, List, [], ◌∷◌, ◌++◌, retain,
  length, Result, ok, err, Text, codes, arith, ◌==◌,
}
use turnkey_triumph_326606_m.Time.{Timestamp, minutes}
use turnkey_triumph_326606_m.Model.Client.{AuthMethod, Client}
use turnkey_triumph_326606_m.Model.Session.{Session, AccessToken, RefreshToken}
use turnkey_triumph_326606_m.ClientAuth.{credentials_client_id, fetch}
use turnkey_triumph_326606_m.ClientAuth.Laws.{Proves}
use turnkey_triumph_326606_m.Storage.Rows.{Db, database, row_not_found}
use turnkey_triumph_326606_m.Storage.Grant.{lookup_grant_by_code}
use turnkey_triumph_326606_m.Storage.Sessions.{stored_session}
use turnkey_triumph_326606_m.Storage.AccessToken.{lookup_active_access_token}
use turnkey_triumph_326606_m.Storage.RefreshToken.{lookup_active_refresh_token}
use turnkey_triumph_326606_m.TokenEndpoint.{
  invalid_grant, AccessTokenResponse, Moment, AuthorizationCodeGrant, AccessTokenRequest,
  authorization_code,
}
use turnkey_triumph_326606_m.TokenEndpoint.AuthorizationCode.{
  ttl, new_access_token, new_refresh_token, authorization_code_grant,
}
use turnkey_triumph_326606_m.TokenEndpoint.Refresh.{refresh_token_grant}
use turnkey_triumph_326606_m.TokenEndpoint.Post.{post}
use turnkey_triumph_326606_m.TokenEndpoint.Replay.{used_once, replay_ends_session}
use turnkey_triumph_326606_m.TokenEndpoint.Authenticated.{SessionOf, post-Proves}
use turnkey_triumph_326606_m.TokenEndpoint.Rollback.{EndedByReplay, post-error}
use turnkey_triumph_326606_m.TokenEndpoint.Rotation.{refresh_token_grant-once}
use turnkey_triumph_326606_m.TokenEndpoint.Live.{exchanged_tokens_live}
use turnkey_triumph_326606_m.Tests.Data.{
  app, env, crypto, at, email_scope, session, db, db-TokensValid, granted, by_code, by_refresh,
  by_app,
}

abbrev reply : Moment → AccessTokenResponse
reply m = record {
  access_token = new_access_token env m;
  refresh_token = some (new_refresh_token env m);
  id_token = none;
  expires_in = some ttl;
  scope = some email_scope;
}

found : lookup_grant_by_code env.parse_url db (codes "abc") ≡ ok granted
unfolding lookup_grant_by_code turnkey_triumph_326606_m.Prelude.text_eq
    turnkey_triumph_326606_m.Storage.GrantLookup.into_authorization_grant
    turnkey_triumph_326606_m.Scope.from_str turnkey_triumph_326606_m.Storage.Grant.grant_columns
    turnkey_triumph_326606_m.Scope.nqchar turnkey_triumph_326606_m.Storage.Lookups.lookup_client
    turnkey_triumph_326606_m.Storage.Lookups.authentication_of
    turnkey_triumph_326606_m.Storage.Lookups.email_of
found = refl

abbrev exchanged_db : Db
exchanged_db = (authorization_code_grant env (at 200 b'a') db by_code app).1

exchange :
    authorization_code_grant env (at 200 b'a') db by_code app
    ≡ (ok (reply (at 200 b'a')), exchanged_db)
unfolding authorization_code_grant
    turnkey_triumph_326606_m.Storage.GrantLookup.into_authorization_grant
    turnkey_triumph_326606_m.Scope.from_str turnkey_triumph_326606_m.Storage.Grant.grant_columns
    turnkey_triumph_326606_m.Scope.nqchar turnkey_triumph_326606_m.Storage.Lookups.lookup_client
    turnkey_triumph_326606_m.Storage.Lookups.authentication_of
    turnkey_triumph_326606_m.Storage.Lookups.email_of turnkey_triumph_326606_m.Model.Grant.exchange
exchange = refl

used_once_example :
    authorization_code_grant env (at 300 b'b') exchanged_db by_code app
    ≢ (ok (reply (at 300 b'b')), exchanged_db)
used_once_example =
    used_once env (at 200 b'a') db by_code app (reply (at 200 b'a')) exchanged_db exchange
      (at 300 b'b') app (reply (at 300 b'b')) exchanged_db

replay_ends_session_example :
    (ended : Db) × (authorization_code_grant env (at 30000000 b'b') exchanged_db by_code app
      ≡ (err invalid_grant, ended))
    × ((t : Timestamp) (u : Text) (token : AccessToken) (s' : Session)
        → lookup_active_access_token ended t u ≡ ok (token, s')
        → s'.id ≢ 5)
    × ((u : Text) (token : RefreshToken) (s' : Session)
        → lookup_active_refresh_token ended u ≡ ok (token, s')
        → s'.id ≢ 5)
replay_ends_session_example =
    replay_ends_session env (at 200 b'a') db by_code app granted session 100 (reply (at 200 b'a'))
      exchanged_db found refl refl exchange (at 30000000 b'b') app (omega arith)

posted :
    post env crypto (at 200 b'a') db by_app (some (authorization_code by_code))
    ≡ (ok (reply (at 200 b'a')), exchanged_db)
unfolding post turnkey_triumph_326606_m.Storage.GrantLookup.into_authorization_grant
    turnkey_triumph_326606_m.Scope.from_str turnkey_triumph_326606_m.Storage.Grant.grant_columns
    turnkey_triumph_326606_m.Scope.nqchar turnkey_triumph_326606_m.Storage.Lookups.lookup_client
    turnkey_triumph_326606_m.Storage.Lookups.authentication_of
    turnkey_triumph_326606_m.Storage.Lookups.email_of turnkey_triumph_326606_m.Model.Grant.exchange
posted = refl

post-Proves_example :
    (client : Client) × (method : AuthMethod) × (fetch db by_app ≡ ok client)
    × (client.token_endpoint_auth_method ≡ some method)
    × Proves crypto client by_app method
    × ((request : AccessTokenRequest) × (s : Session) × (some (authorization_code by_code)
          ≡ some request)
        × SessionOf env db request s
        × (s.client.client_id ≡ credentials_client_id by_app)
        × ((reply (at 200 b'a')).scope ≡ some s.scope))
post-Proves_example =
    post-Proves env crypto (at 200 b'a') db by_app (some (authorization_code by_code))
      (reply (at 200 b'a')) exchanged_db posted

abbrev replayed_db : Db
replayed_db =
    (post env crypto (at 30000000 b'b') exchanged_db by_app (some (authorization_code by_code))).1

refused :
    post env crypto (at 30000000 b'b') exchanged_db by_app (some (authorization_code by_code))
    ≡ (err invalid_grant, replayed_db)
unfolding post turnkey_triumph_326606_m.Storage.GrantLookup.into_authorization_grant
    turnkey_triumph_326606_m.Scope.from_str turnkey_triumph_326606_m.Storage.Grant.grant_columns
    turnkey_triumph_326606_m.Scope.nqchar turnkey_triumph_326606_m.Storage.Lookups.lookup_client
    turnkey_triumph_326606_m.Storage.Lookups.authentication_of
    turnkey_triumph_326606_m.Storage.Lookups.email_of turnkey_triumph_326606_m.Model.Grant.exchange
refused = refl

post-error_example :
    (replayed_db ≡ exchanged_db)
    ⊎ ((grant : AuthorizationCodeGrant) × (some (authorization_code by_code)
          ≡ some (authorization_code grant))
        × EndedByReplay env (at 30000000 b'b') exchanged_db grant.code invalid_grant replayed_db)
post-error_example =
    post-error env crypto (at 30000000 b'b') exchanged_db by_app (some (authorization_code by_code))
      invalid_grant replayed_db refused

abbrev refreshed_db : Db
refreshed_db = (refresh_token_grant env (at 200 b'a') db by_refresh app).1

refresh :
    refresh_token_grant env (at 200 b'a') db by_refresh app
    ≡ (ok (reply (at 200 b'a')), refreshed_db)
unfolding refresh_token_grant
    turnkey_triumph_326606_m.Storage.RefreshToken.select_active_refresh_token
    turnkey_triumph_326606_m.Storage.Lookups.active_session
    turnkey_triumph_326606_m.Storage.Lookups.user_columns
    turnkey_triumph_326606_m.Storage.RefreshToken.access_token_of
    turnkey_triumph_326606_m.Storage.RefreshToken.joined_access_token
    turnkey_triumph_326606_m.Storage.Sessions.session_of
    turnkey_triumph_326606_m.Storage.Lookups.lookup_client
    turnkey_triumph_326606_m.Storage.Lookups.browser_session_of
    turnkey_triumph_326606_m.Scope.from_str turnkey_triumph_326606_m.Scope.nqchar
    turnkey_triumph_326606_m.Token.generate
refresh = refl

refresh_token_grant-once_example :
    (old : RefreshToken) × (s : Session) × (lookup_active_refresh_token db (codes "ref")
      ≡ ok (old, s))
    × (lookup_active_refresh_token refreshed_db (codes "ref") ≡ err (database row_not_found))
    × ((a : AccessToken)
        → old.access_token ≡ some a
        → (t : Timestamp)
        → lookup_active_access_token refreshed_db t a.token ≡ err (database row_not_found))
refresh_token_grant-once_example =
    refresh_token_grant-once env (at 200 b'a') db by_refresh app (reply (at 200 b'a')) refreshed_db
      db-TokensValid refresh

active : stored_session db 5 ≡ ok session
unfolding stored_session turnkey_triumph_326606_m.Storage.Lookups.active_session
    turnkey_triumph_326606_m.Storage.Lookups.user_columns
    turnkey_triumph_326606_m.Storage.Sessions.session_of
    turnkey_triumph_326606_m.Storage.Lookups.lookup_client
    turnkey_triumph_326606_m.Storage.Lookups.browser_session_of
    turnkey_triumph_326606_m.Scope.from_str turnkey_triumph_326606_m.Scope.nqchar
active = refl

exchanged_tokens_live_example :
    ((t : Timestamp)
      → t ≤ 200 + minutes 5
      → (token : AccessToken) × (lookup_active_access_token exchanged_db t
            (new_access_token env (at 200 b'a'))
          ≡ ok (token, session)))
    × ((token : RefreshToken) × (next : Text) × ((reply (at 200 b'a')).refresh_token ≡ some next)
        × (lookup_active_refresh_token exchanged_db next ≡ ok (token, session)))
exchanged_tokens_live_example =
    exchanged_tokens_live env (at 200 b'a') db by_code app granted session 100 (reply (at 200 b'a'))
      exchanged_db found refl active exchange
