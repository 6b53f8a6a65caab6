-- ===== src/TokenEndpoint/AuthorizationCode.antt =====
-- `authorization_code_grant`, crates/handlers/src/oauth2/token.rs.
use turnkey_triumph_326606_m.Prelude.{
  ℕ, ◌+◌, Option, none, some, Result, ok, err, ok_or, map_err, ensure, Nothing, nothing, Text,
  text_eq, if◌then◌else◌, ltb,
}
use turnkey_triumph_326606_m.Prelude.ResultMonad.{◌>>=◌}
use turnkey_triumph_326606_m.Time.{seconds, minutes}
use turnkey_triumph_326606_m.Token.{access_token, refresh_token, generate}
use turnkey_triumph_326606_m.Model.Client.{Client}
use turnkey_triumph_326606_m.Model.Session.{Session}
use turnkey_triumph_326606_m.Model.Grant.{
  Pkce, verify, AuthorizationGrantStage, pending, fulfilled, exchanged, cancelled,
  AuthorizationGrant,
}
use turnkey_triumph_326606_m.Storage.Rows.{Db, StorageError, inconsistency}
use turnkey_triumph_326606_m.Storage.AccessToken.{add_access_token}
use turnkey_triumph_326606_m.Storage.RefreshToken.{add_refresh_token}
use turnkey_triumph_326606_m.Storage.Grant.{lookup_grant_by_code}
use turnkey_triumph_326606_m.Storage.GrantStage.{exchange_grant, end_oauth_session}
use turnkey_triumph_326606_m.TokenEndpoint.{
  storage, RouteError, anyhow, bad_request, invalid_grant, unauthorized_client, AccessTokenResponse,
  Env, Moment, AuthorizationCodeGrant, commit_or_rollback,
}
use turnkey_triumph_326606_m.TokenEndpoint.IdToken.{id_token_of}

abbrev pub ttl : ℕ
ttl = minutes 5

abbrev pub failed {ℓ} : {A : Type ℓ} → Result StorageError A → Result RouteError A
failed r = map_err (λ e. anyhow (storage e)) r

module _ (env : Env) where
  -- The `match` on the challenge and the verifier.
  unfoldable pub check_verifier : Option Pkce → Option Text → Result RouteError Nothing
  unfolding verify
  check_verifier none none = ok nothing
  check_verifier (some pkce) (some verifier) =
      ensure (verify (λ v. env.base64url (env.sha256 v)) pkce verifier) bad_request
  check_verifier _ _ = err bad_request

module _ (env : Env) (moment : Moment) where
  abbrev pub new_access_token : Text
  new_access_token = (generate env.crc32 access_token moment.rng).0

  abbrev pub new_refresh_token : Text
  new_refresh_token =
      (generate env.crc32 refresh_token (generate env.crc32 access_token moment.rng).1).0

  -- From the fulfilled grant to the end.
  unfoldable pub issue :
      Db
      → AuthorizationCodeGrant
      → Client
      → AuthorizationGrant
      → Session
      → Result RouteError (AccessTokenResponse × Db)
  unfolding check_verifier id_token_of add_access_token add_refresh_token exchange_grant generate
      text_eq
  issue db grant client authz_grant session = do
    code ← ok_or authz_grant.code (anyhow (storage inconsistency))
    _ ← ensure (text_eq client.client_id session.client.client_id) unauthorized_client
    _ ← check_verifier env code.pkce grant.code_verifier
    (issued, db1) ← failed (add_access_token db moment.db_now session new_access_token ttl)
    (_, db2) ← failed (add_refresh_token db1 moment.db_now session issued new_refresh_token)
    id_token ←
        id_token_of env moment.id_token_now client session authz_grant.nonce new_access_token
          grant.code
    (_, db3) ← failed (exchange_grant db2 moment.db_now authz_grant)
    ok (
      record {
        access_token = new_access_token;
        refresh_token = some new_refresh_token;
        id_token = id_token;
        expires_in = some ttl;
        scope = some session.scope;
      },
      db3,
    )

  -- A code that is used again long after its exchange ends the session, in a transaction of its own.
  unfoldable pub end_compromised : Db → Session → Result RouteError AccessTokenResponse × Db
  unfolding end_oauth_session
  end_compromised db session = elim (end_oauth_session db moment.db_now session) [
    | err e ↦ (err (anyhow (storage e)), db)
    | ok ended ↦ (err invalid_grant, ended)
  ]

  unfoldable pub redeem :
      Db
      → AuthorizationCodeGrant
      → Client
      → AuthorizationGrant
      → AuthorizationGrantStage
      → Result RouteError AccessTokenResponse × Db
  unfolding end_compromised commit_or_rollback issue
  redeem db grant client authz_grant (cancelled cancelled_at) = (err invalid_grant, db)
  redeem db grant client authz_grant (exchanged session fulfilled_at exchanged_at) =
      if ltb (exchanged_at + seconds 20) moment.now
      then end_compromised db session
      else (err invalid_grant, db)
  redeem db grant client authz_grant pending = (err invalid_grant, db)
  redeem db grant client authz_grant (fulfilled session fulfilled_at) =
      if ltb (fulfilled_at + minutes 10) moment.now
      then (err invalid_grant, db)
      else commit_or_rollback db (issue db grant client authz_grant session)

  unfoldable pub authorization_code_grant :
      Db → AuthorizationCodeGrant → Client → Result RouteError AccessTokenResponse × Db
  unfolding lookup_grant_by_code redeem
  authorization_code_grant db grant client =
      elim (lookup_grant_by_code env.parse_url db grant.code) [
        | err e ↦ (err (anyhow (storage e)), db)
        | ok authz_grant ↦ redeem db grant client authz_grant authz_grant.stage
      ]
