-- ===== src/TokenEndpoint/Post.antt =====
-- `post`, crates/handlers/src/oauth2/token.rs: the authentication of the client and the dispatch on the
-- grant.
use turnkey_triumph_326606_m.Prelude.{
  ◌≡◌, nothing, arith, Option, some, Result, ok, err, ok_or, map_err,
}
use turnkey_triumph_326606_m.Prelude.ResultMonad.{◌>>=◌, >>=-eq-ok}
use turnkey_triumph_326606_m.ClientAuth.{Crypto, Credentials, fetch, verify}
use turnkey_triumph_326606_m.Model.Client.{Client, AuthMethod}
use turnkey_triumph_326606_m.Storage.Rows.{Db}
use turnkey_triumph_326606_m.TokenEndpoint.{
  RouteError, client_not_allowed, client_credentials_verification, bad_request, invalid_grant,
  of_client_fetch, AccessTokenResponse, Env, Moment, AccessTokenRequest, authorization_code,
  refresh_token_request,
}
use turnkey_triumph_326606_m.TokenEndpoint.AuthorizationCode.{authorization_code_grant}
use turnkey_triumph_326606_m.TokenEndpoint.Refresh.{refresh_token_grant}

module _ (crypto : Crypto) where
  -- Up to the form.
  unfoldable pub authenticate :
      Db → Credentials → Option AccessTokenRequest → Result RouteError (Client × AccessTokenRequest)
  unfolding fetch verify
  authenticate db credentials form = do
    client ← map_err of_client_fetch (fetch db credentials)
    method ← ok_or client.token_endpoint_auth_method client_not_allowed
    _ ← map_err client_credentials_verification (verify crypto credentials method client)
    request ← ok_or form bad_request
    ok (client, request)

module _ (env : Env) (moment : Moment) where
  unfoldable pub dispatch :
      Db → Client → AccessTokenRequest → Result RouteError AccessTokenResponse × Db
  unfolding authorization_code_grant refresh_token_grant
  dispatch db client (authorization_code grant) =
      authorization_code_grant env moment db grant client
  dispatch db client (refresh_token_request grant) = refresh_token_grant env moment db grant client
  dispatch db client _ = (err invalid_grant, db)

module _ (env : Env) (crypto : Crypto) (moment : Moment) where
  unfoldable pub post :
      Db → Credentials → Option AccessTokenRequest → Result RouteError AccessTokenResponse × Db
  unfolding authenticate dispatch
  post db credentials form = elim (authenticate crypto db credentials form) [
    | err e ↦ (err e, db)
    | ok (client, request) ↦ dispatch env moment db client request
  ]

module _ (crypto : Crypto) where
  -- What an authenticated request has shown.
  pub authenticate_ok :
      (db : Db) (credentials : Credentials) (form : Option AccessTokenRequest) (client : Client)
      (request : AccessTokenRequest)
      → authenticate crypto db credentials form ≡ ok (client, request)
      → (method : AuthMethod) × (fetch db credentials ≡ ok client)
        × (client.token_endpoint_auth_method ≡ some method)
        × (verify crypto credentials method client ≡ ok nothing)
        × (form ≡ some request)
  unfolding authenticate
  authenticate_ok db credentials form client request h =
      let (c, e1, h1) = >>=-eq-ok (map_err of_client_fetch (fetch db credentials)) _ h in
      let (m, e2, h2) = >>=-eq-ok (ok_or c.token_endpoint_auth_method client_not_allowed) _ h1 in
      let (x, e3, h3) =
        >>=-eq-ok (map_err client_credentials_verification (verify crypto credentials m c)) _ h2 in
      let (r, e4, h4) = >>=-eq-ok (ok_or form bad_request) _ h3 in
      let same : c ≡ client = ground arith in
      (m, ground arith, rw⁻¹ same (ground arith), rw⁻¹ same (ground arith), ground arith)
