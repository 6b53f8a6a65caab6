-- ===== src/TokenEndpoint/Authenticated.antt =====
-- Who gets tokens from the token endpoint, crates/handlers/src/oauth2/token.rs.
use turnkey_triumph_326606_m.Prelude.{
  ◌≡◌, sym, ◌∙◌, Option, some, ok, Result-cases, text_eq, text_eq_iff, inl, inr, arith,
}
use turnkey_triumph_326606_m.Prelude.Finding.{find_sound}
use turnkey_triumph_326606_m.Model.Client.{Client, AuthMethod}
use turnkey_triumph_326606_m.Model.Session.{Session, RefreshToken}
use turnkey_triumph_326606_m.Time.{Timestamp}
use turnkey_triumph_326606_m.Model.Grant.{AuthorizationGrant, fulfilled}
use turnkey_triumph_326606_m.Storage.Grant.{lookup_grant_by_code}
use turnkey_triumph_326606_m.ClientAuth.{Crypto, Credentials, credentials_client_id, fetch}
use turnkey_triumph_326606_m.ClientAuth.Laws.{Proves, verify_sound}
use turnkey_triumph_326606_m.Storage.Rows.{Db}
use turnkey_triumph_326606_m.Storage.RefreshToken.{lookup_active_refresh_token}
use turnkey_triumph_326606_m.TokenEndpoint.{
  AccessTokenResponse, Env, Moment, AccessTokenRequest, authorization_code, refresh_token_request,
  client_credentials, unsupported,
}
use turnkey_triumph_326606_m.TokenEndpoint.Redeemed.{redeemed}
use turnkey_triumph_326606_m.TokenEndpoint.Rotated.{refreshed}
use turnkey_triumph_326606_m.TokenEndpoint.Post.{authenticate, authenticate_ok, dispatch, post}
use turnkey_triumph_326606_m.TokenEndpoint.Rollback.{authenticated}

fetch_found :
    (db : Db) (c : Credentials) (client : Client)
    → fetch db c ≡ ok client
    → client.client_id ≡ credentials_client_id c
unfolding fetch
fetch_found db c client h =
    let (x, q) =
      find_sound (λ (r : Client). text_eq r.client_id (credentials_client_id c)) db.clients client
        (ground arith) in
    ground (arith, text_eq_iff client.client_id (credentials_client_id c))

-- The session that the request's code was granted for, or that its refresh token is of.
abbrev pub SessionOf : Env → Db → AccessTokenRequest → Session → Type 0
SessionOf env db (authorization_code grant) s =
    (a : AuthorizationGrant) × (f : Timestamp) × (lookup_grant_by_code env.parse_url db grant.code
      ≡ ok a)
    × (a.stage ≡ fulfilled s f)
SessionOf env db (refresh_token_request grant) s =
    (old : RefreshToken) × (lookup_active_refresh_token db grant.refresh_token ≡ ok (old, s))
SessionOf env db _ s = ⊥

module _ (env : Env) (crypto : Crypto) (moment : Moment) where
  dispatch_ok :
      (db : Db) (client : Client) (request : AccessTokenRequest) (r : AccessTokenResponse)
      (db' : Db)
      → dispatch env moment db client request ≡ (ok r, db')
      → (s : Session) × SessionOf env db request s
        × (s.client.client_id ≡ client.client_id)
        × (r.scope ≡ some s.scope)
  unfolding dispatch
  dispatch_ok db client (authorization_code grant) r db' h =
      let (a, s, f, found, stage, early, issued) = redeemed env moment db grant client r db' h in
      (s, (a, f, found, stage), sym issued.own_client, issued.same_scope)
  dispatch_ok db client (refresh_token_request grant) r db' h =
      let (old, s, found, own, rotated) = refreshed env moment db grant client r db' h in
      (s, (old, found), sym own, rotated.same_scope)
  dispatch_ok db client (client_credentials scope) r db' h = ground arith
  dispatch_ok db client unsupported r db' h = ground arith

  -- Whoever gets tokens names a stored client, has a method registered for it and proves by this method
  -- to be that client; and the tokens are for
  -- the session of the request's code or refresh token, a session of the same client, with its scope.
  pub post-Proves :
      (db : Db) (credentials : Credentials) (form : Option AccessTokenRequest)
      (r : AccessTokenResponse) (db' : Db)
      → post env crypto moment db credentials form ≡ (ok r, db')
      → (client : Client) × (method : AuthMethod) × (fetch db credentials ≡ ok client)
        × (client.token_endpoint_auth_method ≡ some method)
        × Proves crypto client credentials method
        × ((request : AccessTokenRequest) × (s : Session) × (form ≡ some request)
            × SessionOf env db request s
            × (s.client.client_id ≡ credentials_client_id credentials)
            × (r.scope ≡ some s.scope))
  unfolding post
  post-Proves db credentials form r db' h =
      elim (Result-cases (authenticate crypto db credentials form)) [
        | inl ((client, request), k) ↦
            let (m, e1, e2, e3, e4) = authenticate_ok crypto db credentials form client request k in
            let (s, of_request, own, scope) =
              dispatch_ok db client request r db'
                (sym (authenticated env crypto moment db credentials form client request k) ∙ h) in
            (
              client,
              m,
              e1,
              e2,
              verify_sound crypto client credentials m e3,
              (request, s, e4, of_request, own ∙ fetch_found db credentials client e1, scope),
            )
        | inr (x, k) ↦ ground arith
      ]
