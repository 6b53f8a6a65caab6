-- ===== src/TokenEndpoint/Invariant.antt =====
-- The token tables' constraints across requests to the token endpoint,
-- crates/handlers/src/oauth2/token.rs.
use turnkey_triumph_326606_m.Prelude.{
  ◌≡◌, inl, inr, refl, sym, subst, ◌∙◌, Option, none, some, Result, ok, err, Result-cases, arith,
}
use turnkey_triumph_326606_m.Model.Client.{Client}
use turnkey_triumph_326606_m.Model.Session.{Session, AccessToken, RefreshToken}
use turnkey_triumph_326606_m.Model.Grant.{AuthorizationGrant}
use turnkey_triumph_326606_m.Storage.Rows.{Db}
use turnkey_triumph_326606_m.Storage.Constraints.{
  TokensValid, add_access_token-Valid, add_refresh_token-Valid, replace_refresh_token-Valid,
  revoke_access_token-Valid, end_oauth_session-Valid, exchange_grant-Valid,
}
use turnkey_triumph_326606_m.Storage.GrantStage.{end_oauth_session}
use turnkey_triumph_326606_m.ClientAuth.{Crypto, Credentials}
use turnkey_triumph_326606_m.TokenEndpoint.{
  RouteError, AccessTokenResponse, Env, Moment, AuthorizationCodeGrant, AccessTokenRequest,
  authorization_code, refresh_token_request, client_credentials, unsupported,
}
use turnkey_triumph_326606_m.TokenEndpoint.Refresh.{revoke_optional}
use turnkey_triumph_326606_m.TokenEndpoint.Redeemed.{Issued, redeemed}
use turnkey_triumph_326606_m.TokenEndpoint.Rotated.{Rotated, refreshed}
use turnkey_triumph_326606_m.TokenEndpoint.Post.{authenticate, dispatch, post}
use turnkey_triumph_326606_m.TokenEndpoint.Rollback.{authenticated, post-error}

module _ (env : Env) (moment : Moment) (db : Db) (valid : TokensValid db) where
  Issued-TokensValid :
      (grant : AuthorizationCodeGrant) (client : Client) (a : AuthorizationGrant) (s : Session)
      (r : AccessTokenResponse) (db' : Db)
      → Issued env moment db grant client a s r db'
      → TokensValid db'
  Issued-TokensValid grant client a s r db' i =
      exchange_grant-Valid _ _ _ _ _
        (add_refresh_token-Valid _ _ _ _ _ _ _
          (add_access_token-Valid _ _ _ _ _ _ _ valid i.access_added) i.refresh_added)
        i.grant_exchanged

  revoke_optional-TokensValid :
      (o : Option AccessToken) (d d' : Db)
      → TokensValid d
      → revoke_optional d o ≡ ok d'
      → TokensValid d'
  revoke_optional-TokensValid none d d' v h =
      let same : d ≡ d' = ground arith in subst TokensValid same v
  revoke_optional-TokensValid (some a) d d' v h = revoke_access_token-Valid d a d' v h

  Rotated-TokensValid :
      (old : RefreshToken) (s : Session) (r : AccessTokenResponse) (db' : Db)
      → Rotated env moment db old s r db'
      → TokensValid db'
  Rotated-TokensValid old s r db' i =
      revoke_optional-TokensValid old.access_token i.with_next db'
        (replace_refresh_token-Valid _ _ _ _
          (add_refresh_token-Valid _ _ _ _ _ _ _
            (add_access_token-Valid _ _ _ _ _ _ _ valid i.access_added) i.refresh_added)
          i.replaced)
        i.revoked

  dispatch-TokensValid :
      (client : Client) (request : AccessTokenRequest) (r : AccessTokenResponse) (db' : Db)
      → dispatch env moment db client request ≡ (ok r, db')
      → TokensValid db'
  unfolding dispatch
  dispatch-TokensValid client (authorization_code grant) r db' h =
      let (a, s, f, found, stage, early, issued) = redeemed env moment db grant client r db' h in
      Issued-TokensValid grant client a s r db' issued
  dispatch-TokensValid client (refresh_token_request grant) r db' h =
      let (old, s, found, own, rotated) = refreshed env moment db grant client r db' h in
      Rotated-TokensValid old s r db' rotated
  dispatch-TokensValid client (client_credentials scope) r db' h = ground arith
  dispatch-TokensValid client unsupported r db' h = ground arith

-- What successful requests and the end of a session keep, every request keeps.
pub post_keeps :
    (env : Env) (crypto : Crypto) (moment : Moment) (db : Db) (P : Db → Type 0)
    (credentials : Credentials) (form : Option AccessTokenRequest)
    → P db
    → ((client : Client) (request : AccessTokenRequest) (r : AccessTokenResponse) (db' : Db)
        → dispatch env moment db client request ≡ (ok r, db')
        → P db')
    → ((s : Session) (db' : Db) → end_oauth_session db moment.db_now s ≡ ok db' → P db')
    → P (post env crypto moment db credentials form).1
post_keeps env crypto moment db P credentials form valid dispatched ended =
    go (post env crypto moment db credentials form) refl
  where
    go :
        (p : Result RouteError AccessTokenResponse × Db)
        → post env crypto moment db credentials form ≡ p
        → P p.1
    go (ok r, db') h = elim (Result-cases (authenticate crypto db credentials form)) [
      | inl ((client, request), k) ↦
          dispatched client request r db'
            (sym (authenticated env crypto moment db credentials form client request k) ∙ h)
      | inr (x, k) ↦ unfold post in ground arith
    ]
    go (err e, db') h = elim (post-error env crypto moment db credentials form e db' h) [
      | inl same ↦ subst P (sym same) valid
      | inr (grant, is_code, (a, s, f, x, found, stage, late, inv, end)) ↦ ended s db' end
    ]

-- Every request to the token endpoint, whatever its answer, keeps the constraints of the token tables.
pub post-TokensValid :
    (env : Env) (crypto : Crypto) (moment : Moment) (db : Db) (credentials : Credentials)
    (form : Option AccessTokenRequest)
    → TokensValid db
    → TokensValid (post env crypto moment db credentials form).1
post-TokensValid env crypto moment db credentials form valid =
    post_keeps env crypto moment db TokensValid credentials form valid
      (dispatch-TokensValid env moment db valid)
      (λ s db' ended. end_oauth_session-Valid db moment.db_now s db' valid ended)
