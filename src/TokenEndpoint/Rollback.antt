-- ===== src/TokenEndpoint/Rollback.antt =====
-- What an error of the token endpoint leaves, crates/handlers/src/oauth2/token.rs: the transaction is
-- rolled back, but where a code is used again.
use turnkey_triumph_326606_m.Prelude.{
  ◌+◌, ◌<◌, ◌≡◌, ◌⊎◌, refl, sym, ap, ◌∙◌, Option, some, Result, ok, err, Result-cases, Text, inl,
  inr, Bool-cases, ltb, arith,
}
use turnkey_triumph_326606_m.Time.{Timestamp, seconds, minutes}
use turnkey_triumph_326606_m.Model.Client.{Client}
use turnkey_triumph_326606_m.Model.Session.{Session}
use turnkey_triumph_326606_m.Model.Grant.{
  AuthorizationGrantStage, pending, fulfilled, exchanged, cancelled, AuthorizationGrant,
}
use turnkey_triumph_326606_m.Storage.Rows.{Db}
use turnkey_triumph_326606_m.Storage.Grant.{lookup_grant_by_code}
use turnkey_triumph_326606_m.Storage.GrantStage.{end_oauth_session}
use turnkey_triumph_326606_m.TokenEndpoint.{
  RouteError, invalid_grant, Env, Moment, AuthorizationCodeGrant, AccessTokenRequest,
  authorization_code, refresh_token_request, client_credentials, unsupported, commit_or_rollback,
}
use turnkey_triumph_326606_m.TokenEndpoint.AuthorizationCode.{
  issue, end_compromised, redeem, authorization_code_grant,
}
use turnkey_triumph_326606_m.TokenEndpoint.Refresh.{refresh_token_grant}
use turnkey_triumph_326606_m.TokenEndpoint.Redeemed.{grant-found, redeem-early, redeem-late}
use turnkey_triumph_326606_m.TokenEndpoint.Post.{authenticate, authenticate_ok, dispatch, post}
use turnkey_triumph_326606_m.ClientAuth.{Crypto, Credentials}

commit-rollback :
    {A : Type 0} (db : Db) (m : Result RouteError (A × Db)) (e : RouteError) (db' : Db)
    → commit_or_rollback db m ≡ (err e, db')
    → db' ≡ db
unfolding commit_or_rollback
commit-rollback db (ok x) e db' h = ground arith
commit-rollback db (err y) e db' h = ground arith

module _ (env : Env) (moment : Moment) (db : Db) where
  -- A grant whose code was exchanged more than twenty seconds ago, and whose session has been ended.
  abbrev pub EndedByReplay : Text → RouteError → Db → Type 0
  EndedByReplay code e db' =
      (a : AuthorizationGrant) × (s : Session) × (f : Timestamp) × (x : Timestamp)
      × (lookup_grant_by_code env.parse_url db code ≡ ok a)
      × (a.stage ≡ exchanged s f x)
      × (x + seconds 20 < moment.now)
      × (e ≡ invalid_grant)
      × (end_oauth_session db moment.db_now s ≡ ok db')

  end_compromised-error :
      (s : Session) (e : RouteError) (db' : Db)
      → end_compromised env moment db s ≡ (err e, db')
      → (db' ≡ db) ⊎ ((e ≡ invalid_grant) × (end_oauth_session db moment.db_now s ≡ ok db'))
  unfolding end_compromised
  end_compromised-error s e db' h = elim (Result-cases (end_oauth_session db moment.db_now s)) [
    | inl (d, k) ↦ inr (ground arith, ground arith)
    | inr (x, k) ↦ inl (ground arith)
  ]

  pub authorization_code_grant-error :
      (grant : AuthorizationCodeGrant) (client : Client) (e : RouteError) (db' : Db)
      → authorization_code_grant env moment db grant client ≡ (err e, db')
      → (db' ≡ db) ⊎ EndedByReplay grant.code e db'
  unfolding authorization_code_grant redeem
  authorization_code_grant-error grant client e db' h =
      elim (Result-cases (lookup_grant_by_code env.parse_url db grant.code)) [
        | inl (a, k) ↦
            by_stage a k a.stage refl (sym (grant-found env moment db grant client a k) ∙ h)
        | inr (x, k) ↦ inl (ground arith)
      ]
    where
      by_stage :
          (a : AuthorizationGrant)
          → lookup_grant_by_code env.parse_url db grant.code ≡ ok a
          → (stage : AuthorizationGrantStage) → a.stage ≡ stage
          → redeem env moment db grant client a stage ≡ (err e, db')
          → (db' ≡ db) ⊎ EndedByReplay grant.code e db'
      by_stage a k pending st h = inl (ground arith)
      by_stage a k (cancelled c) st h = inl (ground arith)
      by_stage a k (fulfilled s f) st h = elim (Bool-cases (ltb (f + minutes 10) moment.now)) [
        | inl l ↦ inl (ground arith)
        | inr l ↦ inl (
            commit-rollback db (issue env moment db grant client a s) e db'
              (sym (redeem-early env moment db grant client a s f l) ∙ h))
      ]
      by_stage a k (exchanged s f x) st h = elim (Bool-cases (ltb (x + seconds 20) moment.now)) [
        | inl l ↦
            elim (end_compromised-error s e db'
              (sym (redeem-late env moment db grant client a s f x l) ∙ h)) [
                | inl same ↦ inl same
                | inr (inv, done) ↦ inr (a, s, f, x, k, st, ground arith, inv, done)
              ]
        | inr l ↦ inl (ground arith)
      ]

  dispatch-error :
      (client : Client) (request : AccessTokenRequest) (e : RouteError) (db' : Db)
      → dispatch env moment db client request ≡ (err e, db')
      → (db' ≡ db)
        ⊎ ((grant : AuthorizationCodeGrant) × (request ≡ authorization_code grant)
            × EndedByReplay grant.code e db')
  unfolding dispatch refresh_token_grant
  dispatch-error client (authorization_code grant) e db' h =
      elim (authorization_code_grant-error grant client e db' h) [
        | inl same ↦ inl same
        | inr ended ↦ inr (grant, refl, ended)
      ]
  dispatch-error client (refresh_token_request grant) e db' h = inl (commit-rollback db _ e db' h)
  dispatch-error client (client_credentials scope) e db' h = inl (ground arith)
  dispatch-error client unsupported e db' h = inl (ground arith)

module _ (env : Env) (crypto : Crypto) (moment : Moment) where
  pub authenticated :
      (db : Db) (credentials : Credentials) (form : Option AccessTokenRequest) (client : Client)
      (request : AccessTokenRequest)
      → authenticate crypto db credentials form ≡ ok (client, request)
      → post env crypto moment db credentials form ≡ dispatch env moment db client request
  unfolding post
  authenticated db credentials form client request k = rw (post, k) refl

  -- A request to the token endpoint that is answered with an error leaves the database as it was, with
  -- one exception: for a code that was exchanged more than twenty seconds ago the error is
  -- `invalid_grant`, and the session of its grant has been ended.
  pub post-error :
      (db : Db) (credentials : Credentials) (form : Option AccessTokenRequest) (e : RouteError)
      (db' : Db)
      → post env crypto moment db credentials form ≡ (err e, db')
      → (db' ≡ db)
        ⊎ ((grant : AuthorizationCodeGrant) × (form ≡ some (authorization_code grant))
            × EndedByReplay env moment db grant.code e db')
  unfolding post
  post-error db credentials form e db' h =
      elim (Result-cases (authenticate crypto db credentials form)) [
        | inl ((client, request), k) ↦
            elim (dispatch-error env moment db client request e db'
              (sym (authenticated db credentials form client request k) ∙ h)) [
                | inl same ↦ inl same
                | inr (grant, is_code, ended) ↦ inr (
                  grant,
                  (authenticate_ok crypto db credentials form client request k).4 ∙ ap some is_code,
                  ended,
                )
              ]
        | inr (x, k) ↦ inl (ground arith)
      ]
