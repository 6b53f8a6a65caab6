-- ===== src/TokenEndpoint/Redeemed.antt =====
-- What a successful `authorization_code_grant` has done, crates/handlers/src/oauth2/token.rs.
use turnkey_triumph_326606_m.Prelude.{
  ◌+◌, ◌≤◌, ◌≡◌, ◌≢◌, refl, sym, ap, ◌∙◌, true, false, some, Result, ok, err, ok_or, ensure,
  Nothing, nothing, Text, Result-cases, text_eq, text_eq_iff, inl, inr, Bool-cases, ltb, arith,
}
use turnkey_triumph_326606_m.Prelude.ResultMonad.{>>=-eq-ok}
use turnkey_triumph_326606_m.Time.{Timestamp, seconds, minutes}
use turnkey_triumph_326606_m.Model.Client.{Client}
use turnkey_triumph_326606_m.Model.Session.{Session, AccessToken, RefreshToken}
use turnkey_triumph_326606_m.Model.Grant.{
  AuthorizationCode, AuthorizationGrantStage, pending, fulfilled, exchanged, cancelled,
  AuthorizationGrant,
}
use turnkey_triumph_326606_m.Storage.Rows.{Db, StorageError, inconsistency}
use turnkey_triumph_326606_m.Storage.AccessToken.{add_access_token}
use turnkey_triumph_326606_m.Storage.AccessToken.Laws.{add_access_token_ok}
use turnkey_triumph_326606_m.Storage.RefreshToken.{add_refresh_token}
use turnkey_triumph_326606_m.Storage.RefreshToken.Laws.{add_refresh_token_ok}
use turnkey_triumph_326606_m.Storage.Grant.{lookup_grant_by_code}
use turnkey_triumph_326606_m.Storage.GrantStage.{exchange_grant, end_oauth_session}
use turnkey_triumph_326606_m.Storage.GrantStage.Laws.{
  lookup-exchange_grant, lookup_grant_by_code-tokens,
}
use turnkey_triumph_326606_m.TokenEndpoint.{
  storage, RouteError, anyhow, invalid_grant, unauthorized_client, AccessTokenResponse, Env, Moment,
  AuthorizationCodeGrant, commit_or_rollback,
}
use turnkey_triumph_326606_m.TokenEndpoint.IdToken.{id_token_of}
use turnkey_triumph_326606_m.TokenEndpoint.AuthorizationCode.{
  ttl, failed, new_access_token, new_refresh_token, check_verifier, issue, end_compromised, redeem,
  authorization_code_grant,
}

pub failed_ok {ℓ} : {A : Type ℓ} (r : Result StorageError A) {x : A} → failed r ≡ ok x → r ≡ ok x
failed_ok (ok a) h = ground arith
failed_ok (err e) h = cc

pub ok_pair {ℓ κ μ} :
    {E : Type ℓ} {A : Type κ} {B : Type μ} {a c : A} {b d : B}
    → ◌≡◌ {A = Result E (A × B)} (ok (a, b)) (ok (c, d))
    → (a ≡ c) × (b ≡ d)
ok_pair h = (ground arith, ground arith)

pub ensure_text :
    (a b : Text) (e : RouteError) {x : Nothing} → ensure (text_eq a b) e ≡ ok x → a ≡ b
ensure_text a b e h = ground (arith, text_eq_iff a b)

pub commit_ok {ℓ κ μ} :
    {E : Type ℓ} {A : Type κ} {D : Type μ} (db : D) (m : Result E (A × D)) (r : A) (db' : D)
    → commit_or_rollback db m ≡ (ok r, db')
    → m ≡ ok (r, db')
unfolding commit_or_rollback
commit_ok db (ok x) r db' h = ground arith
commit_ok db (err e) r db' h = ground arith

-- A request that fails is rolled back.
pub commit_error {ℓ κ μ} :
    {E : Type ℓ} {A : Type κ} {D : Type μ} (db : D) (m : Result E (A × D)) (e : E) (db' : D)
    → commit_or_rollback db m ≡ (err e, db')
    → db' ≡ db
unfolding commit_or_rollback
commit_error db (ok x) e db' h = absurd (ground arith)
commit_error db (err x) e db' h = ground arith

module _ (env : Env) (moment : Moment) (db : Db) (grant : AuthorizationCodeGrant)
    (client : Client) where
  -- What the steps of a successful exchange have done.
  pub record Issued (a : AuthorizationGrant) (session : Session) (r : AccessTokenResponse)
      (db' : Db) : Type 0 where
    pub code : AuthorizationCode
    pub has_code : a.code ≡ some code
    pub own_client : client.client_id ≡ session.client.client_id
    pub verified : check_verifier env code.pkce grant.code_verifier ≡ ok nothing
    pub access : AccessToken
    pub with_access : Db
    pub access_added :
        add_access_token db moment.db_now session (new_access_token env moment) ttl
        ≡ ok (access, with_access)
    pub fresh : RefreshToken
    pub with_refresh : Db
    pub refresh_added :
        add_refresh_token with_access moment.db_now session access (new_refresh_token env moment)
        ≡ ok (fresh, with_refresh)
    pub after : AuthorizationGrant
    pub grant_exchanged : exchange_grant with_refresh moment.db_now a ≡ ok (after, db')
    pub same_access_token : r.access_token ≡ new_access_token env moment
    pub same_refresh_token : r.refresh_token ≡ some (new_refresh_token env moment)
    pub same_scope : r.scope ≡ some session.scope

  pub issue_ok :
      (a : AuthorizationGrant) (session : Session) (r : AccessTokenResponse) (db' : Db)
      → issue env moment db grant client a session ≡ ok (r, db')
      → Issued a session r db'
  unfolding issue
  issue_ok a session r db' h =
      let (code, e1, h1) = >>=-eq-ok (ok_or a.code (anyhow (storage inconsistency))) _ h in
      let (x, e2, h2) =
        >>=-eq-ok (ensure (text_eq client.client_id session.client.client_id) unauthorized_client) _
          h1 in
      let (y, e3, h3) = >>=-eq-ok (check_verifier env code.pkce grant.code_verifier) _ h2 in
      let (access_db1, e4, h4) =
        >>=-eq-ok
          (failed (add_access_token db moment.db_now session (new_access_token env moment) ttl)) _
          h3 in
      let (fresh_db2, e5, h5) =
        >>=-eq-ok
          (failed (
            add_refresh_token access_db1.1 moment.db_now session access_db1.0
              (new_refresh_token env moment)))
          _ h4 in
      let (id_token, e6, h6) =
        >>=-eq-ok
          (id_token_of env moment.id_token_now client session a.nonce (new_access_token env moment)
            grant.code)
          _ h5 in
      let (after_db3, e7, h7) =
        >>=-eq-ok (failed (exchange_grant fresh_db2.1 moment.db_now a)) _ h6 in
      let same = ok_pair h7 in
      record {
        code = code;
        has_code = ground arith;
        own_client = ensure_text _ _ _ e2;
        verified = ground arith;
        access = access_db1.0;
        with_access = access_db1.1;
        access_added = failed_ok _ e4;
        fresh = fresh_db2.0;
        with_refresh = fresh_db2.1;
        refresh_added = failed_ok _ e5;
        after = after_db3.0;
        grant_exchanged = failed_ok _ e7 ∙ ap (λ d. ok (after_db3.0, d)) same.1;
        same_access_token = ap (λ q. q.access_token) (sym same.0);
        same_refresh_token = ap (λ q. q.refresh_token) (sym same.0);
        same_scope = ap (λ q. q.scope) (sym same.0);
      }

  pub lookup-Issued :
      (a : AuthorizationGrant) (s : Session) (f : Timestamp) (r : AccessTokenResponse) (db' : Db)
      → lookup_grant_by_code env.parse_url db grant.code ≡ ok a
      → a.stage ≡ fulfilled s f
      → Issued a s r db'
      → lookup_grant_by_code env.parse_url db' grant.code
        ≡ ok (record a { stage = exchanged s f moment.db_now })
  lookup-Issued a s f r db' found stage i =
      lookup-exchange_grant env.parse_url i.with_refresh grant.code a s f moment.db_now i.after db'
        (rw
          (
            (add_refresh_token_ok _ _ _ _ _ _ _ i.refresh_added).2,
            (add_access_token_ok _ _ _ _ _ _ _ i.access_added).2,
          )
          (lookup_grant_by_code-tokens env.parse_url db _ _ _ _ grant.code ∙ found))
        stage i.grant_exchanged

  pub end_compromised_err :
      (s : Session) (r : AccessTokenResponse) (db' : Db)
      → end_compromised env moment db s ≢ (ok r, db')
  unfolding end_compromised
  end_compromised_err s r db' h = elim (Result-cases (end_oauth_session db moment.db_now s)) [
    | inl (d, e) ↦ ground arith
    | inr (x, e) ↦ ground arith
  ]

  pub redeem-early :
      (a : AuthorizationGrant) (s : Session) (f : Timestamp)
      → ltb (f + minutes 10) moment.now ≡ false
      → redeem env moment db grant client a (fulfilled s f)
        ≡ commit_or_rollback db (issue env moment db grant client a s)
  unfolding redeem
  redeem-early a s f e = rw e refl

  pub redeem-late :
      (a : AuthorizationGrant) (s : Session) (f x : Timestamp)
      → ltb (x + seconds 20) moment.now ≡ true
      → redeem env moment db grant client a (exchanged s f x) ≡ end_compromised env moment db s
  unfolding redeem
  redeem-late a s f x e = rw e refl

  pub redeem-retry :
      (a : AuthorizationGrant) (s : Session) (f x : Timestamp)
      → ltb (x + seconds 20) moment.now ≡ false
      → redeem env moment db grant client a (exchanged s f x) ≡ (err invalid_grant, db)
  unfolding redeem
  redeem-retry a s f x e = rw e refl

  pub grant-found :
      (a : AuthorizationGrant)
      → lookup_grant_by_code env.parse_url db grant.code ≡ ok a
      → authorization_code_grant env moment db grant client
        ≡ redeem env moment db grant client a a.stage
  unfolding authorization_code_grant
  grant-found a e = rw (authorization_code_grant, e) refl

  redeem_ok :
      (a : AuthorizationGrant) (stage : AuthorizationGrantStage) (r : AccessTokenResponse)
      (db' : Db)
      → redeem env moment db grant client a stage ≡ (ok r, db')
      → (s : Session) × (f : Timestamp) × (stage ≡ fulfilled s f)
        × (moment.now ≤ f + minutes 10)
        × Issued a s r db'
  unfolding redeem
  redeem_ok a pending r db' h = ground arith
  redeem_ok a (cancelled c) r db' h = ground arith
  redeem_ok a (exchanged s f x) r db' h = elim (Bool-cases (ltb (x + seconds 20) moment.now)) [
    | inl e ↦ absurd (end_compromised_err s r db' (sym (redeem-late a s f x e) ∙ h))
    | inr e ↦ ground arith
  ]
  redeem_ok a (fulfilled s f) r db' h = elim (Bool-cases (ltb (f + minutes 10) moment.now)) [
    | inl e ↦ ground arith
    | inr e ↦ (
      s,
      f,
      refl,
      ground arith,
      issue_ok a s r db' (commit_ok db _ r db' (sym (redeem-early a s f e) ∙ h)),
    )
  ]

  -- Tokens are given out only for a code whose grant is fulfilled, at most ten minutes ago.
  pub redeemed :
      (r : AccessTokenResponse) (db' : Db)
      → authorization_code_grant env moment db grant client ≡ (ok r, db')
      → (a : AuthorizationGrant) × (s : Session) × (f : Timestamp) × (lookup_grant_by_code
            env.parse_url db grant.code
          ≡ ok a)
        × (a.stage ≡ fulfilled s f)
        × (moment.now ≤ f + minutes 10)
        × Issued a s r db'
  unfolding authorization_code_grant
  redeemed r db' h = elim (Result-cases (lookup_grant_by_code env.parse_url db grant.code)) [
    | inl (a, e) ↦
        let (s, f, stage, early, issued) = redeem_ok a a.stage r db' (sym (grant-found a e) ∙ h) in
        (a, s, f, e, stage, early, issued)
    | inr (x, e) ↦ ground arith
  ]
