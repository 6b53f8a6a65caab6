-- ===== src/TokenEndpoint/Replay.antt =====
-- An authorization code is used at most once: what the token endpoint answers to a code that it has
-- exchanged, crates/handlers/src/oauth2/token.rs.
use turnkey_triumph_326606_m.Prelude.{
  ◌+◌, ◌≤◌, ◌<◌, ◌≡◌, ◌≢◌, refl, sym, ap, ◌∙◌, some, ok, err, subst, length, retain, map, ◌==◌,
  Text, inl, inr, Bool-cases, ltb, arith,
}
use turnkey_triumph_326606_m.Time.{Timestamp, seconds}
use turnkey_triumph_326606_m.Model.Client.{Client}
use turnkey_triumph_326606_m.Model.Session.{Session, AccessToken, RefreshToken}
use turnkey_triumph_326606_m.Model.Grant.{fulfilled, exchanged, AuthorizationGrant}
use turnkey_triumph_326606_m.Storage.Rows.{Db, SessionRow}
use turnkey_triumph_326606_m.Storage.AccessToken.{lookup_active_access_token}
use turnkey_triumph_326606_m.Storage.AccessToken.Laws.{add_access_token_ok}
use turnkey_triumph_326606_m.Storage.RefreshToken.{lookup_active_refresh_token}
use turnkey_triumph_326606_m.Storage.RefreshToken.Laws.{add_refresh_token_ok}
use turnkey_triumph_326606_m.Storage.Grant.{lookup_grant_by_code}
use turnkey_triumph_326606_m.Storage.GrantStage.{end_session, end_oauth_session}
use turnkey_triumph_326606_m.Storage.SessionEnd.{end_oauth_session-tokens}
use turnkey_triumph_326606_m.Storage.GrantStage.Laws.{exchange_grant_ok}
use turnkey_triumph_326606_m.TokenEndpoint.{
  invalid_grant, AccessTokenResponse, Env, Moment, AuthorizationCodeGrant,
}
use turnkey_triumph_326606_m.TokenEndpoint.AuthorizationCode.{
  end_compromised, redeem, authorization_code_grant,
}
use turnkey_triumph_326606_m.TokenEndpoint.Redeemed.{
  Issued, lookup-Issued, end_compromised_err, redeem-late, redeem-retry, grant-found, redeemed,
}

module _ (env : Env) (moment : Moment) (db : Db) (grant : AuthorizationCodeGrant)
    (client : Client) where
  -- A code whose grant has been exchanged gets no token: `invalid_grant` and nothing else happens within
  -- twenty seconds, and after that the session is ended.
  used_code :
      (a : AuthorizationGrant) (s : Session) (f x : Timestamp)
      → lookup_grant_by_code env.parse_url db grant.code ≡ ok a
      → a.stage ≡ exchanged s f x
      → (moment.now ≤ x + seconds 20
          → authorization_code_grant env moment db grant client ≡ (err invalid_grant, db))
        × (x + seconds 20 < moment.now
            → authorization_code_grant env moment db grant client ≡ end_compromised env moment db s)
  used_code a s f x e stage = (
    λ early.
        grant-found env moment db grant client a e
        ∙ ap (redeem env moment db grant client a) stage
        ∙ redeem-retry env moment db grant client a s f x (ground arith),
    λ late.
        grant-found env moment db grant client a e
        ∙ ap (redeem env moment db grant client a) stage
        ∙ redeem-late env moment db grant client a s f x (ground arith),
  )

module _ (env : Env) (first : Moment) (db : Db) (grant : AuthorizationCodeGrant)
    (client : Client) where
  -- The session of a code that has been exchanged, and what a second request gets for it.
  replayed :
      (r : AccessTokenResponse) (db' : Db)
      → authorization_code_grant env first db grant client ≡ (ok r, db')
      → (s : Session) × (r.scope ≡ some s.scope)
        × ((next : Moment) (again : Client)
            → (next.now ≤ first.db_now + seconds 20
                → authorization_code_grant env next db' grant again ≡ (err invalid_grant, db'))
              × (first.db_now + seconds 20 < next.now
                  → authorization_code_grant env next db' grant again
                    ≡ end_compromised env next db' s))
  replayed r db' h =
      let (a, s, f, found, stage, early, issued) = redeemed env first db grant client r db' h in
      (
        s,
        issued.same_scope,
        λ next again.
            used_code env next db' grant again (record a { stage = exchanged s f first.db_now }) s f
              first.db_now (lookup-Issued env first db grant client a s f r db' found stage issued)
              refl,
      )

  -- After a successful exchange of a code, no request of any client at any time gets tokens for the same
  -- code from the database that the exchange left.
  pub used_once :
      (r : AccessTokenResponse) (db' : Db)
      → authorization_code_grant env first db grant client ≡ (ok r, db')
      → (next : Moment) (again : Client) (r' : AccessTokenResponse) (db'' : Db)
      → authorization_code_grant env next db' grant again ≢ (ok r', db'')
  used_once r db' h next again r' db'' got =
      let (s, scope, reply) = replayed r db' h in
      let (early, late) = reply next again in
      elim (Bool-cases (ltb (first.db_now + seconds 20) next.now)) [
        | inl e ↦
            end_compromised_err env next db' grant again s r' db'' (sym (late (ground arith)) ∙ got)
        | inr e ↦ let k = sym (early (ground arith)) ∙ got in ground arith
      ]

  sessions-Issued :
      (a : AuthorizationGrant) (s : Session) (r : AccessTokenResponse) (db' : Db)
      → Issued env first db grant client a s r db'
      → db'.sessions ≡ db.sessions
  sessions-Issued a s r db' i =
      ap (λ d. d.sessions)
        (exchange_grant_ok env.parse_url i.with_refresh first.db_now a i.after db'
          i.grant_exchanged)
      ∙ ap (λ d. d.sessions) (add_refresh_token_ok _ _ _ _ _ _ _ i.refresh_added).2
      ∙ ap (λ d. d.sessions) (add_access_token_ok _ _ _ _ _ _ _ i.access_added).2

  pub same_session :
      (a b : AuthorizationGrant) (s s' : Session) (f f' : Timestamp)
      → lookup_grant_by_code env.parse_url db grant.code ≡ ok a
      → lookup_grant_by_code env.parse_url db grant.code ≡ ok b
      → a.stage ≡ fulfilled s f
      → b.stage ≡ fulfilled s' f'
      → s ≡ s'
  same_session a b s s' f f' e e' st st' = ground arith

  end_compromised_done :
      (next : Moment) (db' : Db) (s : Session)
      → length (retain (λ (os : SessionRow). os.id == s.id) db'.sessions) ≡ 1
      → (ended : Db) × (end_oauth_session db' next.db_now s ≡ ok ended)
        × (end_compromised env next db' s ≡ (err invalid_grant, ended))
  unfolding end_compromised end_oauth_session
  end_compromised_done next db' s one = (
    record db' { sessions = map (end_session next.db_now s.id) db'.sessions },
    rw one refl,
    rw (end_compromised, one) refl,
  )

  -- If the code of a fulfilled grant is exchanged, and used again more than twenty seconds later, the
  -- second request is answered with `invalid_grant`, and from the database that it leaves no access
  -- token and no refresh token of the grant's session is accepted any more. The session has one row.
  pub replay_ends_session :
      (a : AuthorizationGrant) (s : Session) (f : Timestamp) (r : AccessTokenResponse) (db' : Db)
      → lookup_grant_by_code env.parse_url db grant.code ≡ ok a
      → a.stage ≡ fulfilled s f
      → length (retain (λ (os : SessionRow). os.id == s.id) db.sessions) ≡ 1
      → authorization_code_grant env first db grant client ≡ (ok r, db')
      → (next : Moment) (again : Client) → first.db_now + seconds 20 < next.now
      → (ended : Db) × (authorization_code_grant env next db' grant again
          ≡ (err invalid_grant, ended))
        × ((t : Timestamp) (u : Text) (token : AccessToken) (s' : Session)
            → lookup_active_access_token ended t u ≡ ok (token, s')
            → s'.id ≢ s.id)
        × ((u : Text) (token : RefreshToken) (s' : Session)
            → lookup_active_refresh_token ended u ≡ ok (token, s')
            → s'.id ≢ s.id)
  replay_ends_session a s f r db' found stage one h next again late =
      let (b, s', f', found', stage', early, issued') =
        redeemed env first db grant client r db' h in
      let issued : Issued env first db grant client b s r db' =
        subst (λ z. Issued env first db grant client b z r db')
          (same_session b a s' s f' f found' found stage' stage) issued' in
      let bs : b.stage ≡ fulfilled s f' =
        stage' ∙ ap (λ z. fulfilled z f') (same_session b a s' s f' f found' found stage' stage) in
      let (ended, done, reply) =
        end_compromised_done next db' s (rw (sessions-Issued b s r db' issued) one) in
      let (accesses, refreshes) = end_oauth_session-tokens db' next.db_now s ended done in
      (
        ended,
        (used_code env next db' grant again (record b { stage = exchanged s f' first.db_now }) s f'
                first.db_now (lookup-Issued env first db grant client b s f' r db' found' bs issued)
                refl).1
              late
            ∙ reply,
        accesses,
        refreshes,
      )
