-- ===== src/Compat/LoginOnce.antt =====
-- A login token is exchanged once, crates/handlers/src/compat/login.rs.
use turnkey_triumph_326606_m.Prelude.{
  ℕ, ◌+◌, ◌≤◌, ◌≡◌, refl, sym, ap, subst, ◌∙◌, Bool, true, false, Option, Result, ok, err, map_err,
  Nothing, Text, arith,
}
use turnkey_triumph_326606_m.Prelude.ResultMonad.{>>=-eq-ok, map_err_ok}
use turnkey_triumph_326606_m.Time.{Timestamp, seconds}
use turnkey_triumph_326606_m.Token.{generate, compat_access_token, compat_refresh_token}
use turnkey_triumph_326606_m.TokenEndpoint.{commit_or_rollback}
use turnkey_triumph_326606_m.TokenEndpoint.Redeemed.{commit_ok}
use turnkey_triumph_326606_m.Compat.Session.{
  CompatSession, CompatAccessToken, CompatSsoLogin, CompatSsoLoginState, pending, fullfilled,
  exchanged,
}
use turnkey_triumph_326606_m.Compat.Rows.{CompatDb}
use turnkey_triumph_326606_m.Compat.Tokens.{add_compat_access_token, add_compat_refresh_token}
use turnkey_triumph_326606_m.Compat.Sso.{
  get_compat_sso_login_by_token, mark_compat_sso_login_as_exchanged,
}
use turnkey_triumph_326606_m.Compat.Endpoint.{CompatEnv, CompatMoment}
use turnkey_triumph_326606_m.Compat.Rotation.{add_access_ok, add_refresh_ok}
use turnkey_triumph_326606_m.Compat.Exchanged.{get-frame, get-mark_exchanged}
use turnkey_triumph_326606_m.Compat.LoginPost.{
  token, ResponseBody, LoginRouteError, anyhow, invalid_login_token, of_sso_lookup, check_state,
  session_of_state, expires_in, token_login, authenticate, optional_refresh_token, issue,
  login_steps, post_login,
}

-- A successful step leaves the logins, the sessions and the users.
abbrev pub Kept : CompatDb → CompatDb → Type 0
Kept db db' = (db'.sso_logins ≡ db.sso_logins) × (db'.sessions ≡ db.sessions) × (db'.main ≡ db.main)

module _ (env : CompatEnv) (moment : CompatMoment) where
  optional-Kept :
      (refreshable : Bool) (db : CompatDb) (s : CompatSession) (a : CompatAccessToken) (rng : ℕ → ℕ)
      (t : Option Text) (db' : CompatDb)
      → optional_refresh_token env moment refreshable db s a rng ≡ ok (t, db')
      → Kept db db' × (db'.access_tokens ≡ db.access_tokens)
  unfolding optional_refresh_token
  optional-Kept false db s a rng t db' h =
      let same : db ≡ db' = ground arith in rw⁻¹ same ((refl, refl, refl), refl)
  optional-Kept true db s a rng t db' h =
      let ((r, db1), e, h1) =
        >>=-eq-ok
          (map_err anyhow (
            add_compat_refresh_token db moment.db_now s a
              (generate env.crc32 compat_refresh_token rng).0))
          _ h in
      let (fresh, same_r, at) =
        add_refresh_ok db moment.db_now s a _ r db1 (map_err_ok anyhow _ e) in
      let same : db1 ≡ db' = ground arith in rw⁻¹ same (rw at ((refl, refl, refl), refl))

  -- What a login has issued: an access token, added to the database of the session.
  pub issue_ok :
      (db : CompatDb) (refreshable : Bool) (s : CompatSession) (rng : ℕ → ℕ) (r : ResponseBody)
      (db' : CompatDb)
      → issue env moment db refreshable s rng ≡ ok (r, db')
      → (access : CompatAccessToken) × (db1 : CompatDb) × (add_compat_access_token db moment.db_now
            s r.access_token
            (expires_in refreshable)
          ≡ ok (access, db1))
        × Kept db db'
        × (db'.access_tokens ≡ db1.access_tokens)
  unfolding issue
  issue_ok db refreshable s rng r db' h =
      let text : Text = (generate env.crc32 compat_access_token rng).0 in
      let ((a, db1), e1, h1) =
        >>=-eq-ok
          (map_err anyhow
            (add_compat_access_token db moment.db_now s text (expires_in refreshable)))
          _ h in
      let ((t, db2), e2, h2) =
        >>=-eq-ok
          (optional_refresh_token env moment refreshable db1 s a
            (generate env.crc32 compat_access_token rng).1)
          _ h1 in
      let added = map_err_ok anyhow _ e1 in
      let (fresh, same_a, at) =
        add_access_ok db moment.db_now s text (expires_in refreshable) a db1 added in
      let (kept, tokens) = optional-Kept refreshable db1 s a _ t db2 e2 in
      let same : db2 ≡ db' = ground arith in
      let shown : a.token ≡ r.access_token = ground arith in
      let same_text : text ≡ r.access_token =
        sym (ap (λ (q : CompatAccessToken). q.token) same_a) ∙ shown in
      let kept1 : Kept db db1 = rw at (refl, refl, refl) in
      (
        a,
        db1,
        subst
            (λ u.
              add_compat_access_token db moment.db_now s u (expires_in refreshable) ≡ ok (a, db1))
            same_text added,
        subst (λ d. Kept db d) same (kept.0 ∙ kept1.0, kept.1 ∙ kept1.1, kept.2 ∙ kept1.2),
        subst (λ (d : CompatDb). d.access_tokens ≡ db1.access_tokens) same tokens,
      )

  check_state_ok :
      (state : CompatSsoLoginState) (x : Nothing)
      → check_state moment.now state ≡ ok x
      → (at : Timestamp) × (s : CompatSession) × (state ≡ fullfilled at s)
        × (moment.now ≤ at + seconds 30)
  check_state_ok pending x h = cc
  check_state_ok (exchanged at to s) x h = cc
  check_state_ok (fullfilled at s) x h = (at, s, refl, ground arith)

  -- A login token that is exchanged was fulfilled at most 30 s before.
  pub token_login_ok :
      (db : CompatDb) (sso : Text) (s : CompatSession) (db1 : CompatDb)
      → token_login env moment db sso ≡ ok (s, db1)
      → (l : CompatSsoLogin) × (at : Timestamp) × (get_compat_sso_login_by_token env.parse_url db
            sso
          ≡ ok l)
        × (l.state ≡ fullfilled at s)
        × (moment.now ≤ at + seconds 30)
        × (get_compat_sso_login_by_token env.parse_url db1 sso
            ≡ ok (record l { state = exchanged at moment.db_now s }))
  unfolding token_login
  token_login_ok db sso s db1 h =
      let (l, e1, h1) =
        >>=-eq-ok (map_err of_sso_lookup (get_compat_sso_login_by_token env.parse_url db sso)) _
          h in
      let (x, e2, h2) = >>=-eq-ok (check_state moment.now l.state) _ h1 in
      let ((l', db2), e3, h3) =
        >>=-eq-ok (map_err anyhow (mark_compat_sso_login_as_exchanged db moment.db_now l)) _ h2 in
      let (s', e4, h4) = >>=-eq-ok (session_of_state l'.state) _ h3 in
      let found = map_err_ok of_sso_lookup _ e1 in
      let (at, session, is, early) = check_state_ok l.state x e2 in
      let (same_l, again) =
        get-mark_exchanged env.parse_url db sso moment.db_now at l l' session db2 found is
          (map_err_ok anyhow _ e3) in
      let same_state : ◌≡◌ {A = Result LoginRouteError CompatSession} (ok session) (ok s') =
        sym (ap (λ (q : CompatSsoLogin). session_of_state q.state) same_l) ∙ e4 in
      let same_s : session ≡ s = ground arith in
      let same_db : db2 ≡ db1 = ground arith in
      (
        l,
        at,
        found,
        is ∙ ap (fullfilled at) same_s,
        early,
        subst
            (λ d.
              get_compat_sso_login_by_token env.parse_url d sso
              ≡ ok (record l { state = exchanged at moment.db_now s }))
            same_db
            (again
              ∙ ap ok
                  (same_l ∙ ap (λ q. record l { state = exchanged at moment.db_now q }) same_s)),
      )

  -- A login token that has been exchanged is refused.
  refused :
      (db : CompatDb) (sso : Text) (l : CompatSsoLogin) (at to : Timestamp) (s : CompatSession)
      (refreshable : Bool)
      → get_compat_sso_login_by_token env.parse_url db sso ≡ ok l
      → l.state ≡ exchanged at to s
      → post_login env moment db (record { credentials = token sso; refresh_token = refreshable })
        ≡ (err invalid_login_token, db)
  unfolding post_login login_steps authenticate token_login commit_or_rollback
  refused db sso l at to s refreshable found is = rw (found, is) refl

  token_steps :
      (db : CompatDb) (sso : Text) (refreshable : Bool) (r : ResponseBody) (db' : CompatDb)
      → login_steps env moment db (record { credentials = token sso; refresh_token = refreshable })
        ≡ ok (r, db')
      → (s : CompatSession) × (db1 : CompatDb) × (token_login env moment db sso ≡ ok (s, db1))
        × (issue env moment db1 refreshable s moment.rng ≡ ok (r, db'))
  unfolding login_steps authenticate
  token_steps db sso refreshable r db' h =
      let ((s, db1, rng), e1, h1) = >>=-eq-ok (authenticate env moment db (token sso)) _ h in
      let ((s', db2), e2, h2) = >>=-eq-ok (token_login env moment db sso) _ e1 in
      let same : (s' ≡ s) × (db2 ≡ db1) × (moment.rng ≡ rng) = ground arith in
      (s', db2, e2, rw (same.0, same.1, same.2) h1)

-- A login token that the endpoint has accepted was fulfilled at most 30 s before by its clock; from then
-- on, the same token is refused at any time, as an invalid one, and the refusal changes nothing.
pub post_login-once :
    (env : CompatEnv) (moment : CompatMoment) (db : CompatDb) (sso : Text) (refreshable : Bool)
    (r : ResponseBody) (db' : CompatDb) (later : CompatMoment) (again : Bool)
    → post_login env moment db (record { credentials = token sso; refresh_token = refreshable })
      ≡ (ok r, db')
    → (l : CompatSsoLogin) × (at : Timestamp) × (s : CompatSession) × (get_compat_sso_login_by_token
          env.parse_url db sso
        ≡ ok l)
      × (l.state ≡ fullfilled at s)
      × (moment.now ≤ at + seconds 30)
      × (post_login env later db' (record { credentials = token sso; refresh_token = again })
          ≡ (err invalid_login_token, db'))
unfolding post_login
post_login-once env moment db sso refreshable r db' later again h =
    let (s, db1, e1, e2) =
      token_steps env moment db sso refreshable r db' (commit_ok db _ r db' h) in
    let (l, at, found, is, early, gone) = token_login_ok env moment db sso s db1 e1 in
    let (access, db2, added, kept, tokens) =
      issue_ok env moment db1 refreshable s moment.rng r db' e2 in
    (
      l,
      at,
      s,
      found,
      is,
      early,
      refused env later db' sso (record l { state = exchanged at moment.db_now s }) at moment.db_now
          s again (get-frame env.parse_url db1 db' sso kept.0 kept.1 kept.2 ∙ gone) refl,
    )
