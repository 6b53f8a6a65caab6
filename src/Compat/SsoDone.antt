-- ===== src/Compat/SsoDone.antt =====
-- When a login by single sign-on is fulfilled, crates/handlers/src/compat/login_sso_complete.rs.
use turnkey_triumph_326606_m.Prelude.{
  ℕ, err, ◌⊎◌, ◌+◌, ◌≤◌, ◌≡◌, refl, sym, ap, ◌∙◌, Bool, true, false, Option, none, some, [], ◌∷◌,
  ◌++◌, map, Result, ok, ok_or, map_err, ensure, Nothing, nothing, Text, inl, inr, Bool-cases,
  arith,
}
use turnkey_triumph_326606_m.Prelude.ResultMonad.{◌>>=◌, >>=-eq-ok, >>=-elim-ok, map_err_ok}
use turnkey_triumph_326606_m.Time.{Timestamp, minutes}
use turnkey_triumph_326606_m.Model.User.{User, BrowserSession}
use turnkey_triumph_326606_m.Cookies.{Jar, CookieEnv, session_info, load_session}
use turnkey_triumph_326606_m.Cookies.Csrf.{CsrfError, verify_form}
use turnkey_triumph_326606_m.Storage.Rows.{database, invalid_transition, row_not_found}
use turnkey_triumph_326606_m.TokenEndpoint.Redeemed.{commit_ok, commit_error}
use turnkey_triumph_326606_m.Compat.Device.{Device, generate_device}
use turnkey_triumph_326606_m.Compat.Session.{
  CompatSsoLogin, CompatSsoLoginState, pending, fullfilled, exchanged,
}
use turnkey_triumph_326606_m.Compat.Rows.{CompatDb}
use turnkey_triumph_326606_m.Compat.Login.{insert_compat_session, new_session_row}
use turnkey_triumph_326606_m.Compat.LoginLive.{insert_ok}
use turnkey_triumph_326606_m.Compat.Sso.{
  get_compat_sso_login_by_id, is_pending, set_fullfilled, has_login, fullfill_compat_sso_login,
}
use turnkey_triumph_326606_m.Compat.Endpoint.{CompatEnv, CompatMoment}
use turnkey_triumph_326606_m.Compat.SsoPages.{
  CompleteError, Page, login_page, add_email_page, expired_page, sso_page, storage, csrf, query,
  redirect_page, lacks_confirmed_email, is_too_old, fulfill_steps, unless_too_old, complete_for,
  complete_maybe, post_sso_complete,
}

pending_of : (state : CompatSsoLoginState) → is_pending state ≡ true → state ≡ pending
pending_of pending h = refl
pending_of (fullfilled at s) h = cc
pending_of (exchanged at to s) h = cc

ensured : {E : Type 0} (b : Bool) (e : E) {x : Nothing} → ensure b e ≡ ok x → b ≡ true
ensured true e h = refl
ensured false e h = cc

-- What the fulfilment of a login has stored.
fullfill_ok :
    (db : CompatDb) (now : Timestamp) (user : User) (login l : CompatSsoLogin) (device : Device)
    (db' : CompatDb)
    → fullfill_compat_sso_login db now user login device ≡ ok (l, db')
    → (login.state ≡ pending)
      × (db'.sessions ≡ db.sessions ++ new_session_row db now user device ∷ [])
      × (db'.sso_logins ≡ map (set_fullfilled now login.id db.next_session_id) db.sso_logins)
unfolding fullfill_compat_sso_login
fullfill_ok db now user login l device db' h =
    let (x, e1, h1) = >>=-eq-ok (ensure (is_pending login.state) invalid_transition) _ h in
    let ((s, db1), e2, h2) = >>=-eq-ok (insert_compat_session db now user device) _ h1 in
    let (y, e3, h3) = >>=-eq-ok (ensure (has_login login.id db1) (database row_not_found)) _ h2 in
    let (es, edb) = insert_ok db now user device s db1 e2 in
    let last : db'
        ≡ record db1 { sso_logins = map (set_fullfilled now login.id s.id) db1.sso_logins } =
      ground arith in
    (
      pending_of login.state (ensured _ _ e1),
      ap (λ (d : CompatDb). d.sessions) last ∙ ap (λ (d : CompatDb). d.sessions) edb,
      ap (λ (d : CompatDb). d.sso_logins) last ∙ rw (es, edb) refl,
    )

module _ (env : CompatEnv) (cookies : CookieEnv) (moment : CompatMoment)
    (add_token : Text → Text → Option Text) (db : CompatDb) (id : ℕ) (uri : Text)
    (db' : CompatDb) where
  -- What a redirection to the client has shown and stored, for the session of the cookie.
  abbrev pub IsFulfilled : BrowserSession → CompatSsoLogin → Type 0
  IsFulfilled b login =
      (lacks_confirmed_email b.user ≡ false)
      × (get_compat_sso_login_by_id env.parse_url db id ≡ ok login)
      × (login.state ≡ pending)
      × (moment.now ≤ login.created_at + minutes 30)
      × (add_token login.redirect_uri login.token ≡ some uri)
      × (db'.sessions
          ≡ db.sessions
            ++ new_session_row db moment.db_now b.user (generate_device moment.rng).0 ∷ [])
      × (db'.sso_logins
          ≡ map (set_fullfilled moment.db_now login.id db.next_session_id) db.sso_logins)

  redirected :
      (b : BrowserSession) (login : CompatSsoLogin)
      → unless_too_old env cookies moment add_token db b login ≡ ok (redirect_page uri, db')
      → (moment.now ≤ login.created_at + minutes 30)
        × (fulfill_steps env cookies moment add_token db b login ≡ ok (redirect_page uri, db'))
  unfolding unless_too_old
  redirected b login h = elim (Bool-cases (is_too_old moment.now login)) [
    | inl e ↦ absurd (old e)
    | inr e ↦ (ground arith, young e)
  ]
    where
      old : is_too_old moment.now login ≡ true → ⊥
      old e = ground arith

      young :
          is_too_old moment.now login ≡ false
          → fulfill_steps env cookies moment add_token db b login ≡ ok (redirect_page uri, db')
      young e = ground arith

  confirmed :
      (b : BrowserSession)
      → complete_for env cookies moment add_token db id b ≡ ok (redirect_page uri, db')
      → (lacks_confirmed_email b.user ≡ false)
        × ((map_err storage (get_compat_sso_login_by_id env.parse_url db id)
              >>= unless_too_old env cookies moment add_token db b)
            ≡ ok (redirect_page uri, db'))
  unfolding complete_for
  confirmed b h = elim (Bool-cases (lacks_confirmed_email b.user)) [
    | inl e ↦ absurd (ground arith)
    | inr e ↦ (e, ground arith)
  ]

  completed_for :
      (b : BrowserSession)
      → complete_for env cookies moment add_token db id b ≡ ok (redirect_page uri, db')
      → (login : CompatSsoLogin) × IsFulfilled b login
  unfolding fulfill_steps
  completed_for b h =
      let (mail, rest) = confirmed b h in
      let (login, e1, h1) =
        >>=-eq-ok (map_err storage (get_compat_sso_login_by_id env.parse_url db id)) _ rest in
      let (young, steps) = redirected b login h1 in
      let (to, e2, h2) =
        >>=-eq-ok (ok_or (add_token login.redirect_uri login.token) query) _ steps in
      let ((l, db1), e3, h3) =
        >>=-eq-ok
          (map_err storage (
            fullfill_compat_sso_login db moment.db_now b.user login (generate_device moment.rng).0))
          _ h2 in
      let (is, sessions, logins) =
        fullfill_ok db moment.db_now b.user login l (generate_device moment.rng).0 db1
          (map_err_ok storage _ e3) in
      let same : (to ≡ uri) × (db1 ≡ db') = (ground arith, ground arith) in
      (
        login,
        (
          mail,
          map_err_ok storage _ e1,
          is,
          young,
          given (add_token login.redirect_uri login.token) e2 ∙ ap some same.0,
          ap (λ (d : CompatDb). d.sessions) (sym same.1) ∙ sessions,
          ap (λ (d : CompatDb). d.sso_logins) (sym same.1) ∙ logins,
        ),
      )
    where
      given : (o : Option Text) {t : Text} → ok_or o query ≡ ok t → o ≡ some t
      given none k = cc
      given (some u) k = ground arith

  complete_maybe_ok :
      (maybe : Option BrowserSession)
      → complete_maybe env cookies moment add_token db id maybe ≡ ok (redirect_page uri, db')
      → (b : BrowserSession) × (login : CompatSsoLogin) × (maybe ≡ some b) × IsFulfilled b login
  unfolding complete_maybe
  complete_maybe_ok none h = absurd (ground arith)
  complete_maybe_ok (some b) h = let (login, f) = completed_for b h in (b, login, refl, f)

-- Whether the answer redirects to the client.
abbrev pub redirects : Page → Bool
redirects (redirect_page uri) = true
redirects (login_page id) = false
redirects (add_email_page id) = false
redirects expired_page = false
redirects (sso_page login session form) = false

abbrev pub is_redirection : Result CompleteError Page → Bool
is_redirection (ok page) = redirects page
is_redirection (err e) = false

module _ (env : CompatEnv) (cookies : CookieEnv) (moment : CompatMoment)
    (add_token : Text → Text → Option Text) (db db' : CompatDb) where
  -- A page that is no redirection, with nothing stored; or a redirection.
  abbrev IsAnswer : Page → Type 0
  IsAnswer page =
      ((db' ≡ db) × (redirects page ≡ false)) ⊎ ((uri : Text) × (page ≡ redirect_page uri))

  fulfill_steps-IsAnswer :
      (b : BrowserSession) (login : CompatSsoLogin) (page : Page)
      → fulfill_steps env cookies moment add_token db b login ≡ ok (page, db')
      → IsAnswer page
  unfolding fulfill_steps
  fulfill_steps-IsAnswer b login page h =
      let (uri, e1, h1) = >>=-eq-ok (ok_or (add_token login.redirect_uri login.token) query) _ h in
      let (x, e2, h2) =
        >>=-eq-ok
          (map_err storage (
            fullfill_compat_sso_login db moment.db_now b.user login (generate_device moment.rng).0))
          _ h1 in
      inr (uri, ground arith)

  unless_too_old-IsAnswer :
      (b : BrowserSession) (login : CompatSsoLogin) (page : Page) (old : Bool)
      → is_too_old moment.now login ≡ old
      → unless_too_old env cookies moment add_token db b login ≡ ok (page, db')
      → IsAnswer page
  unfolding unless_too_old
  unless_too_old-IsAnswer b login page true e h =
      let same : (db' ≡ db) × (page ≡ expired_page) = (ground arith, ground arith) in
      inl (same.0, ap redirects same.1)
  unless_too_old-IsAnswer b login page false e h =
      fulfill_steps-IsAnswer b login page (ground arith)

  complete_for-IsAnswer :
      (id : ℕ) (b : BrowserSession) (page : Page) (lacks : Bool)
      → lacks_confirmed_email b.user ≡ lacks
      → complete_for env cookies moment add_token db id b ≡ ok (page, db')
      → IsAnswer page
  unfolding complete_for
  complete_for-IsAnswer id b page true e h =
      let same : (db' ≡ db) × (page ≡ add_email_page id) = (ground arith, ground arith) in
      inl (same.0, ap redirects same.1)
  complete_for-IsAnswer id b page false e h =
      let rest : (map_err storage (get_compat_sso_login_by_id env.parse_url db id)
            >>= unless_too_old env cookies moment add_token db b)
          ≡ ok (page, db') =
        ground arith in
      let (login, e1, h1) =
        >>=-eq-ok (map_err storage (get_compat_sso_login_by_id env.parse_url db id)) _ rest in
      unless_too_old-IsAnswer b login page (is_too_old moment.now login) refl h1

  complete_maybe-IsAnswer :
      (id : ℕ) (maybe : Option BrowserSession) (page : Page)
      → complete_maybe env cookies moment add_token db id maybe ≡ ok (page, db')
      → IsAnswer page
  unfolding complete_maybe
  complete_maybe-IsAnswer id none page h =
      let same : (db' ≡ db) × (page ≡ login_page id) = (ground arith, ground arith) in
      inl (same.0, ap redirects same.1)
  complete_maybe-IsAnswer id (some b) page h =
      complete_for-IsAnswer id b page (lacks_confirmed_email b.user) refl h

  post_sso_complete-IsAnswer :
      (jar : Jar) (id : ℕ) (form : Text) (page : Page)
      → post_sso_complete env cookies moment add_token db jar id form ≡ (ok page, db')
      → IsAnswer page
  unfolding post_sso_complete
  post_sso_complete-IsAnswer jar id form page h =
      >>=-elim-ok (map_err csrf (verify_form cookies moment.now (session_info cookies jar).1 form))
        _ (commit_ok db _ page db' h)
        (λ x h1.
          >>=-elim-ok (map_err storage (load_session db.main (session_info cookies jar).0)) _ h1
            (λ maybe h2. complete_maybe-IsAnswer id maybe page h2))

  post_sso_complete-error :
      (jar : Jar) (id : ℕ) (form : Text) (e : CompleteError)
      → post_sso_complete env cookies moment add_token db jar id form ≡ (err e, db')
      → db' ≡ db
  unfolding post_sso_complete
  post_sso_complete-error jar id form e h = commit_error db _ e db' h

post_sso_complete-redirect :
    (env : CompatEnv) (cookies : CookieEnv) (moment : CompatMoment)
    (add_token : Text → Text → Option Text) (db : CompatDb) (jar : Jar) (id : ℕ) (form uri : Text)
    (db' : CompatDb)
    → post_sso_complete env cookies moment add_token db jar id form ≡ (ok (redirect_page uri), db')
    → (b : BrowserSession) × (login : CompatSsoLogin) × (verify_form cookies moment.now
          (session_info cookies jar).1
          form
        ≡ ok nothing)
      × (load_session db.main (session_info cookies jar).0 ≡ ok (some b))
      × IsFulfilled env cookies moment add_token db id uri db' b login
unfolding post_sso_complete
post_sso_complete-redirect env cookies moment add_token db jar id form uri db' h =
    let (x, e1, h1) =
      >>=-eq-ok (map_err csrf (verify_form cookies moment.now (session_info cookies jar).1 form)) _
        (commit_ok db _ (redirect_page uri) db' h) in
    let (maybe, e2, h2) =
      >>=-eq-ok (map_err storage (load_session db.main (session_info cookies jar).0)) _ h1 in
    let (b, login, is, f) = complete_maybe_ok env cookies moment add_token db id uri db' maybe h2 in
    (b, login, map_err_ok csrf _ e1 ∙ only x, map_err_ok storage _ e2 ∙ ap ok is, f)
  where
    only : (y : Nothing) → ◌≡◌ {A = Result CsrfError Nothing} (ok y) (ok nothing)
    only nothing = refl

-- Whatever is answered, either the database is as it was and the answer is no redirection to the client;
-- or it is one, to a form with the cookie's CSRF token, in a browser session that is active and whose
-- user has a confirmed email, for a pending login of at most 30 minutes, and what has been stored is a
-- session of that user and the fulfilment of the login with it.
pub post_sso_complete-checked :
    (env : CompatEnv) (cookies : CookieEnv) (moment : CompatMoment)
    (add_token : Text → Text → Option Text) (db : CompatDb) (jar : Jar) (id : ℕ) (form : Text)
    (answer : Result CompleteError Page) (db' : CompatDb)
    → post_sso_complete env cookies moment add_token db jar id form ≡ (answer, db')
    → ((db' ≡ db) × (is_redirection answer ≡ false))
      ⊎ ((uri : Text) × (b : BrowserSession) × (login : CompatSsoLogin) × (answer
            ≡ ok (redirect_page uri))
          × (verify_form cookies moment.now (session_info cookies jar).1 form ≡ ok nothing)
          × (load_session db.main (session_info cookies jar).0 ≡ ok (some b))
          × IsFulfilled env cookies moment add_token db id uri db' b login)
post_sso_complete-checked env cookies moment add_token db jar id form (err e) db' h =
    inl (post_sso_complete-error env cookies moment add_token db db' jar id form e h, refl)
post_sso_complete-checked env cookies moment add_token db jar id form (ok page) db' h =
    elim (post_sso_complete-IsAnswer env cookies moment add_token db db' jar id form page h) [
      | inl unchanged ↦ inl unchanged
      | inr (uri, e) ↦
          let (b, login, verified, loaded, f) =
            post_sso_complete-redirect env cookies moment add_token db jar id form uri db'
              (h ∙ ap (λ (q : Page). (ok q, db')) e) in
          inr (uri, b, login, ap ok e, verified, loaded, f)
    ]
