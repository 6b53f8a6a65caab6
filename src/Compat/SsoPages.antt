-- ===== src/Compat/SsoPages.antt =====
-- The pages of a login by single sign-on, crates/handlers/src/compat/login_sso_redirect.rs and
-- login_sso_complete.rs. A page that is rendered is the data that its template is given.
use turnkey_triumph_326606_m.Prelude.{
  ℕ, ◌+◌, Bool, ◌&&◌, ◌||◌, not, Option, none, some, Result, ok, ok_or, map_err, ensure, Nothing,
  Text, codes, text_eq, if◌then◌else◌, ltb,
}
use turnkey_triumph_326606_m.Prelude.ResultMonad.{◌>>=◌}
use turnkey_triumph_326606_m.Time.{Timestamp, minutes}
use turnkey_triumph_326606_m.Token.{take_samples}
use turnkey_triumph_326606_m.Model.User.{User, UserEmail, BrowserSession}
use turnkey_triumph_326606_m.Cookies.{Jar, CookieEnv, session_info, load_session}
use turnkey_triumph_326606_m.Cookies.Csrf.{CsrfError, csrf_token, form_value, verify_form}
use turnkey_triumph_326606_m.Storage.Rows.{StorageError}
use turnkey_triumph_326606_m.Storage.Lookups.{is_null, column?}
use turnkey_triumph_326606_m.TokenEndpoint.{commit_or_rollback}
use turnkey_triumph_326606_m.Compat.Device.{generate_device}
use turnkey_triumph_326606_m.Compat.Session.{CompatSsoLogin}
use turnkey_triumph_326606_m.Compat.Rows.{CompatDb}
use turnkey_triumph_326606_m.Compat.Sso.{
  insert_compat_sso_login, get_compat_sso_login_by_id, fullfill_compat_sso_login,
}
use turnkey_triumph_326606_m.Compat.Endpoint.{CompatEnv, CompatMoment}

-- What the redirection asks of a parsed URL.
pub record UrlParts : Type 0 where
  pub text : Text
  pub username : Text
  pub password : Option Text
  pub scheme : Text
  pub has_host : Bool

pub data RedirectError : Type 0 where
  anyhow : StorageError → RedirectError
  missing_redirect_url invalid_redirect_url : RedirectError

abbrev pub is_empty : Text → Bool
is_empty t = text_eq t (codes "")

abbrev pub is_http : Text → Bool
is_http scheme = text_eq scheme (codes "http") || text_eq scheme (codes "https")

-- No URL with a user or a password, and none of the web without a host.
unfoldable pub check_redirect_url : UrlParts → Result RedirectError Nothing
unfolding text_eq
check_redirect_url url = do
  _ ← ensure (is_empty url.username && is_null url.password) invalid_redirect_url
  ensure (not (is_http url.scheme) || url.has_host) invalid_redirect_url

-- `get` of login_sso_redirect.rs: the id of the login that the user is sent to complete.
unfoldable pub start_sso_login :
    (Text → Option UrlParts)
    → CompatMoment
    → CompatDb
    → Option Text
    → Result RedirectError (ℕ × CompatDb)
unfolding check_redirect_url insert_compat_sso_login take_samples
start_sso_login parse_parts moment db redirect_url = do
  text ← ok_or redirect_url missing_redirect_url
  url ← ok_or (parse_parts text) invalid_redirect_url
  _ ← check_redirect_url url
  (login, db') ←
      map_err anyhow
        (insert_compat_sso_login db moment.db_now (take_samples 32 moment.rng) url.text)
  ok (login.id, db')

pub data CompleteError : Type 0 where
  storage : StorageError → CompleteError
  csrf : CsrfError → CompleteError
  query : CompleteError

-- What the user is answered.
pub data Page : Type 0 where
  login_page add_email_page : ℕ → Page
  expired_page : Page
  sso_page : CompatSsoLogin → BrowserSession → Text → Page
  redirect_page : Text → Page

-- `session.user.primary_email.as_ref().and_then(|e| e.confirmed_at).is_none()`
abbrev pub lacks_confirmed_email : User → Bool
lacks_confirmed_email user =
    is_null (column? (λ (e : UserEmail). e.confirmed_at) user.primary_email)

abbrev pub is_too_old : Timestamp → CompatSsoLogin → Bool
is_too_old now login = ltb (login.created_at + minutes 30) now

-- `add_token` adds the parameter `loginToken` to the query of a URL; it fails if the query there is not
-- one of parameters.
module _ (env : CompatEnv) (cookies : CookieEnv) (moment : CompatMoment)
    (add_token : Text → Text → Option Text) where
  -- From the login on: the redirection, and the fulfilment of the login for the session's user.
  unfoldable pub fulfill_steps :
      CompatDb → BrowserSession → CompatSsoLogin → Result CompleteError (Page × CompatDb)
  unfolding fullfill_compat_sso_login generate_device
  fulfill_steps db session login = do
    redirect_uri ← ok_or (add_token login.redirect_uri login.token) query
    (_, db') ← map_err storage (
        fullfill_compat_sso_login db moment.db_now session.user login
          (generate_device moment.rng).0)
    ok (redirect_page redirect_uri, db')

  -- The page of a login that is more than 30 minutes old, or its fulfilment.
  unfoldable pub unless_too_old :
      CompatDb → BrowserSession → CompatSsoLogin → Result CompleteError (Page × CompatDb)
  unfolding fulfill_steps
  unless_too_old db session login =
      if is_too_old moment.now login then ok (expired_page, db) else fulfill_steps db session login

  unfoldable pub complete_for :
      CompatDb → ℕ → BrowserSession → Result CompleteError (Page × CompatDb)
  unfolding get_compat_sso_login_by_id unless_too_old
  complete_for db id session =
      if lacks_confirmed_email session.user then ok (add_email_page id, db) else (do
        login ← map_err storage (get_compat_sso_login_by_id env.parse_url db id)
        unless_too_old db session login)

  unfoldable pub complete_maybe :
      CompatDb → ℕ → Option BrowserSession → Result CompleteError (Page × CompatDb)
  unfolding complete_for
  complete_maybe db id none = ok (login_page id, db)
  complete_maybe db id (some session) = complete_for db id session

  -- `post` of login_sso_complete.rs. The pages without a fulfilment leave the transaction uncommitted,
  -- but have changed nothing.
  unfoldable pub post_sso_complete :
      CompatDb → Jar → ℕ → Text → Result CompleteError Page × CompatDb
  unfolding session_info verify_form load_session complete_maybe commit_or_rollback
  post_sso_complete db jar id form = commit_or_rollback db (do
    let (info, jar') = session_info cookies jar
    _ ← map_err csrf (verify_form cookies moment.now jar' form)
    maybe_session ← map_err storage (load_session db.main info)
    complete_maybe db id maybe_session)

  unfoldable pub show_for : CompatDb → ℕ → BrowserSession → Text → Result CompleteError Page
  unfolding get_compat_sso_login_by_id
  show_for db id session form =
      if lacks_confirmed_email session.user then ok (add_email_page id) else (do
        login ← map_err storage (get_compat_sso_login_by_id env.parse_url db id)
        if is_too_old moment.now login then ok expired_page else ok (sso_page login session form))

  unfoldable pub show_maybe :
      CompatDb → ℕ → Option BrowserSession → Text → Result CompleteError Page
  unfolding show_for
  show_maybe db id none form = ok (login_page id)
  show_maybe db id (some session) form = show_for db id session form

  -- `get` of login_sso_complete.rs; `random` is drawn for a new CSRF token.
  unfoldable pub get_sso_complete : CompatDb → Jar → ℕ → Text → Result CompleteError Page
  unfolding session_info csrf_token form_value load_session show_maybe
  get_sso_complete db jar id random = do
    let (info, jar') = session_info cookies jar
    let (token, _) = csrf_token cookies moment.now random jar'
    maybe_session ← map_err storage (load_session db.main info)
    show_maybe db id maybe_session (form_value cookies token)
