-- ===== src/Views/Sessions.antt =====
-- Logging in, out and again, crates/handlers/src/views/login.rs, logout.rs and reauth.rs.
use turnkey_triumph_326606_m.Prelude.{
  Option, none, some, List, [], ◌∷◌, ◌++◌, Text, Result, ok, err, map_err,
}
use turnkey_triumph_326606_m.Prelude.ResultMonad.{◌>>=◌}
use turnkey_triumph_326606_m.Model.User.{BrowserSession}
use turnkey_triumph_326606_m.Cookies.{
  Jar, SessionInfo, mark_session_ended, set_session, update_session_info,
}
use turnkey_triumph_326606_m.Cookies.Csrf.{csrf_token, verify_form}
use turnkey_triumph_326606_m.Storage.Rows.{Db}
use turnkey_triumph_326606_m.Storage.User.{
  LoginError, not_found, authentication, other_lookup, other_authentication, login, end_session,
  authenticate_session,
}
use turnkey_triumph_326606_m.TokenEndpoint.{commit_or_rollback}
use turnkey_triumph_326606_m.Views.{ViewEnv, ViewMoment, ViewError, csrf, storage, signed_in}

pub data LoginFormError : Type 0 where
  username_required password_required invalid_credentials internal : LoginFormError

pub data LoginPage : Type 0 where
  login_form : List LoginFormError → LoginPage
  logged_in : LoginPage

abbrev pub required : Text → LoginFormError → List LoginFormError
required [] e = e ∷ []
required (c ∷ s) e = []

abbrev pub of_login_error : LoginError → LoginFormError
of_login_error (not_found _) = invalid_credentials
of_login_error (authentication _ _) = invalid_credentials
of_login_error (other_lookup _) = internal
of_login_error (other_authentication _) = internal

pub data AccountPage : Type 0 where
  login_page done : AccountPage

module _ (env : ViewEnv) (moment : ViewMoment) where
  -- The form is valid: `login`, in a transaction of its own.
  unfoldable pub try_login : Db → Jar → Text → Text → (LoginPage × Jar) × Db
  unfolding login set_session
  try_login db jar username password = elim (login env.verify db moment.db_now username password) [
    | ok (session, db') ↦ ((logged_in, set_session env.cookies jar session), db')
    | err e ↦ ((login_form (of_login_error e ∷ []), jar), db)
  ]

  abbrev pub form_page :
      List LoginFormError → Db → Jar → Text → Text → Result ViewError (LoginPage × Jar) × Db
  form_page [] db jar username password =
      let done = try_login db jar username password in (ok done.0, done.1)
  form_page (e ∷ es) db jar username password = (ok (login_form (e ∷ es), jar), db)

  -- `post` of login.rs.
  unfoldable pub post_login_page :
      Db → Jar → Text → Text → Text → Result ViewError (LoginPage × Jar) × Db
  unfolding verify_form csrf_token try_login
  post_login_page db jar form username password =
      elim (verify_form env.cookies moment.now jar form) [
        | err e ↦ (err (csrf e), db)
        | ok _ ↦
            let renewed = csrf_token env.cookies moment.now moment.random jar in
            form_page (required username username_required ++ required password password_required)
              db renewed.1 username password
      ]

  -- `if let Some(session) = maybe_session`
  unfoldable pub end_maybe :
      Db → SessionInfo → Option BrowserSession → Jar → Result ViewError (Jar × Db)
  unfolding end_session mark_session_ended update_session_info
  end_maybe db info none jar = ok (jar, db)
  end_maybe db info (some session) jar = do
    db' ← map_err storage (end_session db session)
    ok (update_session_info env.cookies jar (mark_session_ended info), db')

  -- `post` of logout.rs; the user is sent to the login page.
  unfoldable pub post_logout_page : Db → Jar → Text → Result ViewError Jar × Db
  unfolding signed_in end_maybe commit_or_rollback
  post_logout_page db jar form = commit_or_rollback db (do
    (info, maybe_session, jar') ← signed_in env moment db jar form
    end_maybe db info maybe_session jar')

  unfoldable pub reauthenticate :
      Db → Option BrowserSession → Jar → Text → Result ViewError ((AccountPage × Jar) × Db)
  unfolding authenticate_session set_session
  reauthenticate db none jar password = ok ((login_page, jar), db)
  reauthenticate db (some session) jar password = do
    (authenticated, db') ←
        map_err ViewError.authentication
          (authenticate_session env.verify db moment.db_now session password)
    ok ((done, set_session env.cookies jar authenticated), db')

  -- `post` of reauth.rs.
  unfoldable pub post_reauth_page :
      Db → Jar → Text → Text → Result ViewError (AccountPage × Jar) × Db
  unfolding signed_in reauthenticate commit_or_rollback
  post_reauth_page db jar form password = commit_or_rollback db (do
    (info, maybe_session, jar') ← signed_in env moment db jar form
    reauthenticate db maybe_session jar' password)
