-- ===== src/Views/Account.antt =====
-- The verification of an email and the change of a password,
-- crates/handlers/src/views/account/emails/verify.rs and account/password.rs.
use turnkey_triumph_326606_m.Prelude.{
  ℕ, Option, none, some, Text, text_eq, Result, ok, map_err, ensure,
}
use turnkey_triumph_326606_m.Prelude.ResultMonad.{◌>>=◌}
use turnkey_triumph_326606_m.Time.{Timestamp, hours}
use turnkey_triumph_326606_m.Model.User.{BrowserSession, UserEmail}
use turnkey_triumph_326606_m.Cookies.{Jar}
use turnkey_triumph_326606_m.Storage.Rows.{Db, StorageError}
use turnkey_triumph_326606_m.Storage.User.{authenticate_session, set_password}
use turnkey_triumph_326606_m.Storage.User.Emails.{
  lookup_user_email_by_id, set_user_email_as_primary, mark_user_email_as_verified,
}
use turnkey_triumph_326606_m.Storage.User.Verification.{
  lookup_user_email_verification_code, consume_email_verification,
}
use turnkey_triumph_326606_m.TokenEndpoint.{commit_or_rollback}
use turnkey_triumph_326606_m.Views.{
  ViewEnv, ViewMoment, ViewError, storage, authentication, password_mismatch, signed_in,
}
use turnkey_triumph_326606_m.Views.Sessions.{AccountPage, login_page, done}

-- A user without a primary email gets this one.
abbrev pub primary_unless : Option UserEmail → Db → UserEmail → Db
primary_unless none db email = set_user_email_as_primary db email
primary_unless (some _) db email = db

-- With the id of the email and the code, for the session's user.
unfoldable pub verify_email :
    Db → Timestamp → BrowserSession → ℕ → Text → Result StorageError (UserEmail × Db)
unfolding lookup_user_email_by_id set_user_email_as_primary lookup_user_email_verification_code
    consume_email_verification mark_user_email_as_verified
verify_email db now session id code = do
  email ← lookup_user_email_by_id db session.user id
  let db1 = primary_unless session.user.primary_email db email
  found ← lookup_user_email_verification_code db1 now email code (hours 8)
  (verification, db2) ← consume_email_verification db1 now found
  mark_user_email_as_verified db2 now verification.email

module _ (env : ViewEnv) (moment : ViewMoment) where
  unfoldable pub verify_maybe :
      Db → Option BrowserSession → ℕ → Text → Result ViewError (AccountPage × Db)
  unfolding verify_email
  verify_maybe db none id code = ok (login_page, db)
  verify_maybe db (some session) id code = do
    (_, db') ← map_err storage (verify_email db moment.db_now session id code)
    ok (done, db')

  -- `post` of emails/verify.rs.
  unfoldable pub post_verify_page : Db → Jar → ℕ → Text → Text → Result ViewError AccountPage × Db
  unfolding signed_in verify_maybe commit_or_rollback
  post_verify_page db jar id form code = commit_or_rollback db (do
    (info, maybe_session, jar') ← signed_in env moment db jar form
    verify_maybe db maybe_session id code)

  unfoldable pub change_maybe :
      Db → Option BrowserSession → Text → Text → Text → Result ViewError (AccountPage × Db)
  unfolding authenticate_session set_password text_eq
  change_maybe db none current new confirm = ok (login_page, db)
  change_maybe db (some session) current new confirm = do
    (authenticated, db1) ←
        map_err authentication (authenticate_session env.verify db moment.db_now session current)
    _ ← ensure (text_eq new confirm) password_mismatch
    db2 ←
        map_err storage (set_password env.hash db1 moment.db_now moment.salt authenticated.user new)
    ok (done, db2)

  -- `post` of password.rs.
  unfoldable pub post_password_page :
      Db → Jar → Text → Text → Text → Text → Result ViewError AccountPage × Db
  unfolding signed_in change_maybe commit_or_rollback
  post_password_page db jar form current new confirm = commit_or_rollback db (do
    (info, maybe_session, jar') ← signed_in env moment db jar form
    change_maybe db maybe_session current new confirm)
