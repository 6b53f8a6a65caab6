-- ===== src/Views/Emails.antt =====
-- The management of a user's emails, crates/handlers/src/views/account/emails/mod.rs and add.rs.
use turnkey_triumph_326606_m.Prelude.{ℕ, Option, none, some, Text, Result, ok, err, map_err, ensure}
use turnkey_triumph_326606_m.Prelude.Int.{ℤ, pos, negsuc}
use turnkey_triumph_326606_m.Prelude.ResultMonad.{◌>>=◌}
use turnkey_triumph_326606_m.Prelude.Decimal.{decimal}
use turnkey_triumph_326606_m.Prelude.ParseInt.{parse_i64}
use turnkey_triumph_326606_m.Model.User.{User, BrowserSession, UserEmail}
use turnkey_triumph_326606_m.Cookies.{Jar, session_info, load_session}
use turnkey_triumph_326606_m.Cookies.Csrf.{verify_form}
use turnkey_triumph_326606_m.Storage.Rows.{Db, database, row_not_found}
use turnkey_triumph_326606_m.Storage.User.Emails.{
  get_user_email, add_user_email, set_user_email_as_primary, remove_user_email,
}
use turnkey_triumph_326606_m.Storage.User.Verification.{add_user_email_verification_code}
use turnkey_triumph_326606_m.TokenEndpoint.{commit_or_rollback}
use turnkey_triumph_326606_m.Views.{
  ViewEnv, ViewMoment, ViewError, csrf, storage, bad_address, bad_id, mail, signed_in,
}

pub data ManagementForm : Type 0 where
  add resend_confirmation set_primary remove : Text → ManagementForm

pub data EmailsPage : Type 0 where
  login_page : EmailsPage
  -- `AccountVerifyEmail`, with the id that its URL holds.
  verify_email_page : ℕ → EmailsPage
  -- `render`, for this session; the emails that it lists are not followed.
  emails_page : BrowserSession → EmailsPage

-- `get_user_email` with an id that was read: no row has one below zero.
unfoldable pub email_with : Db → User → Option ℤ → Result ViewError UserEmail
unfolding get_user_email
email_with db user none = err bad_id
email_with db user (some (negsuc n)) = err (storage (database row_not_found))
email_with db user (some (pos n)) = map_err storage (get_user_email db user n)

-- `data.parse()?`, and the email of the session's user.
unfoldable pub own_email : Db → User → Text → Result ViewError UserEmail
unfolding email_with
own_email db user id = email_with db user (parse_i64 id)

module _ (env : ViewEnv) (moment : ViewMoment) where
  unfoldable pub start_email_verification : Db → User → UserEmail → Result ViewError Db
  unfolding add_user_email_verification_code
  start_email_verification db user user_email = do
    _ ← ensure (env.is_address user_email.email) bad_address
    (verification, db') ←
        map_err storage
          (add_user_email_verification_code db moment.db_now user_email (decimal moment.code))
    _ ←
        ensure (env.send_verification_email user.username user_email.email (decimal moment.code))
          mail
    ok db'

  -- `match form`
  unfoldable pub manage : Db → BrowserSession → ManagementForm → Result ViewError (EmailsPage × Db)
  unfolding own_email add_user_email set_user_email_as_primary remove_user_email
      start_email_verification
  manage db session (add email) = do
    let added = add_user_email db moment.db_now session.user email
    db' ← start_email_verification added.1 session.user added.0
    ok (verify_email_page added.0.id, db')
  manage db session (resend_confirmation id) = do
    user_email ← own_email db session.user id
    db' ← start_email_verification db session.user user_email
    ok (verify_email_page user_email.id, db')
  manage db session (remove id) = do
    email ← own_email db session.user id
    ok (emails_page session, remove_user_email db email)
  manage db session (set_primary id) = do
    email ← own_email db session.user id
    ok (
      emails_page (record session { user = record session.user { primary_email = some email } }),
      set_user_email_as_primary db email,
    )

  -- The CSRF token is checked once there is a session.
  unfoldable pub manage_maybe :
      Db → Option BrowserSession → Jar → Text → ManagementForm → Result ViewError (EmailsPage × Db)
  unfolding verify_form manage
  manage_maybe db none jar csrf_text form = ok (login_page, db)
  manage_maybe db (some session) jar csrf_text form = do
    _ ← map_err csrf (verify_form env.cookies moment.now jar csrf_text)
    manage db session form

  -- `post` of mod.rs; the cookies of its answer are not followed.
  unfoldable pub post_emails_page :
      Db → Jar → Text → ManagementForm → Result ViewError EmailsPage × Db
  unfolding session_info load_session manage_maybe commit_or_rollback
  post_emails_page db jar csrf_text form = commit_or_rollback db (do
    let (info, jar') = session_info env.cookies jar
    maybe_session ← map_err storage (load_session db info)
    manage_maybe db maybe_session jar' csrf_text form)

  unfoldable pub add_maybe : Db → Option BrowserSession → Text → Result ViewError (EmailsPage × Db)
  unfolding manage
  add_maybe db none email = ok (login_page, db)
  add_maybe db (some session) email = manage db session (add email)

  -- `post` of add.rs.
  unfoldable pub post_add_email_page : Db → Jar → Text → Text → Result ViewError EmailsPage × Db
  unfolding signed_in add_maybe commit_or_rollback
  post_add_email_page db jar csrf_text email = commit_or_rollback db (do
    (info, maybe_session, jar') ← signed_in env moment db jar csrf_text
    add_maybe db maybe_session email)
