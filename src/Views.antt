-- ===== src/Views.antt =====
-- The pages of a user's account, crates/handlers/src/views: what their `post` handlers share. A page
-- that is rendered, or redirected to, is the data that decides it; where the user is sent afterwards
-- (`PostAuthAction`) is not followed.
pub mod Sessions
pub mod Account
pub mod Emails
pub mod Register
pub mod LoggedOut
pub mod Registered
pub mod Verified
pub mod Removed
use turnkey_triumph_326606_m.Prelude.{
  ℕ, Bool, Option, none, some, List, Text, Result, ok, err, map_err,
}
use turnkey_triumph_326606_m.Prelude.ResultMonad.{◌>>=◌}
use turnkey_triumph_326606_m.Time.{Timestamp}
use turnkey_triumph_326606_m.Model.User.{BrowserSession}
use turnkey_triumph_326606_m.Cookies.{Jar, CookieEnv, SessionInfo, session_info, load_session}
use turnkey_triumph_326606_m.Cookies.Csrf.{CsrfError, verify_form}
use turnkey_triumph_326606_m.Storage.Rows.{Db, StorageError}
use turnkey_triumph_326606_m.Storage.User.{AuthenticationError}

-- A violation that the policy reports: the field, if it names one, and the message.
pub record Violation : Type 0 where
  pub field : Option Text
  pub msg : Text

-- The code that is not here: the cookies', Argon2's verification and hashing, the parser of email
-- addresses, the policy's evaluation of a registration, and the sending of an email to a user, at an
-- address, with a code.
pub record ViewEnv : Type 0 where
  pub cookies : CookieEnv
  pub verify : Text → Text → Bool
  pub hash : Text → Text → Option Text
  pub is_address : Text → Bool
  pub evaluate_register : Text → Text → Text → List Violation
  pub send_verification_email : Text → Text → Text → Bool

-- The start of the transaction, the clock, and what is drawn: the bytes of a CSRF token, the salt, and a
-- number below a million.
pub record ViewMoment : Type 0 where
  pub db_now : Timestamp
  pub now : Timestamp
  pub random : Text
  pub salt : Text
  pub code : ℕ

-- `FancyError`, by its cause.
pub data ViewError : Type 0 where
  csrf : CsrfError → ViewError
  storage : StorageError → ViewError
  authentication : AuthenticationError → ViewError
  password_mismatch bad_address bad_id mail : ViewError

-- The start of most of them: the form's CSRF token is checked, and the session of the cookie loaded.
unfoldable pub signed_in :
    ViewEnv
    → ViewMoment
    → Db
    → Jar
    → Text
    → Result ViewError (SessionInfo × Option BrowserSession × Jar)
unfolding verify_form session_info load_session
signed_in env moment db jar form = do
  _ ← map_err csrf (verify_form env.cookies moment.now jar form)
  let (info, jar') = session_info env.cookies jar
  maybe_session ← map_err storage (load_session db info)
  ok (info, maybe_session, jar')
