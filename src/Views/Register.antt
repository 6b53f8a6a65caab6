-- ===== src/Views/Register.antt =====
-- Registration, crates/handlers/src/views/register.rs.
use turnkey_triumph_326606_m.Prelude.{
  ℕ, Bool, true, false, not, Option, none, some, List, [], ◌∷◌, ◌++◌, map, Text, codes, text_eq,
  Result, ok, map_err, ensure, if◌then◌else◌,
}
use turnkey_triumph_326606_m.Prelude.ResultMonad.{◌>>=◌}
use turnkey_triumph_326606_m.Prelude.Decimal.{decimal}
use turnkey_triumph_326606_m.Cookies.{Jar, set_session}
use turnkey_triumph_326606_m.Cookies.Csrf.{csrf_token, verify_form}
use turnkey_triumph_326606_m.Storage.Rows.{Db}
use turnkey_triumph_326606_m.Storage.User.{username_exists, register_user, start_session}
use turnkey_triumph_326606_m.Storage.User.Emails.{add_user_email}
use turnkey_triumph_326606_m.Storage.User.Verification.{add_user_email_verification_code}
use turnkey_triumph_326606_m.TokenEndpoint.{commit_or_rollback}
use turnkey_triumph_326606_m.Views.{
  Violation, ViewEnv, ViewMoment, ViewError, csrf, storage, bad_address, mail,
}

pub record RegisterForm : Type 0 where
  pub username : Text
  pub email : Text
  pub password : Text
  pub password_confirm : Text

pub data RegisterField : Type 0 where
  on_username on_email on_password on_password_confirm on_form : RegisterField

pub data FieldError : Type 0 where
  required exists invalid unspecified mismatch : FieldError
  policy : Text → FieldError

pub record FormError : Type 0 where
  pub field : RegisterField
  pub error : FieldError

abbrev pub problem : RegisterField → FieldError → List FormError
problem f e = record { field = f; error = e } ∷ []

-- An empty field is required, and any other one is checked further.
abbrev pub check_field : RegisterField → Text → List FormError → List FormError
check_field f [] further = problem f required
check_field f (c ∷ s) further = further

abbrev pub problem_if : Bool → List FormError → List FormError
problem_if false es = []
problem_if true es = es

unfoldable pub field_of : Option Text → RegisterField
unfolding text_eq
field_of none = on_form
field_of (some f) =
    if text_eq f (codes "email")
    then on_email
    else if text_eq f (codes "username")
    then on_username
    else if text_eq f (codes "password")
    then on_password
    else on_form

abbrev pub of_violation : Violation → FormError
of_violation v = record { field = field_of v.field; error = policy v.msg }

pub data RegisterPage : Type 0 where
  register_form : List FormError → RegisterPage
  -- `AccountVerifyEmail`, with the id that its URL holds.
  verify_email_page : ℕ → RegisterPage

module _ (env : ViewEnv) (moment : ViewMoment) where
  -- The validation of the form, in the order of its checks.
  unfoldable pub validate : Db → RegisterForm → List FormError
  unfolding username_exists field_of text_eq
  validate db form =
      check_field on_username form.username
        (problem_if (username_exists db form.username) (problem on_username exists))
      ++ check_field on_email form.email
          (problem_if (not (env.is_address form.email)) (problem on_email invalid))
      ++ check_field on_password form.password []
      ++ check_field on_password_confirm form.password_confirm []
      ++ problem_if (not (text_eq form.password form.password_confirm)) (
          problem on_form mismatch
          ++ problem on_password unspecified
          ++ problem on_password_confirm unspecified)
      ++ map of_violation (env.evaluate_register form.username form.password form.email)

  -- From the valid form to the end. The page is the one of the verification's id.
  unfoldable pub register_steps :
      Db → Jar → RegisterForm → Result ViewError ((RegisterPage × Jar) × Db)
  unfolding register_user add_user_email add_user_email_verification_code start_session set_session
  register_steps db jar form = do
    (user, db1) ←
        map_err storage
          (register_user env.hash db moment.db_now moment.salt form.username form.password)
    let added = add_user_email db1 moment.db_now user form.email
    let code = decimal moment.code
    _ ← ensure (env.is_address added.0.email) bad_address
    (verification, db3) ←
        map_err storage (add_user_email_verification_code added.1 moment.db_now added.0 code)
    _ ← ensure (env.send_verification_email user.username added.0.email code) mail
    let started = start_session db3 moment.db_now user
    ok ((verify_email_page verification.id, set_session env.cookies jar started.0), started.1)

  abbrev pub register_valid :
      List FormError → Db → Jar → RegisterForm → Result ViewError ((RegisterPage × Jar) × Db)
  register_valid [] db jar form = register_steps db jar form
  register_valid (e ∷ es) db jar form = ok ((register_form (e ∷ es), jar), db)

  -- `post` of register.rs.
  unfoldable pub post_register_page :
      Db → Jar → Text → RegisterForm → Result ViewError (RegisterPage × Jar) × Db
  unfolding verify_form csrf_token validate register_steps commit_or_rollback
  post_register_page db jar token form = commit_or_rollback db (do
    _ ← map_err csrf (verify_form env.cookies moment.now jar token)
    let renewed = csrf_token env.cookies moment.now moment.random jar
    register_valid (validate db form) db renewed.1 form)
