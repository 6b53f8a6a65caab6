-- ===== src/Tests/Pages.antt =====
-- Runs of the pages and of the cookies.
use turnkey_triumph_326606_m.Compat.Endpoint.{CompatEnv, CompatMoment}
use turnkey_triumph_326606_m.Compat.Rows.{CompatDb}
use turnkey_triumph_326606_m.Compat.Session.{CompatSsoLogin}
use turnkey_triumph_326606_m.Compat.SsoDone.{IsFulfilled, is_redirection, post_sso_complete-checked}
use turnkey_triumph_326606_m.Compat.SsoPages.{CompleteError, Page, post_sso_complete, redirect_page}
use turnkey_triumph_326606_m.Cookies.{
  CookieEnv, CsrfToken, Jar, SessionInfo, load_session, session_info,
}
use turnkey_triumph_326606_m.Cookies.Csrf.{
  csrf_token, expired, form_value, generate_token, mismatch, nearest_second, new_token,
  refresh_token, verify_form,
}
use turnkey_triumph_326606_m.Cookies.Form.{verify_form-csrf_token}
use turnkey_triumph_326606_m.Model.Session.{AccessToken, RefreshToken, Session}
use turnkey_triumph_326606_m.Model.User.{BrowserSession, UserEmail}
use turnkey_triumph_326606_m.Prelude.{
  All, Option, Result, Text, [], arith, codes, err, false, find, if◌then◌else◌, none, nothing, ok,
  refl, some, text_eq, true, ℕ, ◌++◌, ◌+◌, ◌<◌, ◌==◌, ◌∷◌, ◌≡◌, ◌≢◌, ◌≤◌, ◌⊎◌,
}
use turnkey_triumph_326606_m.Prelude.Int.{pos}
use turnkey_triumph_326606_m.Prelude.ParseInt.{parse_i64}
use turnkey_triumph_326606_m.Storage.AccessToken.{lookup_active_access_token}
use turnkey_triumph_326606_m.Storage.RefreshToken.{lookup_active_refresh_token}
use turnkey_triumph_326606_m.Storage.Rows.{
  Db, UserEmailRow, UserPasswordRow, database, row_not_found,
}
use turnkey_triumph_326606_m.Storage.User.{
  latest_password, lookup_active_session, lookup_user_by_username, new_user,
}
use turnkey_triumph_326606_m.Storage.User.Emails.{
  email_of_row, get_user_email, lookup_user_email_by_id, remove_user_email,
  set_user_email_as_primary,
}
use turnkey_triumph_326606_m.Storage.User.Primary.{set_user_email_as_primary-lookup}
use turnkey_triumph_326606_m.Tests.Data.{db, session_row}
use turnkey_triumph_326606_m.Time.{Timestamp, seconds}
use turnkey_triumph_326606_m.Views.{ViewEnv, ViewMoment, signed_in}
use turnkey_triumph_326606_m.Views.Account.{post_password_page}
use turnkey_triumph_326606_m.Views.Emails.{emails_page, post_emails_page, remove}
use turnkey_triumph_326606_m.Views.LoggedOut.{post_logout_page-ended}
use turnkey_triumph_326606_m.Views.Register.{RegisterForm, post_register_page, verify_email_page}
use turnkey_triumph_326606_m.Views.Registered.{post_register_page-verification_id}
use turnkey_triumph_326606_m.Views.Removed.{post_emails_page-remove}
use turnkey_triumph_326606_m.Views.Sessions.{done, post_logout_page}
use turnkey_triumph_326606_m.Views.Verified.{post_password_page-latest}

abbrev encode_current : Option ℕ → Text
encode_current none = []
encode_current (some i) = i ∷ []

abbrev decode_current : Text → Option SessionInfo
decode_current [] = some (record { current = none })
decode_current (i ∷ s) = some (record { current = some i })

abbrev decode_token : Text → Option CsrfToken
decode_token [] = none
decode_token (n ∷ s) = some (record { expiration = seconds n; token = s })

abbrev cookies : CookieEnv
cookies = record {
  base64url = λ t. t;
  base64url_decode = λ t. some t;
  encode_session = λ i. encode_current i.current;
  decode_session = decode_current;
  encode_csrf = λ x. nearest_second x.expiration ∷ x.token;
  decode_csrf = decode_token;
}

decode-encode_current :
    (i : Option ℕ) → decode_current (encode_current i) ≡ some (record { current = i })
decode-encode_current none = refl
decode-encode_current (some i) = refl

abbrev no_cookies : Jar
no_cookies = record { session = none; csrf = none }

differs : codes "x" ≢ (csrf_token cookies 0 (codes "r") no_cookies).0.token
unfolding csrf_token generate_token refresh_token new_token
differs e = absurd (ground arith)

-- The cookies of session 4, with a token for an hour.
abbrev jar : Jar
jar = record { session = some (4 ∷ []); csrf = some (3600 ∷ codes "r") }

abbrev venv : ViewEnv
venv = record {
  cookies = cookies;
  verify = text_eq;
  hash = λ p s. some p;
  is_address = λ a. true;
  evaluate_register = λ u p e. [];
  send_verification_email = λ u a c. true;
}

abbrev moment : ViewMoment
moment = record { db_now = 200; now = 200; random = codes "n"; salt = []; code = 42 }

abbrev bob : BrowserSession
bob = record {
  id = 4;
  user = record { id = 3; username = codes "bob"; sub = codes "fake-sub-3"; primary_email = none };
  created_at = 50;
  last_authentication = none;
}

abbrev bob_info : SessionInfo
bob_info = record { current = some 4 }

-- Another session of the user, with a token.
abbrev vdb : Db
vdb = record db {
  user_passwords = record { user_id = 3; hashed_password = codes "pw"; created_at = 60 } ∷ [];
  user_sessions =
      record { id = 4; user_id = 3; created_at = 50; active = true }
      ∷ record { id = 7; user_id = 3; created_at = 55; active = true }
      ∷ [];
  sessions = record session_row { user_session_id = 7 } ∷ [];
  next_verification_id = 5;
}

cookie_read : signed_in venv moment vdb jar (codes "r") ≡ ok (bob_info, some bob, jar)
unfolding signed_in
cookie_read = refl

abbrev ended_jar : Jar
ended_jar = record jar { session = some [] }

abbrev ended_db : Db
ended_db = (post_logout_page venv moment vdb jar (codes "r")).1

logged_out : post_logout_page venv moment vdb jar (codes "r") ≡ (ok ended_jar, ended_db)
unfolding post_logout_page
logged_out = refl

abbrev ann : RegisterForm
ann = record {
  username = codes "ann";
  email = codes "a@h";
  password = codes "pw";
  password_confirm = codes "pw";
}

abbrev registered_jar : Jar
registered_jar = record jar { session = some (5 ∷ []) }

abbrev registered_db : Db
registered_db = (post_register_page venv moment vdb jar (codes "r") ann).1

registered :
    post_register_page venv moment vdb jar (codes "r") ann
    ≡ (ok (verify_email_page 5, registered_jar), registered_db)
unfolding post_register_page
registered = refl

abbrev changed_db : Db
changed_db =
    (post_password_page venv moment vdb jar (codes "r") (codes "pw") (codes "new") (codes "new")).1

password_changed :
    post_password_page venv moment vdb jar (codes "r") (codes "pw") (codes "new") (codes "new")
    ≡ (ok done, changed_db)
unfolding post_password_page
password_changed = refl

abbrev bob_email : UserEmailRow
bob_email = record {
  id = 0;
  user_id = 3;
  email = codes "b@h";
  created_at = 60;
  confirmed_at = some 65;
}

abbrev mdb : Db
mdb = record vdb { user_emails = bob_email ∷ [] }

bob_found : lookup_user_by_username mdb (codes "bob") ≡ ok bob.user
unfolding lookup_user_by_username text_eq turnkey_triumph_326606_m.Storage.User.user_of_row
bob_found = refl

abbrev emptied_db : Db
emptied_db = (post_emails_page venv moment mdb jar (codes "r") (remove (codes "0"))).1

email_removed :
    post_emails_page venv moment mdb jar (codes "r") (remove (codes "0"))
    ≡ (ok (emails_page bob), emptied_db)
unfolding post_emails_page parse_i64 turnkey_triumph_326606_m.Prelude.ParseInt.digits_value
email_removed = refl

abbrev cenv : CompatEnv
cenv = record { crc32 = λ t. 7; verify = text_eq; parse_url = λ s. some s; homeserver = codes "h" }

abbrev cmoment : CompatMoment
cmoment = record { db_now = 200; now = 200; rng = λ i. b'b' }

abbrev cdb : CompatDb
cdb = record {
  main = record mdb {
    users = record { id = 3; username = codes "bob"; primary_email_id = some 0 } ∷ [];
  };
  sessions = [];
  access_tokens = [];
  refresh_tokens = [];
  sso_logins =
      record {
        id = 0;
        redirect_uri = codes "a:b";
        token = codes "sso";
        created_at = 150;
        fullfilled_at = none;
        exchanged_at = none;
        compat_session_id = none;
      }
      ∷ [];
  next_session_id = 0;
  next_access_token_id = 0;
  next_refresh_token_id = 0;
  next_sso_login_id = 1;
}

abbrev to_uri : Text → Text → Option Text
to_uri u t = some (u ++ t)

abbrev to_client : Result CompleteError Page
to_client = ok (redirect_page (codes "a:bsso"))

abbrev fulfilled_db : CompatDb
fulfilled_db = (post_sso_complete cenv cookies cmoment to_uri cdb jar 0 (codes "r")).1

fulfilled :
    post_sso_complete cenv cookies cmoment to_uri cdb jar 0 (codes "r") ≡ (to_client, fulfilled_db)
unfolding post_sso_complete
fulfilled = refl

verify_form-csrf_token_example :
    (verify_form cookies 5
        (csrf_token cookies 0 (codes "r") no_cookies).1
        (form_value cookies (csrf_token cookies 0 (codes "r") no_cookies).0)
      ≡ ok nothing)
    × (verify_form cookies 5
          (csrf_token cookies 0 (codes "r") no_cookies).1
          (cookies.base64url (codes "x"))
        ≡ err mismatch)
    × ((csrf_token cookies 5 (codes "n") (csrf_token cookies 0 (codes "r") no_cookies).1).0.token
        ≡ (csrf_token cookies 0 (codes "r") no_cookies).0.token)
    × (verify_form cookies 3600000000 (csrf_token cookies 0 (codes "r") no_cookies).1 (codes "r")
        ≡ err expired)
verify_form-csrf_token_example =
    verify_form-csrf_token cookies 0 5 3600000000 (codes "r") (codes "n") no_cookies (codes "x")
      (codes "r") (λ x. refl) (λ b. refl) (omega arith) (omega arith) differs

post_logout_page-ended_example :
    (lookup_active_session ended_db bob.id ≡ err (database row_not_found))
    × ((session_info venv.cookies ended_jar).0 ≡ record { current = none })
    × ((t : Timestamp) (u : Text) (a : AccessToken) (s : Session)
        → lookup_active_access_token ended_db t u ≡ ok (a, s)
        → s.browser_session.id ≢ bob.id)
    × ((u : Text) (r : RefreshToken) (s : Session)
        → lookup_active_refresh_token ended_db u ≡ ok (r, s)
        → s.browser_session.id ≢ bob.id)
post_logout_page-ended_example =
    post_logout_page-ended venv moment vdb jar (codes "r") ended_jar ended_db bob_info bob jar
      (λ i. decode-encode_current i.current) cookie_read logged_out

post_register_page-verification_id_example :
    (5 ≡ vdb.next_verification_id)
    × (email : UserEmail) × (lookup_user_email_by_id registered_db
          (new_user vdb ann.username)
          vdb.next_user_email_id
        ≡ ok email)
    × (email.email ≡ ann.email)
    × (lookup_user_email_by_id registered_db (new_user vdb ann.username) 5
        ≡ err (database row_not_found))
post_register_page-verification_id_example =
    post_register_page-verification_id venv moment vdb jar (codes "r") ann 5 registered_jar
      registered_db tt (omega arith) registered

post_password_page-latest_example :
    (p : UserPasswordRow) × (latest_password bob.user.id vdb.user_passwords ≡ some p)
    × (venv.verify p.hashed_password (codes "pw") ≡ true)
    × ((codes "new") ≡ (codes "new"))
    × (h : Text) × (venv.hash (codes "new") moment.salt ≡ some h)
    × (latest_password bob.user.id changed_db.user_passwords
        ≡ some (record { user_id = bob.user.id; hashed_password = h; created_at = moment.db_now }))
post_password_page-latest_example =
    post_password_page-latest venv moment vdb jar (codes "r") (codes "pw") (codes "new")
      (codes "new") bob_info bob jar changed_db ((omega arith, tt)) cookie_read password_changed

post_emails_page-remove_example :
    (load_session mdb (session_info venv.cookies jar).0 ≡ ok (some bob))
    × (verify_form venv.cookies moment.now (session_info venv.cookies jar).1 (codes "r")
        ≡ ok nothing)
    × (i : ℕ) × (email : UserEmail) × (parse_i64 (codes "0") ≡ some (pos i))
    × (get_user_email mdb bob.user i ≡ ok email)
    × (get_user_email emptied_db bob.user 0
        ≡ (if 0 == i then err (database row_not_found) else get_user_email mdb bob.user 0))
post_emails_page-remove_example =
    post_emails_page-remove venv moment mdb jar (codes "r") (codes "0") bob emptied_db bob.user 0
      email_removed

set_user_email_as_primary-lookup_example :
    (lookup_user_by_username (set_user_email_as_primary mdb (email_of_row bob_email)) (codes "bob")
      ≡ ok (record bob.user { primary_email = some (email_of_row bob_email) }))
    × (lookup_user_by_username
          (remove_user_email
            (set_user_email_as_primary mdb (email_of_row bob_email))
            (email_of_row bob_email))
          (codes "bob")
        ≡ ok (record bob.user { primary_email = none }))
set_user_email_as_primary-lookup_example =
    set_user_email_as_primary-lookup mdb (codes "bob") bob.user (email_of_row bob_email) bob_email
      bob_found refl refl

post_sso_complete-checked_example :
    ((fulfilled_db ≡ cdb) × (is_redirection to_client ≡ false))
    ⊎ ((uri : Text) × (b : BrowserSession) × (login : CompatSsoLogin) × (to_client
          ≡ ok (redirect_page uri))
        × (verify_form cookies cmoment.now (session_info cookies jar).1 (codes "r") ≡ ok nothing)
        × (load_session cdb.main (session_info cookies jar).0 ≡ ok (some b))
        × IsFulfilled cenv cookies cmoment to_uri cdb 0 uri fulfilled_db b login)
post_sso_complete-checked_example =
    post_sso_complete-checked cenv cookies cmoment to_uri cdb jar 0 (codes "r") to_client
      fulfilled_db fulfilled
