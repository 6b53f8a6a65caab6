-- ===== src/Tests/Accounts.antt =====
-- Runs of the completion of grants, of the queries on users, and of the introspection.
use turnkey_triumph_326606_m.Authorization.Complete.{check_completion, complete, is_device_token}
use turnkey_triumph_326606_m.Authorization.Completed.{complete-checked}
use turnkey_triumph_326606_m.Authorization.Consent.{give_consent}
use turnkey_triumph_326606_m.Authorization.Consented.{check_completion-give_consent}
use turnkey_triumph_326606_m.ClientAuth.{fetch, secret_basic, verify}
use turnkey_triumph_326606_m.Compat.Rows.{CompatDb}
use turnkey_triumph_326606_m.Introspection.{
  IntrospectionRequest, IntrospectionResponse, access_token_hint, post,
}
use turnkey_triumph_326606_m.Introspection.Active.{IsAccepted, post-accepted}
use turnkey_triumph_326606_m.Model.Client.{AuthMethod, Client, client_secret_basic, no_auth}
use turnkey_triumph_326606_m.Model.Grant.{AuthorizationGrant, is_pending, max_auth_time, pending}
use turnkey_triumph_326606_m.Model.User.{
  BrowserSession, User, UserEmail, UserEmailVerification, already_used, valid,
  was_authenticated_after,
}
use turnkey_triumph_326606_m.Prelude.{
  All, Option, Text, [], ap, arith, codes, err, false, none, nothing, ok, refl, some, sym, text_eq,
  text_eq_iff, true, ℕ, ◌++◌, ◌+◌, ◌||◌, ◌∷◌, ◌≡◌, ◌≢◌, ◌≤◌, ◌⊎◌,
}
use turnkey_triumph_326606_m.Scope.{Scope, ScopeToken, has_token}
use turnkey_triumph_326606_m.Scope.Tokens.{IsToken, token_from_str_ok}
use turnkey_triumph_326606_m.Storage.Consent.{fetch_client_consent, insert_client_consent}
use turnkey_triumph_326606_m.Storage.Consented.{fetch-insert_client_consent}
use turnkey_triumph_326606_m.Storage.Rows.{Db, invalid_transition}
use turnkey_triumph_326606_m.Storage.User.{
  authentication, login, lookup_active_session, new_user, password_mismatch, register_user,
}
use turnkey_triumph_326606_m.Storage.User.Consumed.{consume_email_verification-once}
use turnkey_triumph_326606_m.Storage.User.Registered.{UsersValid, login-register_user}
use turnkey_triumph_326606_m.Storage.User.Verification.{
  consume_email_verification, lookup_user_email_verification_code,
}
use turnkey_triumph_326606_m.Tests.Data.{
  app, at, crypto, db, email_scope, env, grant_row, granted, old_access_token, signed_in,
}
use turnkey_triumph_326606_m.Time.{Timestamp}
use turnkey_triumph_326606_m.Token.{TokenType, access_token, check, generate}

abbrev fresh : BrowserSession
fresh = record signed_in { last_authentication = some (record { id = 1; created_at = 90 }) }

-- A pending grant, of an authorization code.
abbrev waiting : AuthorizationGrant
waiting = record granted { stage = pending }

-- The user has consented to the scope, and the row of the grant is pending.
abbrev consented : Db
consented = record db {
  grants = record grant_row { fulfilled_at = none; oauth2_session_id = none } ∷ [];
  consents =
      record { oauth2_client_id = 1; user_id = 3; scope_token = codes "email"; updated_at = 80 }
      ∷ [];
}

abbrev completed_db : Db
completed_db = (complete env (at 200 b'a') consented waiting fresh).1

completed :
    complete env (at 200 b'a') consented waiting fresh
    ≡ (ok (record { code = some (codes "abc"); response = none }), completed_db)
unfolding complete turnkey_triumph_326606_m.Scope.nqchar
    turnkey_triumph_326606_m.Model.Grant.fulfill
completed = refl

email-IsToken : All IsToken email_scope
unfolding turnkey_triumph_326606_m.Scope.token_from_str turnkey_triumph_326606_m.Scope.nqchar
email-IsToken = ((token_from_str_ok (codes "email") (codes "email") refl).0, tt)

abbrev bob_email : UserEmail
bob_email = record { id = 0; email = codes "b@h"; created_at = 60; confirmed_at = none }

abbrev verifying : Db
verifying = record db {
  user_emails =
      record { id = 0; user_id = 3; email = codes "b@h"; created_at = 60; confirmed_at = none }
      ∷ [];
  verifications =
      record { id = 0; user_email_id = 0; code = codes "123"; created_at = 70; consumed_at = none }
      ∷ [];
}

abbrev unused : UserEmailVerification
unused = record { id = 0; email = bob_email; code = codes "123"; created_at = 70; state = valid }

abbrev consumed : Db
consumed = record verifying {
  verifications =
      record {
        id = 0;
        user_email_id = 0;
        code = codes "123";
        created_at = 70;
        consumed_at = some 75;
      }
      ∷ [];
}

email_code :
    lookup_user_email_verification_code verifying 75 bob_email (codes "123") 100 ≡ ok unused
unfolding lookup_user_email_verification_code text_eq
email_code = refl

consumption :
    consume_email_verification verifying 75 unused
    ≡ ok (record unused { state = already_used 75 }, consumed)
unfolding consume_email_verification
consumption = refl

abbrev plain_hash : Text → Text → Option Text
plain_hash p s = some p

accepts : (p s h : Text) → plain_hash p s ≡ some h → text_eq h p ≡ true
accepts p s h e = (text_eq_iff h p).1 (ground arith)

refuses : (h : Text) → plain_hash (codes "pw") [] ≡ some h → text_eq h (codes "no") ≡ false
unfolding text_eq
refuses h e =
    let same : codes "pw" ≡ h = ground arith in ap (λ (x : Text). text_eq x (codes "no")) (sym same)

db-UsersValid : UsersValid db
db-UsersValid = ((omega arith, tt), tt, (omega arith, tt), tt)

abbrev ann : User
ann = new_user db (codes "ann")

abbrev with_ann : Db
with_ann = record db {
  users = db.users ++ record { id = 4; username = codes "ann"; primary_email_id = none } ∷ [];
  user_passwords = record { user_id = 4; hashed_password = codes "pw"; created_at = 200 } ∷ [];
  next_user_id = 5;
}

ann_registered : register_user plain_hash db 200 [] (codes "ann") (codes "pw") ≡ ok (ann, with_ann)
unfolding register_user text_eq
ann_registered = refl

abbrev keyed : Client
keyed = record app {
  client_id = codes "key";
  encrypted_client_secret = some (codes "s");
  token_endpoint_auth_method = some client_secret_basic;
}

abbrev token_text : Text
token_text = (generate env.crc32 access_token (λ i. b'a')).0

abbrev keyed_db : CompatDb
keyed_db = record {
  main = record db {
    clients = app ∷ keyed ∷ [];
    access_tokens = record old_access_token { token = token_text } ∷ [];
  };
  sessions = [];
  access_tokens = [];
  refresh_tokens = [];
  sso_logins = [];
  next_session_id = 0;
  next_access_token_id = 0;
  next_refresh_token_id = 0;
  next_sso_login_id = 0;
}

abbrev request : IntrospectionRequest
request = record { token = token_text; token_type_hint = some access_token_hint }

abbrev reply : IntrospectionResponse
reply = record {
  active = true;
  scope = some email_scope;
  client_id = some (codes "app");
  username = some (codes "bob");
  token_type = some access_token_hint;
  exp = some 300000100;
  iat = some 100;
  nbf = some 100;
  sub = some (codes "fake-sub-3");
}

introspection :
    post env.crc32 crypto keyed_db 200 (secret_basic (codes "key") (codes "s")) (some request)
    ≡ ok reply
unfolding post generate turnkey_triumph_326606_m.Storage.AccessToken.select_active_access_token
    turnkey_triumph_326606_m.Storage.Lookups.active_session
    turnkey_triumph_326606_m.Storage.Lookups.user_columns
    turnkey_triumph_326606_m.Storage.Sessions.session_of
    turnkey_triumph_326606_m.Storage.Lookups.lookup_client
    turnkey_triumph_326606_m.Storage.Lookups.browser_session_of
    turnkey_triumph_326606_m.Scope.from_str turnkey_triumph_326606_m.Scope.nqchar
introspection = refl

complete-checked_example :
    (is_pending waiting.stage ≡ true)
    × (was_authenticated_after fresh (max_auth_time waiting) ≡ true)
    × (waiting.requires_consent ≡ false)
    × (consent : Scope) × (fetch_client_consent consented fresh.user waiting.client ≡ ok consent)
    × ((has_token (codes "email") consent ≡ true) ⊎ (is_device_token (codes "email") ≡ true))
unfolding has_token
complete-checked_example =
    complete-checked env (at 200 b'a') consented waiting fresh
      (record { code = some (codes "abc"); response = none }) completed_db (codes "email") completed
      refl

check_completion-give_consent_example :
    check_completion
      (give_consent db 200 waiting fresh).1
      (give_consent db 200 waiting fresh).0
      fresh
    ≡ ok nothing
unfolding is_pending was_authenticated_after max_auth_time fetch_client_consent
check_completion-give_consent_example =
    check_completion-give_consent db 200 waiting fresh [] email-IsToken refl refl refl

fetch-insert_client_consent_example :
    (after : Scope) × (fetch_client_consent
        (insert_client_consent db 200 signed_in.user app email_scope)
        signed_in.user
        app
      ≡ ok after)
    × ((u : ScopeToken) → has_token u after ≡ (has_token u ([]) || has_token u email_scope))
unfolding fetch_client_consent
fetch-insert_client_consent_example =
    fetch-insert_client_consent db 200 signed_in.user app email_scope [] email-IsToken refl

consume_email_verification-once_example :
    (75 ≤ unused.created_at + 100)
    × ((t : Timestamp) (age : ℕ)
        → (w : UserEmailVerification) × (lookup_user_email_verification_code consumed t bob_email
              (codes "123")
              age
            ≡ ok w)
          × (consume_email_verification consumed t w ≡ err invalid_transition))
consume_email_verification-once_example =
    consume_email_verification-once verifying 75 bob_email (codes "123") 100 unused
      (record unused { state = already_used 75 }) consumed email_code consumption

login-register_user_example :
    (s : BrowserSession) × (db2 : Db) × (login text_eq with_ann 300 (codes "ann") (codes "pw")
      ≡ ok (s, db2))
    × (s.user ≡ ann)
    × (lookup_active_session db2 s.id ≡ ok s)
    × (login text_eq with_ann 300 (codes "ann") (codes "no")
        ≡ err (authentication (codes "ann") password_mismatch))
login-register_user_example =
    login-register_user plain_hash text_eq db 200 [] (codes "ann") (codes "pw") ann with_ann 300
      (codes "no") accepts refuses db-UsersValid ann_registered

post-accepted_example :
    (reply.active ≡ true)
    × (client : Client) × (method : AuthMethod) × (form : IntrospectionRequest) × (t : TokenType)
    × (fetch keyed_db.main (secret_basic (codes "key") (codes "s")) ≡ ok client)
    × (client.token_endpoint_auth_method ≡ some method)
    × (method ≢ no_auth)
    × (verify crypto (secret_basic (codes "key") (codes "s")) method client ≡ ok nothing)
    × ((some request) ≡ some form)
    × (check env.crc32 form.token ≡ ok t)
    × IsAccepted keyed_db 200 form.token reply t
post-accepted_example =
    post-accepted env.crc32 crypto keyed_db 200 (secret_basic (codes "key") (codes "s"))
      (some request) reply introspection
