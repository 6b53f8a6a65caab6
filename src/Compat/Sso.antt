-- ===== src/Compat/Sso.antt =====
-- Logins by single sign-on, crates/storage/src/compat.rs. A URL is the text that it is printed as;
-- `parse_url` is the `url` crate's.
use turnkey_triumph_326606_m.Prelude.{
  ℕ, ◌+◌, Bool, true, false, not, Option, none, some, [], ◌∷◌, ◌++◌, map, Result, ok, err, ok_or,
  map_err, ensure, Text, text_eq, find, any, ◌==◌, if◌then◌else◌,
}
use turnkey_triumph_326606_m.Prelude.ResultMonad.{◌>>=◌}
use turnkey_triumph_326606_m.Time.{Timestamp}
use turnkey_triumph_326606_m.Model.User.{User, UserEmail}
use turnkey_triumph_326606_m.Storage.Rows.{
  UserRow, UserEmailRow, StorageError, database, inconsistency, invalid_transition,
  unique_violation, row_not_found,
}
use turnkey_triumph_326606_m.Storage.Lookups.{column, column?, primary_email_row, email_of, sub_of}
use turnkey_triumph_326606_m.Compat.Device.{Device, device_try_from}
use turnkey_triumph_326606_m.Compat.Session.{
  CompatSession, CompatSsoLoginState, pending, fullfilled, exchanged, CompatSsoLogin,
}
use turnkey_triumph_326606_m.Compat.Rows.{CompatSessionRow, CompatSsoLoginRow, CompatDb}
use turnkey_triumph_326606_m.Compat.Login.{insert_compat_session}

abbrev pub has_sso_token : Text → CompatDb → Bool
has_sso_token token db = any (λ (r : CompatSsoLoginRow). text_eq r.token token) db.sso_logins

abbrev pub new_login_row : CompatDb → Timestamp → Text → Text → CompatSsoLoginRow
new_login_row db now token redirect_uri = record {
  id = db.next_sso_login_id;
  redirect_uri = redirect_uri;
  token = token;
  created_at = now;
  fullfilled_at = none;
  exchanged_at = none;
  compat_session_id = none;
}

unfoldable pub insert_compat_sso_login :
    CompatDb → Timestamp → Text → Text → Result StorageError (CompatSsoLogin × CompatDb)
insert_compat_sso_login db now token redirect_uri = do
  _ ← ensure (not (has_sso_token token db)) (database unique_violation)
  ok (
    record {
      id = db.next_sso_login_id;
      redirect_uri = redirect_uri;
      token = token;
      created_at = now;
      state = pending;
    },
    record db {
      sso_logins = db.sso_logins ++ new_login_row db now token redirect_uri ∷ [];
      next_sso_login_id = db.next_sso_login_id + 1;
    },
  )

-- The columns of a login that is joined with its session, its user and the primary email, if any.
pub record CompatSsoLoginLookup : Type 0 where
  pub login : CompatSsoLoginRow
  pub session : Option CompatSessionRow
  pub user : Option UserRow
  pub email : Option UserEmailRow

-- The `match` on the user's columns.
unfoldable pub user_of :
    Option ℕ → Option Text → Option UserEmail → Result StorageError (Option User)
unfolding sub_of
user_of (some id) (some username) primary_email =
    ok (
      some
        (record { id = id; username = username; sub = sub_of id; primary_email = primary_email }))
user_of none none none = ok none
user_of _ _ _ = err inconsistency

-- The `match` on the session's columns.
unfoldable pub session_of :
    Option ℕ
    → Option Text
    → Option Timestamp
    → Option Timestamp
    → Option User
    → Result StorageError (Option CompatSession)
unfolding device_try_from
session_of (some id) (some device_id) (some created_at) deleted_at (some user) = do
  device ← map_err (λ _. inconsistency) (device_try_from device_id)
  ok (
      some (record {
        id = id;
        user = user;
        device = device;
        created_at = created_at;
        deleted_at = deleted_at;
      }))
session_of none none none none none = ok none
session_of _ _ _ _ _ = err inconsistency

-- The `match` on the instants of the login and its session.
unfoldable pub state_of :
    Option Timestamp
    → Option Timestamp
    → Option CompatSession
    → Result StorageError CompatSsoLoginState
state_of none none none = ok pending
state_of (some fullfilled_at) none (some session) = ok (fullfilled fullfilled_at session)
state_of (some fullfilled_at) (some exchanged_at) (some session) =
    ok (exchanged fullfilled_at exchanged_at session)
state_of _ _ _ = err inconsistency

-- `TryFrom<CompatSsoLoginLookup>`
unfoldable pub login_try_from :
    (Text → Option Text) → CompatSsoLoginLookup → Result StorageError CompatSsoLogin
unfolding email_of user_of session_of state_of
login_try_from parse_url res = do
  redirect_uri ← ok_or (parse_url res.login.redirect_uri) inconsistency
  primary_email ←
      email_of (column (λ e. e.id) res.email) (column (λ e. e.email) res.email)
        (column (λ e. e.created_at) res.email) (column? (λ e. e.confirmed_at) res.email)
  user ← user_of (column (λ u. u.id) res.user) (column (λ u. u.username) res.user) primary_email
  session ←
      session_of (column (λ s. s.id) res.session) (column (λ s. s.device_id) res.session)
        (column (λ s. s.created_at) res.session) (column? (λ s. s.deleted_at) res.session) user
  state ← state_of res.login.fullfilled_at res.login.exchanged_at session
  ok (record {
    id = res.login.id;
    redirect_uri = redirect_uri;
    token = res.login.token;
    created_at = res.login.created_at;
    state = state;
  })

-- The `LEFT JOIN`s.
unfoldable pub joined_session : CompatDb → Option ℕ → Option CompatSessionRow
joined_session db id = column? (λ i. find (λ (r : CompatSessionRow). r.id == i) db.sessions) id

unfoldable pub joined_user : CompatDb → Option CompatSessionRow → Option UserRow
joined_user db cs = column? (λ s. find (λ (r : UserRow). r.id == s.user_id) db.main.users) cs

unfoldable pub select_login : CompatDb → CompatSsoLoginRow → CompatSsoLoginLookup
unfolding joined_session joined_user primary_email_row
select_login db cl =
    let cs = joined_session db cl.compat_session_id in
    let u = joined_user db cs in
    record { login = cl; session = cs; user = u; email = column? (primary_email_row db.main) u }

unfoldable pub get_compat_sso_login_by_id :
    (Text → Option Text) → CompatDb → ℕ → Result StorageError CompatSsoLogin
unfolding login_try_from select_login
get_compat_sso_login_by_id parse_url db id = do
  cl ← ok_or (find (λ (r : CompatSsoLoginRow). r.id == id) db.sso_logins) (database row_not_found)
  login_try_from parse_url (select_login db cl)

abbrev pub has_token : Text → CompatSsoLoginRow → Bool
has_token token cl = text_eq cl.token token

unfoldable pub get_compat_sso_login_by_token :
    (Text → Option Text) → CompatDb → Text → Result StorageError CompatSsoLogin
unfolding login_try_from select_login
get_compat_sso_login_by_token parse_url db token = do
  cl ← ok_or (find (has_token token) db.sso_logins) (database row_not_found)
  login_try_from parse_url (select_login db cl)

abbrev pub is_pending : CompatSsoLoginState → Bool
is_pending pending = true
is_pending (fullfilled _ _) = false
is_pending (exchanged _ _ _) = false

abbrev pub set_fullfilled : Timestamp → ℕ → ℕ → CompatSsoLoginRow → CompatSsoLoginRow
set_fullfilled now id session_id cl =
    if cl.id == id
    then record cl { fullfilled_at = some now; compat_session_id = some session_id }
    else cl

abbrev pub has_login : ℕ → CompatDb → Bool
has_login id db = any (λ (r : CompatSsoLoginRow). r.id == id) db.sso_logins

unfoldable pub fullfill_compat_sso_login :
    CompatDb
    → Timestamp
    → User
    → CompatSsoLogin
    → Device
    → Result StorageError (CompatSsoLogin × CompatDb)
unfolding insert_compat_session
fullfill_compat_sso_login db now user login device = do
  _ ← ensure (is_pending login.state) invalid_transition
  (session, db1) ← insert_compat_session db now user device
  _ ← ensure (has_login login.id db1) (database row_not_found)
  ok (
    record login { state = fullfilled now session },
    record db1 { sso_logins = map (set_fullfilled now login.id session.id) db1.sso_logins },
  )

abbrev pub set_exchanged : Timestamp → ℕ → CompatSsoLoginRow → CompatSsoLoginRow
set_exchanged now id cl = if cl.id == id then record cl { exchanged_at = some now } else cl

-- The instant of the fulfilment and the session, in the only state that can be exchanged.
abbrev pub exchangeable : CompatSsoLoginState → Result StorageError (Timestamp × CompatSession)
exchangeable (fullfilled fullfilled_at session) = ok (fullfilled_at, session)
exchangeable pending = err invalid_transition
exchangeable (exchanged _ _ _) = err invalid_transition

unfoldable pub mark_compat_sso_login_as_exchanged :
    CompatDb → Timestamp → CompatSsoLogin → Result StorageError (CompatSsoLogin × CompatDb)
mark_compat_sso_login_as_exchanged db now login = do
  (fullfilled_at, session) ← exchangeable login.state
  _ ← ensure (has_login login.id db) (database row_not_found)
  ok (
    record login { state = exchanged fullfilled_at now session },
    record db { sso_logins = map (set_exchanged now login.id) db.sso_logins },
  )
