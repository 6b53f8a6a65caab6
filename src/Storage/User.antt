-- ===== src/Storage/User.antt =====
-- Users, their passwords and their browser sessions, crates/storage/src/user.rs. A query answers with
-- an error or with its result and the new database; `now` is the start of its transaction.
pub mod Emails
pub mod Verification
pub mod Consumed
pub mod Primary
pub mod Registered
pub mod Ended
use turnkey_triumph_326606_m.Prelude.{
  ℕ, ◌+◌, Bool, true, false, ◌&&◌, Option, none, some, List, [], ◌∷◌, ◌++◌, map, Result, ok, err,
  ok_or, map_err, ensure, not, Text, text_eq, find, any, retain, length, if◌then◌else◌, ◌==◌, ltb,
}
use turnkey_triumph_326606_m.Prelude.ResultMonad.{◌>>=◌}
use turnkey_triumph_326606_m.Time.{Timestamp}
use turnkey_triumph_326606_m.Model.User.{User, Authentication, BrowserSession}
use turnkey_triumph_326606_m.Storage.Rows.{
  Db, UserRow, UserPasswordRow, UserSessionRow, AuthenticationRow, StorageError, SqlError, database,
  unique_violation, row_not_found, exactly_one, hashing,
}
use turnkey_triumph_326606_m.Storage.Lookups.{
  column, column?, primary_email_row, user_columns, email_of, sub_of, browser_session_of,
}

-- A user's row, joined with the row of the primary email.
unfoldable pub user_of_row : Db → UserRow → Result StorageError User
unfolding primary_email_row email_of sub_of
user_of_row db u = do
  let ue = primary_email_row db u
  primary_email ←
      email_of (column (λ e. e.id) ue) (column (λ e. e.email) ue) (column (λ e. e.created_at) ue)
        (column? (λ e. e.confirmed_at) ue)
  ok (record { id = u.id; username = u.username; sub = sub_of u.id; primary_email = primary_email })

abbrev pub has_name : Text → UserRow → Bool
has_name username u = text_eq u.username username

unfoldable pub lookup_user_by_username : Db → Text → Result StorageError User
lookup_user_by_username db username = do
  u ← ok_or (find (has_name username) db.users) (database row_not_found)
  user_of_row db u

unfoldable pub username_exists : Db → Text → Bool
username_exists db username = any (has_name username) db.users

-- The session with this id, joined with its user and its latest authentication, if it is active.
unfoldable pub lookup_active_session : Db → ℕ → Result StorageError BrowserSession
unfolding user_columns browser_session_of
lookup_active_session db id = do
  (active, columns) ← ok_or (user_columns db id) (database row_not_found)
  _ ← ensure active (database row_not_found)
  browser_session_of columns

abbrev pub is_active_of : ℕ → UserSessionRow → Bool
is_active_of user_id s = s.user_id == user_id && s.active

unfoldable pub count_active_sessions : Db → User → ℕ
count_active_sessions db user = length (retain (is_active_of user.id) db.user_sessions)

unfoldable pub start_session : Db → Timestamp → User → BrowserSession × Db
start_session db now user = (
  record {
    id = db.next_user_session_id;
    user = user;
    created_at = now;
    last_authentication = none;
  },
  record db {
    user_sessions =
        db.user_sessions
        ++ record {
          id = db.next_user_session_id;
          user_id = user.id;
          created_at = now;
          active = true;
        }
          ∷ [];
    next_user_session_id = db.next_user_session_id + 1;
  },
)

abbrev pub deactivate : ℕ → UserSessionRow → UserSessionRow
deactivate id s = if s.id == id then record s { active = false } else s

unfoldable pub end_session : Db → BrowserSession → Result StorageError Db
end_session db session =
    exactly_one (length (retain (λ (s : UserSessionRow). s.id == session.id) db.user_sessions))
      (record db { user_sessions = map (deactivate session.id) db.user_sessions })

-- `ORDER BY up.created_at DESC LIMIT 1`; of two rows of the same instant, the first.
later_password : UserPasswordRow → Option UserPasswordRow → UserPasswordRow
later_password p none = p
later_password p (some q) = if ltb p.created_at q.created_at then q else p

unfoldable pub latest_password : ℕ → List UserPasswordRow → Option UserPasswordRow
unfolding later_password
latest_password user_id [] = none
latest_password user_id (p ∷ ps) =
    let rest = latest_password user_id ps in
    if p.user_id == user_id then some (later_password p rest) else rest

pub data AuthenticationError : Type 0 where
  password_mismatch : AuthenticationError
  fetch : SqlError → AuthenticationError

pub data LoginError : Type 0 where
  not_found : Text → LoginError
  authentication : Text → AuthenticationError → LoginError
  other_lookup : StorageError → LoginError
  other_authentication : AuthenticationError → LoginError

unfoldable pub of_user_lookup : Text → StorageError → LoginError
of_user_lookup username (database row_not_found) = not_found username
of_user_lookup username e = other_lookup e

abbrev pub of_authentication : Text → AuthenticationError → LoginError
of_authentication username password_mismatch = authentication username password_mismatch
of_authentication username (fetch e) = other_authentication (fetch e)

-- The row that is inserted in `user_session_authentications`.
abbrev pub authenticated : Db → Timestamp → BrowserSession → BrowserSession × Db
authenticated db now session = (
  record session {
    last_authentication = some (record { id = db.next_authentication_id; created_at = now });
  },
  record db {
    authentications =
        db.authentications
        ++ record { id = db.next_authentication_id; session_id = session.id; created_at = now }
          ∷ [];
    next_authentication_id = db.next_authentication_id + 1;
  },
)

-- `verify` is Argon2's: whether the first text is a hash, and of the second one.
module _ (verify : Text → Text → Bool) where
  unfoldable pub authenticate_session :
      Db → Timestamp → BrowserSession → Text → Result AuthenticationError (BrowserSession × Db)
  unfolding latest_password
  authenticate_session db now session password = do
    p ← ok_or (latest_password session.user.id db.user_passwords) (fetch row_not_found)
    _ ← ensure (verify p.hashed_password password) password_mismatch
    ok (authenticated db now session)

  unfoldable pub login : Db → Timestamp → Text → Text → Result LoginError (BrowserSession × Db)
  unfolding lookup_user_by_username start_session authenticate_session
  login db now username password = do
    user ← map_err (of_user_lookup username) (lookup_user_by_username db username)
    let started = start_session db now user
    map_err (of_authentication username) (authenticate_session started.1 now started.0 password)

abbrev pub with_user : Db → Text → Db
with_user db username = record db {
  users =
      db.users
      ++ record { id = db.next_user_id; username = username; primary_email_id = none } ∷ [];
  next_user_id = db.next_user_id + 1;
}

abbrev pub new_user : Db → Text → User
new_user db username = record {
  id = db.next_user_id;
  username = username;
  sub = sub_of db.next_user_id;
  primary_email = none;
}

-- `hash` is the password hasher's, on the password and the salt.
module _ (hash : Text → Text → Option Text) where
  unfoldable pub set_password : Db → Timestamp → Text → User → Text → Result StorageError Db
  set_password db now salt user password = do
    hashed_password ← ok_or (hash password salt) hashing
    ok (record db {
      user_passwords =
          db.user_passwords
          ++ record { user_id = user.id; hashed_password = hashed_password; created_at = now } ∷ [];
    })

  unfoldable pub register_user :
      Db → Timestamp → Text → Text → Text → Result StorageError (User × Db)
  unfolding set_password username_exists
  register_user db now salt username password = do
    _ ← ensure (not (username_exists db username)) (database unique_violation)
    db' ← set_password (with_user db username) now salt (new_user db username) password
    ok (new_user db username, db')
