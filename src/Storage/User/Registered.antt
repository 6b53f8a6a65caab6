-- ===== src/Storage/User/Registered.antt =====
-- A user that has been registered can log in, and only with a password that verifies,
-- crates/storage/src/user.rs.
use turnkey_triumph_326606_m.Prelude.{
  ℕ, ◌<◌, ◌≡◌, refl, ◌∙◌, Bool, true, false, Option, none, some, List, [], ◌∷◌, ◌++◌, ok, err, Text,
  text_eq_refl, find, inl, inr, Option-cases, arith, All,
}
use turnkey_triumph_326606_m.Prelude.Finding.{
  find-append_none, find-none_of_any, find-next_append, All-mono,
}
use turnkey_triumph_326606_m.Time.{Timestamp}
use turnkey_triumph_326606_m.Model.User.{User, BrowserSession}
use turnkey_triumph_326606_m.Storage.Rows.{
  Db, UserRow, UserPasswordRow, UserSessionRow, AuthenticationRow,
}
use turnkey_triumph_326606_m.Storage.Lookups.{
  browser_session_of, email_of, authentication_of, user_columns, latest_authentication,
  primary_email_row,
}
use turnkey_triumph_326606_m.Storage.User.{
  has_name, lookup_user_by_username, later_password, latest_password, set_password, register_user,
  with_user, new_user, login, authenticate_session, start_session, authenticated, password_mismatch,
  authentication, username_exists, lookup_active_session,
}
use turnkey_triumph_326606_m.Storage.User.Primary.{lookup_user_of_row}

-- The newest password is the latest one.
pub latest_password-append :
    (user_id : ℕ) (ps : List UserPasswordRow) (p : UserPasswordRow)
    → p.user_id ≡ user_id
    → All (λ (q : UserPasswordRow). q.user_id ≡ user_id → q.created_at < p.created_at) ps
    → latest_password user_id (ps ++ p ∷ []) ≡ some p
unfolding latest_password later_password
latest_password-append user_id [] p own older = rw own (ground arith)
latest_password-append user_id (q ∷ ps) p own older =
    ground (arith, latest_password-append user_id ps p own older.1, older.0)

-- Ids are below the next value of their sequence, and references are to rows that are there.
abbrev pub UsersValid : Db → Type 0
UsersValid db =
    All (λ (u : UserRow). u.id < db.next_user_id) db.users
    × All (λ (p : UserPasswordRow). p.user_id < db.next_user_id) db.user_passwords
    × All (λ (s : UserSessionRow). s.id < db.next_user_session_id) db.user_sessions
    × All (λ (a : AuthenticationRow). a.session_id < db.next_user_session_id) db.authentications

latest_authentication-append :
    (i : ℕ) (as' : List AuthenticationRow) (a : AuthenticationRow)
    → a.session_id ≡ i
    → All (λ (b : AuthenticationRow). b.session_id < i) as'
    → latest_authentication i (as' ++ a ∷ []) ≡ some a
unfolding latest_authentication
latest_authentication-append i [] a own older = rw own (ground arith)
latest_authentication-append i (b ∷ as') a own older =
    ground (arith, latest_authentication-append i as' a own older.1, older.0)

module _ (verify : Text → Text → Bool) where
  login_of_user :
      (db : Db) (now : Timestamp) (username password : Text) (user : User) (p : UserPasswordRow)
      → lookup_user_by_username db username ≡ ok user
      → latest_password user.id db.user_passwords ≡ some p
      → ((verify p.hashed_password password ≡ true)
          → login verify db now username password
            ≡ ok (authenticated (start_session db now user).1 now (start_session db now user).0))
        × ((verify p.hashed_password password ≡ false)
            → login verify db now username password
              ≡ err (authentication username password_mismatch))
  unfolding login authenticate_session start_session
  login_of_user db now username password user p found stored =
      (λ v. rw (found, stored, v) refl, λ v. rw (found, stored, v) refl)

-- The database in which a user has been registered.
abbrev pub registered : Db → Timestamp → Text → Text → Db
registered db now username hashed_password = record (with_user db username) {
  user_passwords =
      db.user_passwords
      ++ record { user_id = db.next_user_id; hashed_password = hashed_password; created_at = now }
        ∷ [];
}

pub register_user_ok :
    (hash : Text → Text → Option Text) (db : Db) (now : Timestamp) (salt username password : Text)
    (user : User) (db1 : Db)
    → register_user hash db now salt username password ≡ ok (user, db1)
    → (h : Text) × (hash password salt ≡ some h)
      × (username_exists db username ≡ false)
      × (user ≡ new_user db username)
      × (db1 ≡ registered db now username h)
unfolding register_user set_password
register_user_ok hash db now salt username password user db1 h =
    elim (Option-cases (hash password salt)) [
      | inl e ↦ absurd (ground arith)
      | inr (p, e) ↦ (p, e, ground arith, ground arith, ground arith)
    ]

module _ (db : Db) (now : Timestamp) (username h : Text) (valid : UsersValid db)
    (free : username_exists db username ≡ false) where
  abbrev user_row : UserRow
  user_row = record { id = db.next_user_id; username = username; primary_email_id = none }

  named : find (has_name username) (registered db now username h).users ≡ some user_row
  unfolding username_exists
  named =
      find-append_none (has_name username) db.users (user_row ∷ [])
        (find-none_of_any (has_name username) (has_name username) db.users (λ x e. e) free)
      ∙ ground (arith, text_eq_refl username)

  looked_up :
      lookup_user_by_username (registered db now username h) username ≡ ok (new_user db username)
  unfolding primary_email_row
  looked_up = lookup_user_of_row (registered db now username h) username user_row named

  -- The session that the new user's login has started and authenticated.
  abbrev after_login : Timestamp → BrowserSession × Db
  after_login t =
      let started = start_session (registered db now username h) t (new_user db username) in
      authenticated started.1 t started.0

  abbrev session_row : Timestamp → UserSessionRow
  session_row t = record {
    id = db.next_user_session_id;
    user_id = db.next_user_id;
    created_at = t;
    active = true;
  }

  abbrev authentication_row : Timestamp → AuthenticationRow
  authentication_row t = record {
    id = db.next_authentication_id;
    session_id = db.next_user_session_id;
    created_at = t;
  }

  session_read :
      (t : Timestamp)
      → lookup_active_session (after_login t).1 (after_login t).0.id ≡ ok (after_login t).0
  unfolding lookup_active_session user_columns browser_session_of primary_email_row email_of
      authentication_of start_session
  session_read t =
      rw
        (
          find-next_append (λ (s : UserSessionRow). s.id) db.next_user_session_id db.user_sessions
              (session_row t) valid.2 refl,
          find-next_append (λ (u : UserRow). u.id) db.next_user_id db.users user_row valid.0 refl,
          latest_authentication-append db.next_user_session_id db.authentications
              (authentication_row t) refl valid.3,
        )
        refl

  password_row :
      latest_password db.next_user_id (registered db now username h).user_passwords
      ≡ some (record { user_id = db.next_user_id; hashed_password = h; created_at = now })
  password_row =
      latest_password-append db.next_user_id db.user_passwords _ refl
        (All-mono _ _ db.user_passwords (λ q lt e. absurd (omega arith)) valid.1)

-- A user that has been registered, where the ids of the tables are below their sequences, logs in with
-- the password, if the verifier accepts what the hasher made of it: the session is one of this user,
-- and the one that is then looked up as active. A password that the verifier refuses is an error.
pub login-register_user :
    (hash : Text → Text → Option Text) (verify : Text → Text → Bool) (db : Db) (now : Timestamp)
    (salt username password : Text) (user : User) (db1 : Db) (t : Timestamp) (guess : Text)
    → ((p s h : Text) → hash p s ≡ some h → verify h p ≡ true)
    → ((h : Text) → hash password salt ≡ some h → verify h guess ≡ false)
    → UsersValid db
    → register_user hash db now salt username password ≡ ok (user, db1)
    → (s : BrowserSession) × (db2 : Db) × (login verify db1 t username password ≡ ok (s, db2))
      × (s.user ≡ user)
      × (lookup_active_session db2 s.id ≡ ok s)
      × (login verify db1 t username guess ≡ err (authentication username password_mismatch))
unfolding start_session
login-register_user hash verify db now salt username password user db1 t guess sound wrong valid
      done =
    let (h, hashed, free, same, edb) =
      register_user_ok hash db now salt username password user db1 done in
    let by = λ (secret : Text).
      login_of_user verify (registered db now username h) t username secret (new_user db username) _
        (looked_up db now username h valid free) (password_row db now username h valid free) in
    rw (edb, same)
      (
        (after_login db now username h valid free t).0,
        (after_login db now username h valid free t).1,
        (by password).0 (sound password salt h hashed),
        refl,
        session_read db now username h valid free t,
        (by guess).1 (wrong h hashed),
      )
