-- ===== src/Compat/LoginLive.antt =====
-- A login with a password, crates/handlers/src/compat/login.rs.
use mathlib.Core.List.{Memᴰ}
use turnkey_triumph_326606_m.Prelude.{
  ℕ, ◌+◌, ◌<◌, ◌≡◌, refl, sym, ap, ◌∙◌, Bool, true, Option, none, some, List, [], ◌∷◌, ◌++◌, ok,
  ok_or, ensure, map_err, Text, text_eq, text_eq_refl, find, All, ◌==◌, arith,
}
use turnkey_triumph_326606_m.Prelude.ResultMonad.{>>=-eq-ok, map_err_ok}
use turnkey_triumph_326606_m.Prelude.Finding.{
  All-Mem, find_sound, find-next_append, find-append_none, find-none_of_any,
}
use turnkey_triumph_326606_m.Time.{Timestamp}
use turnkey_triumph_326606_m.Model.User.{User}
use turnkey_triumph_326606_m.Storage.Rows.{
  UserRow, UserPasswordRow, database, row_not_found, invalid_password,
}
use turnkey_triumph_326606_m.Storage.Table.{IsTable}
use turnkey_triumph_326606_m.Storage.User.{has_name, lookup_user_by_username, latest_password}
use turnkey_triumph_326606_m.Storage.User.Primary.{user_of_row_lem, found_user}
use turnkey_triumph_326606_m.TokenEndpoint.Redeemed.{commit_ok}
use turnkey_triumph_326606_m.Compat.Device.{
  Device, is_ascii_alphanumeric, device_try_from, generate_device,
}
use turnkey_triumph_326606_m.Compat.ScopeToken.{device_try_from-generate_device}
use turnkey_triumph_326606_m.Compat.Session.{CompatSession, CompatAccessToken}
use turnkey_triumph_326606_m.Compat.Rows.{CompatDb, CompatSessionRow, CompatAccessTokenRow}
use turnkey_triumph_326606_m.Compat.Tokens.{expiry, new_access_row, add_compat_access_token}
use turnkey_triumph_326606_m.Compat.Lookup.{
  session_of_row, not_expired, is_live, active_compat_session, lookup_active_compat_access_token,
}
use turnkey_triumph_326606_m.Compat.LookupLaws.{access_found}
use turnkey_triumph_326606_m.Compat.Login.{new_session_row, insert_compat_session, compat_login}
use turnkey_triumph_326606_m.Compat.Endpoint.{CompatEnv, CompatMoment}
use turnkey_triumph_326606_m.Compat.Rotation.{add_access_ok}
use turnkey_triumph_326606_m.Compat.LoginPost.{
  password, user, ResponseBody, login_failed, expires_in, user_password_login, authenticate, issue,
  login_steps, post_login,
}
use turnkey_triumph_326606_m.Compat.LoginOnce.{issue_ok, Kept}

-- A user whose id is unique is read back with the id that was found by the name.
pub insert_ok :
    (db : CompatDb) (now : Timestamp) (u : User) (d : Device) (s : CompatSession) (db1 : CompatDb)
    → insert_compat_session db now u d ≡ ok (s, db1)
    → (s ≡ record {
      id = db.next_session_id;
      user = u;
      device = d;
      created_at = now;
      deleted_at = none;
    })
      × (db1 ≡ record db {
        sessions = db.sessions ++ new_session_row db now u d ∷ [];
        next_session_id = db.next_session_id + 1;
      })
unfolding insert_compat_session
insert_ok db now u d s db1 h = (ground arith, ground arith)

compat_login_ok :
    (verify : Text → Text → Bool) (db : CompatDb) (now : Timestamp) (name secret : Text)
    (d : Device) (s : CompatSession) (db1 : CompatDb)
    → compat_login verify db now name secret d ≡ ok (s, db1)
    → (u : User) × (p : UserPasswordRow) × (lookup_user_by_username db.main name ≡ ok u)
      × (latest_password u.id db.main.user_passwords ≡ some p)
      × (verify p.hashed_password secret ≡ true)
      × (insert_compat_session db now u d ≡ ok (s, db1))
unfolding compat_login
compat_login_ok verify db now name secret d s db1 h =
    let (u, e1, h1) = >>=-eq-ok (lookup_user_by_username db.main name) _ h in
    let (p, e2, h2) =
      >>=-eq-ok (ok_or (latest_password u.id db.main.user_passwords) (database row_not_found)) _
        h1 in
    let (x, e3, h3) = >>=-eq-ok (ensure (verify p.hashed_password secret) invalid_password) _ h2 in
    (u, p, e1, ground arith, ground arith, h3)

-- Ids are below the next value of their sequence, and each user is found by the id.
abbrev pub SessionsValid : CompatDb → Type 0
SessionsValid db =
    All (λ (r : CompatSessionRow). r.id < db.next_session_id) db.sessions
    × IsTable (λ (u : UserRow). u.id) (λ u. u.username) db.main.next_user_id db.main.users

find-user :
    (next : ℕ) (us : List UserRow) (u : UserRow)
    → IsTable (λ (r : UserRow). r.id) (λ r. r.username) next us
    → Memᴰ u us
    → find (λ (r : UserRow). r.id == u.id) us ≡ some u
find-user next [] u v m = elim m [ ]
find-user next (r ∷ us) u v (Memᴰ.head e) = rw e (ground arith)
find-user next (r ∷ us) u v (Memᴰ.tail m) =
    let other = (All-Mem _ us v.1 m).0 in ground (arith, find-user next us u v.2 m)

-- A session that is inserted for a user that was found, and a device that is one, is active.
inserted_active :
    (db : CompatDb) (now : Timestamp) (name : Text) (u : User) (d : Device) (s : CompatSession)
    (db1 : CompatDb)
    → SessionsValid db
    → lookup_user_by_username db.main name ≡ ok u
    → device_try_from d.id ≡ ok d
    → insert_compat_session db now u d ≡ ok (s, db1)
    → active_compat_session db1 s.id ≡ ok s
unfolding active_compat_session session_of_row
inserted_active db now name u d s db1 v found is_device done =
    let (es, edb) = insert_ok db now u d s db1 done in
    let (row, named, eu) = found_user db.main name u found in
    let (m, n) = find_sound (has_name name) db.main.users row named in
    let by_id : find (λ (r : UserRow). r.id == u.id) db.main.users ≡ some row =
      ap (λ (q : User). find (λ (r : UserRow). r.id == q.id) db.main.users) eu
      ∙ find-user db.main.next_user_id db.main.users row v.1 m in
    rw (edb, es)
      (rw
        (
          find-next_append (λ (r : CompatSessionRow). r.id) db.next_session_id db.sessions
              (new_session_row db now u d) v.0 refl,
          by_id,
          user_of_row_lem db.main row,
          is_device,
        )
        (rw eu refl))

active-frame :
    (db db' : CompatDb) (i : ℕ)
    → db'.sessions ≡ db.sessions
    → db'.main ≡ db.main
    → active_compat_session db' i ≡ active_compat_session db i
unfolding active_compat_session
active-frame db db' i e1 e2 = rw (e1, e2) refl

-- What the access token's insertion leaves is enough for its lookup.
access_live :
    (db : CompatDb) (now : Timestamp) (s : CompatSession) (text : Text) (after : Option ℕ)
    (a : CompatAccessToken) (db1 db' : CompatDb) (t : Timestamp)
    → add_compat_access_token db now s text after ≡ ok (a, db1)
    → Kept db db'
    → db'.access_tokens ≡ db1.access_tokens
    → active_compat_session db s.id ≡ ok s
    → not_expired t (expiry now after) ≡ true
    → lookup_active_compat_access_token db' t text ≡ ok (a, s)
access_live db now s text after a db1 db' t added kept tokens stored early =
    let (fresh, ea, edb) = add_access_ok db now s text after a db1 added in
    let row : CompatAccessTokenRow = new_access_row db now s text after in
    let table : db'.access_tokens ≡ db.access_tokens ++ row ∷ [] =
      tokens ∙ ap (λ (d : CompatDb). d.access_tokens) edb in
    access_found db' t text row s
      (rw table (
        find-append_none (is_live t text) db.access_tokens (row ∷ []) (
          find-none_of_any (is_live t text) (λ r. text_eq r.token text) db.access_tokens
            (λ r h. ground arith) fresh)
        ∙ ground (arith, text_eq_refl text)))
      (active-frame db db' s.id kept.1 kept.2 ∙ stored)
    ∙ ap (λ q. ok (q, s)) (sym ea)

password_steps :
    (env : CompatEnv) (moment : CompatMoment) (db : CompatDb) (name secret : Text)
    (refreshable : Bool) (r : ResponseBody) (db' : CompatDb)
    → login_steps env moment db
        (record { credentials = password (user name) secret; refresh_token = refreshable })
      ≡ ok (r, db')
    → (s : CompatSession) × (db1 : CompatDb) × (compat_login env.verify db moment.db_now name secret
          (generate_device moment.rng).0
        ≡ ok (s, db1))
      × (issue env moment db1 refreshable s (generate_device moment.rng).1 ≡ ok (r, db'))
unfolding login_steps authenticate user_password_login
password_steps env moment db name secret refreshable r db' h =
    let ((s, db1, rng), e1, h1) =
      >>=-eq-ok (authenticate env moment db (password (user name) secret)) _ h in
    let ((s', db2), e2, h2) =
      >>=-eq-ok
        (map_err (λ _. login_failed)
          (compat_login env.verify db moment.db_now name secret (generate_device moment.rng).0))
        _ e1 in
    let same : (s' ≡ s) × (db2 ≡ db1) × ((generate_device moment.rng).1 ≡ rng) = ground arith in
    (s', db2, map_err_ok (λ _. login_failed) _ e2, rw (same.0, same.1, same.2) h1)

-- Where ids are below their sequences and users share no id and no name, a login with a password that
-- succeeds, and whose random bytes are ASCII letters and digits, has verified the password against the
-- latest one of the user with this name, and answers with an access token that is accepted, until it
-- expires if it does, for a session of this user.
pub post_login-live :
    (env : CompatEnv) (moment : CompatMoment) (db : CompatDb) (name secret : Text)
    (refreshable : Bool) (r : ResponseBody) (db' : CompatDb) (t : Timestamp)
    → SessionsValid db
    → ((i : ℕ) → is_ascii_alphanumeric (moment.rng i) ≡ true)
    → post_login env moment db
        (record { credentials = password (user name) secret; refresh_token = refreshable })
      ≡ (ok r, db')
    → not_expired t (expiry moment.db_now (expires_in refreshable)) ≡ true
    → (u : User) × (p : UserPasswordRow) × (a : CompatAccessToken) × (s : CompatSession)
      × (lookup_user_by_username db.main name ≡ ok u)
      × (latest_password u.id db.main.user_passwords ≡ some p)
      × (env.verify p.hashed_password secret ≡ true)
      × (s.user ≡ u)
      × (lookup_active_compat_access_token db' t r.access_token ≡ ok (a, s))
unfolding post_login
post_login-live env moment db name secret refreshable r db' t v letters h early =
    let (s, db1, logged, issued) =
      password_steps env moment db name secret refreshable r db' (commit_ok db _ r db' h) in
    let (u, p, found, stored, verified, inserted) =
      compat_login_ok env.verify db moment.db_now name secret (generate_device moment.rng).0 s db1
        logged in
    let (access, db2, added, kept, tokens) =
      issue_ok env moment db1 refreshable s (generate_device moment.rng).1 r db' issued in
    let (es, edb) = insert_ok db moment.db_now u (generate_device moment.rng).0 s db1 inserted in
    (
      u,
      p,
      access,
      s,
      found,
      stored,
      verified,
      ap (λ (q : CompatSession). q.user) es,
      access_live db1 moment.db_now s r.access_token (expires_in refreshable) access db2 db' t added
          kept tokens
          (inserted_active db moment.db_now name u (generate_device moment.rng).0 s db1 v found
            (device_try_from-generate_device moment.rng letters) inserted)
          early,
    )
