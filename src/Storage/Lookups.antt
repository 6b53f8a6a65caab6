-- ===== src/Storage/Lookups.antt =====
-- What the lookups of an active token and of a grant share: the joined columns of a session's user,
-- and the conversions of the nullable ones, crates/storage/src/oauth2/access_token.rs and
-- refresh_token.rs.
use turnkey_triumph_326606_m.Prelude.{
  ℕ, Bool, true, false, ◌&&◌, Option, none, some, List, [], ◌∷◌, ◌++◌, Result, ok, err, ok_or, Text,
  codes, find, if◌then◌else◌, ◌==◌, ltb,
}
use turnkey_triumph_326606_m.Prelude.OptionMonad.{◌>>=◌}
use turnkey_triumph_326606_m.Prelude.Decimal.{decimal}
use turnkey_triumph_326606_m.Time.{Timestamp}
use turnkey_triumph_326606_m.Model.User.{UserEmail, Authentication, BrowserSession}
use turnkey_triumph_326606_m.Model.Client.{Client}
use turnkey_triumph_326606_m.Storage.Rows.{
  Db, UserRow, UserEmailRow, UserSessionRow, AuthenticationRow, SessionRow, StorageError,
  client_fetch, inconsistency, row_not_found,
}

-- The columns of a session's row joined with its user, its latest authentication and the user's
-- primary email.
pub record UserColumns : Type 0 where
  pub user_session_id : ℕ
  pub user_session_created_at : Timestamp
  pub user_id : ℕ
  pub user_username : Text
  pub last_authentication_id : Option ℕ
  pub last_authentication_created_at : Option Timestamp
  pub user_email_id : Option ℕ
  pub user_email : Option Text
  pub user_email_created_at : Option Timestamp
  pub user_email_confirmed_at : Option Timestamp

abbrev pub column {ℓ κ} : {A : Type ℓ} {B : Type κ} → (A → B) → Option A → Option B
column f none = none
column f (some a) = some (f a)

abbrev pub column? {ℓ κ} : {A : Type ℓ} {B : Type κ} → (A → Option B) → Option A → Option B
column? f none = none
column? f (some a) = f a

-- `LEFT JOIN user_session_authentications … ORDER BY created_at DESC LIMIT 1`
later : AuthenticationRow → Option AuthenticationRow → AuthenticationRow
later a none = a
later a (some b) = if ltb a.created_at b.created_at then b else a

unfoldable pub latest_authentication : ℕ → List AuthenticationRow → Option AuthenticationRow
unfolding later
latest_authentication session_id [] = none
latest_authentication session_id (a ∷ as') =
    let rest = latest_authentication session_id as' in
    if a.session_id == session_id then some (later a rest) else rest

-- `LEFT JOIN user_emails ue ON ue.id = u.primary_email_id`
unfoldable pub primary_email_row : Db → UserRow → Option UserEmailRow
primary_email_row db u =
    column? (λ i. find (λ (e : UserEmailRow). e.id == i) db.user_emails) u.primary_email_id

-- `user_sessions us` with this id, joined with `users u`, whatever the session's state.
unfoldable pub user_columns : Db → ℕ → Option (Bool × UserColumns)
unfolding latest_authentication primary_email_row
user_columns db us_id = do
  us ← find (λ (r : UserSessionRow). r.id == us_id) db.user_sessions
  u ← find (λ (r : UserRow). r.id == us.user_id) db.users
  let usa = latest_authentication us.id db.authentications
  let ue = primary_email_row db u
  some (
    us.active,
    record {
      user_session_id = us.id;
      user_session_created_at = us.created_at;
      user_id = u.id;
      user_username = u.username;
      last_authentication_id = column (λ a. a.id) usa;
      last_authentication_created_at = column (λ a. a.created_at) usa;
      user_email_id = column (λ e. e.id) ue;
      user_email = column (λ e. e.email) ue;
      user_email_created_at = column (λ e. e.created_at) ue;
      user_email_confirmed_at = column? (λ e. e.confirmed_at) ue;
    },
  )

-- The `match` on the email columns.
unfoldable pub email_of :
    Option ℕ
    → Option Text
    → Option Timestamp
    → Option Timestamp
    → Result StorageError (Option UserEmail)
email_of (some id) (some email) (some created_at) confirmed_at =
    ok (
      some
        (record { id = id; email = email; created_at = created_at; confirmed_at = confirmed_at }))
email_of none none none none = ok none
email_of _ _ _ _ = err inconsistency

-- The `match` on the authentication columns.
unfoldable pub authentication_of :
    Option ℕ → Option Timestamp → Result StorageError (Option Authentication)
authentication_of none none = ok none
authentication_of (some id) (some created_at) =
    ok (some (record { id = id; created_at = created_at }))
authentication_of _ _ = err inconsistency

-- `format!("fake-sub-{}", id)`
unfoldable pub sub_of : ℕ → Text
unfolding decimal
sub_of id = codes "fake-sub-" ++ decimal id

-- The user and browser session of the columns.
unfoldable pub browser_session_of : UserColumns → Result StorageError BrowserSession
unfolding email_of authentication_of sub_of
browser_session_of c =
    elim (email_of c.user_email_id c.user_email c.user_email_created_at c.user_email_confirmed_at) [
      | err e ↦ err e
      | ok primary_email ↦
          elim (authentication_of c.last_authentication_id c.last_authentication_created_at) [
            | err e ↦ err e
            | ok last_authentication ↦ ok (record {
              id = c.user_session_id;
              user = record {
                id = c.user_id;
                username = c.user_username;
                sub = sub_of c.user_id;
                primary_email = primary_email;
              };
              created_at = c.user_session_created_at;
              last_authentication = last_authentication;
            })
          ]
    ]

-- `lookup_client` and `lookup_client_by_client_id`, crates/storage/src/oauth2/client.rs.
unfoldable pub lookup_client : Db → ℕ → Result StorageError Client
lookup_client db id =
    ok_or (find (λ (c : Client). c.id == id) db.clients) (client_fetch row_not_found)

-- The columns of `oauth2_sessions os` joined with its user session and user, where
-- `us.active AND os.ended_at IS NULL`.
pub record SessionColumns : Type 0 where
  pub session_id : ℕ
  pub oauth2_client_id : ℕ
  pub scope : Text
  pub user : UserColumns

abbrev pub is_null {ℓ} : {A : Type ℓ} → Option A → Bool
is_null none = true
is_null (some _) = false

unfoldable pub active_session : Db → ℕ → Option SessionColumns
active_session db session_id = do
  os ← find (λ (r : SessionRow). r.id == session_id) db.sessions
  (active, user) ← user_columns db os.user_session_id
  if active && is_null os.ended_at
      then some (record {
        session_id = os.id;
        oauth2_client_id = os.oauth2_client_id;
        scope = os.scope;
        user = user;
      })
      else none
