-- ===== src/Compat/Login.antt =====
-- The login with a password, crates/storage/src/compat.rs.
use turnkey_triumph_326606_m.Prelude.{
  ◌+◌, Bool, not, none, [], ◌∷◌, ◌++◌, Result, ok, ok_or, ensure, Text, text_eq, any,
}
use turnkey_triumph_326606_m.Prelude.ResultMonad.{◌>>=◌}
use turnkey_triumph_326606_m.Time.{Timestamp}
use turnkey_triumph_326606_m.Model.User.{User}
use turnkey_triumph_326606_m.Storage.Rows.{
  StorageError, database, unique_violation, row_not_found, invalid_password,
}
use turnkey_triumph_326606_m.Storage.User.{lookup_user_by_username, latest_password}
use turnkey_triumph_326606_m.Compat.Device.{Device}
use turnkey_triumph_326606_m.Compat.Session.{CompatSession}
use turnkey_triumph_326606_m.Compat.Rows.{CompatSessionRow, CompatDb}

abbrev pub has_device : Device → CompatDb → Bool
has_device device db = any (λ (r : CompatSessionRow). text_eq r.device_id device.id) db.sessions

abbrev pub new_session_row : CompatDb → Timestamp → User → Device → CompatSessionRow
new_session_row db now user device = record {
  id = db.next_session_id;
  user_id = user.id;
  device_id = device.id;
  created_at = now;
  deleted_at = none;
}

-- `INSERT INTO compat_sessions`, and the session that is made of what it returns.
unfoldable pub insert_compat_session :
    CompatDb → Timestamp → User → Device → Result StorageError (CompatSession × CompatDb)
insert_compat_session db now user device = do
  _ ← ensure (not (has_device device db)) (database unique_violation)
  ok (
    record {
      id = db.next_session_id;
      user = user;
      device = device;
      created_at = now;
      deleted_at = none;
    },
    record db {
      sessions = db.sessions ++ new_session_row db now user device ∷ [];
      next_session_id = db.next_session_id + 1;
    },
  )

-- `verify` is Argon2's: whether the first text is a hash, and of the second one.
unfoldable pub compat_login :
    (Text → Text → Bool)
    → CompatDb
    → Timestamp
    → Text
    → Text
    → Device
    → Result StorageError (CompatSession × CompatDb)
unfolding lookup_user_by_username latest_password insert_compat_session
compat_login verify db now username password device = do
  user ← lookup_user_by_username db.main username
  p ← ok_or (latest_password user.id db.main.user_passwords) (database row_not_found)
  _ ← ensure (verify p.hashed_password password) invalid_password
  insert_compat_session db now user device
