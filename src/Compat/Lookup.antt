-- ===== src/Compat/Lookup.antt =====
-- The lookups of active tokens, crates/storage/src/compat.rs.
use turnkey_triumph_326606_m.Prelude.{
  ℕ, Bool, true, ◌&&◌, Option, none, some, Result, ok, ok_or, map_err, ensure, Text, text_eq, find,
  ◌==◌, ltb,
}
use turnkey_triumph_326606_m.Prelude.ResultMonad.{◌>>=◌}
use turnkey_triumph_326606_m.Time.{Timestamp}
use turnkey_triumph_326606_m.Storage.Rows.{
  Db, UserRow, StorageError, database, panicked, row_not_found,
}
use turnkey_triumph_326606_m.Storage.Lookups.{is_null}
use turnkey_triumph_326606_m.Storage.User.{user_of_row}
use turnkey_triumph_326606_m.Compat.Device.{device_try_from}
use turnkey_triumph_326606_m.Compat.Session.{CompatSession, CompatAccessToken, CompatRefreshToken}
use turnkey_triumph_326606_m.Compat.Rows.{
  CompatSessionRow, CompatAccessTokenRow, CompatRefreshTokenRow, CompatDb,
}

-- A session's row with its user's. The `unwrap` of the stored device panics if it is not one.
unfoldable pub session_of_row : Db → CompatSessionRow → UserRow → Result StorageError CompatSession
unfolding user_of_row device_try_from
session_of_row main cs u = do
  user ← user_of_row main u
  device ← map_err (λ _. panicked) (device_try_from cs.device_id)
  ok (record {
    id = cs.id;
    user = user;
    device = device;
    created_at = cs.created_at;
    deleted_at = cs.deleted_at;
  })

-- `INNER JOIN compat_sessions cs` and `INNER JOIN users u`, where `cs.deleted_at IS NULL`.
unfoldable pub active_compat_session : CompatDb → ℕ → Result StorageError CompatSession
unfolding session_of_row
active_compat_session db i = do
  cs ← ok_or (find (λ (r : CompatSessionRow). r.id == i) db.sessions) (database row_not_found)
  u ← ok_or (find (λ (r : UserRow). r.id == cs.user_id) db.main.users) (database row_not_found)
  _ ← ensure (is_null cs.deleted_at) (database row_not_found)
  session_of_row db.main cs u

-- `ct.expires_at IS NULL OR ct.expires_at > NOW()`
abbrev pub not_expired : Timestamp → Option Timestamp → Bool
not_expired now none = true
not_expired now (some expires_at) = ltb now expires_at

abbrev pub is_live : Timestamp → Text → CompatAccessTokenRow → Bool
is_live now token ct = text_eq ct.token token && not_expired now ct.expires_at

abbrev pub access_token_of_row : CompatAccessTokenRow → CompatAccessToken
access_token_of_row ct = record {
  id = ct.id;
  token = ct.token;
  created_at = ct.created_at;
  expires_at = ct.expires_at;
}

unfoldable pub lookup_active_compat_access_token :
    CompatDb → Timestamp → Text → Result StorageError (CompatAccessToken × CompatSession)
unfolding active_compat_session
lookup_active_compat_access_token db now token = do
  ct ← ok_or (find (is_live now token) db.access_tokens) (database row_not_found)
  session ← active_compat_session db ct.compat_session_id
  ok (access_token_of_row ct, session)

abbrev pub is_unused : Text → CompatRefreshTokenRow → Bool
is_unused token cr = text_eq cr.token token && is_null cr.next_token_id

-- `INNER JOIN compat_access_tokens ct ON ct.id = cr.compat_access_token_id`
unfoldable pub joined_access_token : CompatDb → Option ℕ → Option CompatAccessTokenRow
joined_access_token db none = none
joined_access_token db (some i) = find (λ (r : CompatAccessTokenRow). r.id == i) db.access_tokens

abbrev pub refresh_token_of_row : CompatRefreshTokenRow → CompatRefreshToken
refresh_token_of_row cr = record { id = cr.id; token = cr.token; created_at = cr.created_at }

unfoldable pub lookup_active_compat_refresh_token :
    CompatDb → Text → Result StorageError (CompatRefreshToken × CompatAccessToken × CompatSession)
unfolding active_compat_session joined_access_token
lookup_active_compat_refresh_token db token = do
  cr ← ok_or (find (is_unused token) db.refresh_tokens) (database row_not_found)
  ct ← ok_or (joined_access_token db cr.compat_access_token_id) (database row_not_found)
  session ← active_compat_session db cr.compat_session_id
  ok (refresh_token_of_row cr, access_token_of_row ct, session)
