-- ===== src/Storage/Sessions.antt =====
-- The session that a lookup of an active token returns, crates/storage/src/oauth2/access_token.rs.
use turnkey_triumph_326606_m.Prelude.{ℕ, ◌≡◌, refl, List, Result, ok, ok_or, map_err}
use turnkey_triumph_326606_m.Prelude.ResultMonad.{◌>>=◌}
use turnkey_triumph_326606_m.Scope.{from_str}
use turnkey_triumph_326606_m.Model.Session.{Session}
use turnkey_triumph_326606_m.Storage.Rows.{
  Db, AccessTokenRow, RefreshTokenRow, StorageError, inconsistency, database, row_not_found,
}
use turnkey_triumph_326606_m.Storage.Lookups.{
  SessionColumns, lookup_client, browser_session_of, active_session, user_columns,
}

-- The client, the user and the scope of these columns.
unfoldable pub session_of : Db → SessionColumns → Result StorageError Session
session_of db c = do
  client ← lookup_client db c.oauth2_client_id
  browser_session ← browser_session_of c.user
  scope ← map_err (λ _. inconsistency) (from_str c.scope)
  ok (record {
    id = c.session_id;
    browser_session = browser_session;
    client = client;
    scope = scope;
  })

-- The active session with this id, as every lookup of one of its tokens returns it.
unfoldable pub stored_session : Db → ℕ → Result StorageError Session
stored_session db i = do
  columns ← ok_or (active_session db i) (database row_not_found)
  session_of db columns

-- It is read from none of the token tables.
pub stored_session-tokens :
    (db : Db) (ats : List AccessTokenRow) (rts : List RefreshTokenRow) (n m i : ℕ)
    → stored_session
        (record db {
          access_tokens = ats;
          refresh_tokens = rts;
          next_access_token_id = n;
          next_refresh_token_id = m;
        })
        i
      ≡ stored_session db i
unfolding stored_session session_of active_session user_columns lookup_client
stored_session-tokens db ats rts n m i = refl
