-- ===== src/Storage/RefreshToken.antt =====
-- The table of refresh tokens, crates/storage/src/oauth2/refresh_token.rs. A row whose
-- `next_token_id` is set has been used.
pub mod Laws
pub mod Rotation
use turnkey_triumph_326606_m.Prelude.{
  ℕ, ◌+◌, Bool, true, false, ◌&&◌, Option, none, some, List, [], ◌∷◌, ◌++◌, Result, ok, err, ok_or,
  Text, text_eq, find, any, retain, length, map, if◌then◌else◌, ◌==◌,
}
use turnkey_triumph_326606_m.Prelude.ResultMonad.{◌>>=◌}
use turnkey_triumph_326606_m.Prelude.Decimal.{decimal}
use turnkey_triumph_326606_m.Time.{Timestamp, seconds}
use turnkey_triumph_326606_m.Model.Session.{Session, AccessToken, RefreshToken}
use turnkey_triumph_326606_m.Storage.Rows.{
  Db, AccessTokenRow, RefreshTokenRow, StorageError, database, inconsistency, no_row_affected,
  unique_violation, row_not_found,
}
use turnkey_triumph_326606_m.Storage.Lookups.{SessionColumns, active_session, is_null, column}
use turnkey_triumph_326606_m.Storage.Sessions.{session_of}

abbrev pub has_refresh_token : Text → Db → Bool
has_refresh_token token db = any (λ (r : RefreshTokenRow). text_eq r.token token) db.refresh_tokens

abbrev pub new_row : Db → Timestamp → Session → AccessToken → Text → RefreshTokenRow
new_row db now session access_token token = record {
  id = db.next_refresh_token_id;
  oauth2_session_id = session.id;
  oauth2_access_token_id = some access_token.id;
  token = token;
  next_token_id = none;
  created_at = now;
}

abbrev pub with_refresh_token : Db → RefreshTokenRow → Db
with_refresh_token db row = record db {
  refresh_tokens = db.refresh_tokens ++ row ∷ [];
  next_refresh_token_id = db.next_refresh_token_id + 1;
}

unfoldable pub add_refresh_token :
    Db → Timestamp → Session → AccessToken → Text → Result StorageError (RefreshToken × Db)
add_refresh_token db now session access_token token =
    if has_refresh_token token db
    then err (database unique_violation)
    else ok (
      record {
        id = db.next_refresh_token_id;
        token = token;
        access_token = some access_token;
        created_at = now;
      },
      with_refresh_token db (new_row db now session access_token token),
    )

-- The conditions of the query on the token's own row.
abbrev pub is_unused : Text → RefreshTokenRow → Bool
is_unused token rt = text_eq rt.token token && is_null rt.next_token_id

-- `LEFT JOIN oauth2_access_tokens at ON at.id = rt.oauth2_access_token_id`
unfoldable pub joined_access_token : Db → RefreshTokenRow → Option AccessTokenRow
joined_access_token db rt = elim rt.oauth2_access_token_id [
  | none ↦ none
  | some i ↦ find (λ (at : AccessTokenRow). at.id == i) db.access_tokens
]

-- The `match` on the nullable columns of the access token.
unfoldable pub access_token_of :
    Option ℕ → Option Text → Option Timestamp → Option ℕ → Result StorageError (Option AccessToken)
access_token_of none none none none = ok none
access_token_of (some id) (some token) (some created_at) (some expires_after) = ok (
    some (record {
      id = id;
      jti = decimal id;
      token = token;
      expires_after = seconds expires_after;
      created_at = created_at;
    }))
access_token_of _ _ _ _ = err inconsistency

unfoldable pub select_active_refresh_token :
    Db → Text → Option (RefreshTokenRow × Option AccessTokenRow × SessionColumns)
select_active_refresh_token db token = elim (find (is_unused token) db.refresh_tokens) [
  | none ↦ none
  | some rt ↦ elim (active_session db rt.oauth2_session_id) [
    | none ↦ none
    | some os ↦ some (rt, joined_access_token db rt, os)
  ]
]

unfoldable pub lookup_active_refresh_token :
    Db → Text → Result StorageError (RefreshToken × Session)
lookup_active_refresh_token db token = do
  (rt, at, columns) ← ok_or (select_active_refresh_token db token) (database row_not_found)
  access_token ←
      access_token_of (column (λ a. a.id) at) (column (λ a. a.token) at)
        (column (λ a. a.created_at) at) (column (λ a. a.expires_after) at)
  session ← session_of db columns
  ok (
    record {
      id = rt.id;
      token = rt.token;
      created_at = rt.created_at;
      access_token = access_token;
    },
    session,
  )

abbrev pub set_next : RefreshToken → RefreshToken → RefreshTokenRow → RefreshTokenRow
set_next old next rt = if rt.id == old.id then record rt { next_token_id = some next.id } else rt

abbrev pub is_row_of : RefreshToken → RefreshTokenRow → Bool
is_row_of t rt = rt.id == t.id

unfoldable pub replace_refresh_token : Db → RefreshToken → RefreshToken → Result StorageError Db
replace_refresh_token db refresh_token next_refresh_token =
    if length (retain (is_row_of refresh_token) db.refresh_tokens) == 1
    then ok (record db {
      refresh_tokens = map (set_next refresh_token next_refresh_token) db.refresh_tokens;
    })
    else err no_row_affected
