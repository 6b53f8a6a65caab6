-- ===== src/Storage/AccessToken.antt =====
-- The table of access tokens, crates/storage/src/oauth2/access_token.rs. A query answers with an
-- error or with its result and the new database; `now` is the start of its transaction.
pub mod Laws
pub mod Delete
pub mod Cleaned
use Prim.Native.Nat.{min}
use turnkey_triumph_326606_m.Prelude.{
  ℕ, zero, suc, ◌+◌, ◌-◌, ◌/◌, Bool, true, false, ◌&&◌, ◌||◌, not, Option, none, some, List, [],
  ◌∷◌, ◌++◌, Result, ok, err, ok_or, Text, text_eq, find, any, retain, length, map, if◌then◌else◌,
  ◌==◌, ltb, leb,
}
use turnkey_triumph_326606_m.Prelude.ResultMonad.{◌>>=◌}
use turnkey_triumph_326606_m.Prelude.Decimal.{decimal}
use turnkey_triumph_326606_m.Time.{Timestamp, seconds, minutes}
use turnkey_triumph_326606_m.Model.Session.{Session, AccessToken}
use turnkey_triumph_326606_m.Storage.Rows.{
  Db, AccessTokenRow, RefreshTokenRow, StorageError, database, no_row_affected, unique_violation,
  row_not_found,
}
use turnkey_triumph_326606_m.Storage.Lookups.{SessionColumns, active_session}
use turnkey_triumph_326606_m.Storage.Sessions.{session_of}

abbrev pub i32_max : ℕ
i32_max = 2147483647

abbrev pub has_access_token : Text → Db → Bool
has_access_token token db = any (λ (r : AccessTokenRow). text_eq r.token token) db.access_tokens

-- The row that is inserted: the duration is stored in whole seconds, at most `i32::MAX`.
abbrev pub new_row : Db → Timestamp → Session → Text → ℕ → AccessTokenRow
new_row db now session token expires_after = record {
  id = db.next_access_token_id;
  oauth2_session_id = session.id;
  token = token;
  expires_after = min (expires_after / 1000000) i32_max;
  created_at = now;
}

abbrev pub with_access_token : Db → AccessTokenRow → Db
with_access_token db row = record db {
  access_tokens = db.access_tokens ++ row ∷ [];
  next_access_token_id = db.next_access_token_id + 1;
}

-- The answer keeps the duration as it was given.
unfoldable pub add_access_token :
    Db → Timestamp → Session → Text → ℕ → Result StorageError (AccessToken × Db)
add_access_token db now session token expires_after =
    if has_access_token token db
    then err (database unique_violation)
    else ok (
      record {
        id = db.next_access_token_id;
        jti = decimal db.next_access_token_id;
        token = token;
        expires_after = expires_after;
        created_at = now;
      },
      with_access_token db (new_row db now session token expires_after),
    )

-- The conditions of the query on the token's own row.
abbrev pub is_live : Timestamp → Text → AccessTokenRow → Bool
is_live now token at = text_eq at.token token && leb now (at.created_at + seconds at.expires_after)

unfoldable pub select_active_access_token :
    Db → Timestamp → Text → Option (AccessTokenRow × SessionColumns)
select_active_access_token db now token = elim (find (is_live now token) db.access_tokens) [
  | none ↦ none
  | some at ↦ elim (active_session db at.oauth2_session_id) [
    | none ↦ none
    | some os ↦ some (at, os)
  ]
]

abbrev pub token_of_row : AccessTokenRow → AccessToken
token_of_row at = record {
  id = at.id;
  jti = decimal at.id;
  token = at.token;
  expires_after = seconds at.expires_after;
  created_at = at.created_at;
}

unfoldable pub lookup_active_access_token :
    Db → Timestamp → Text → Result StorageError (AccessToken × Session)
lookup_active_access_token db now token = do
  (at, columns) ← ok_or (select_active_access_token db now token) (database row_not_found)
  session ← session_of db columns
  ok (token_of_row at, session)

-- `ON DELETE SET NULL` of the refresh tokens' `oauth2_access_token_id`.
abbrev pub unlink_id : (ℕ → Bool) → Option ℕ → Option ℕ
unlink_id gone none = none
unlink_id gone (some i) = if gone i then none else some i

abbrev pub unlink : (ℕ → Bool) → RefreshTokenRow → RefreshTokenRow
unlink gone rt = record rt { oauth2_access_token_id = unlink_id gone rt.oauth2_access_token_id }

-- The rows that a condition picks are deleted.
unfoldable pub delete_access_tokens : (AccessTokenRow → Bool) → Db → Db
delete_access_tokens picked db =
    let gone = λ (i : ℕ). any (λ (at : AccessTokenRow). at.id == i && picked at) db.access_tokens in
    record db {
      access_tokens = retain (λ at. not (picked at)) db.access_tokens;
      refresh_tokens = map (unlink gone) db.refresh_tokens;
    }

unfoldable pub revoke_access_token : Db → AccessToken → Result StorageError Db
revoke_access_token db access_token =
    let picked = λ (at : AccessTokenRow). at.id == access_token.id in
    if length (retain picked db.access_tokens) == 1
    then ok (delete_access_tokens picked db)
    else err no_row_affected

abbrev pub is_long_expired : Timestamp → AccessTokenRow → Bool
is_long_expired now at = ltb (at.created_at + seconds at.expires_after + minutes 15) now

unfoldable pub cleanup_expired : Db → Timestamp → ℕ × Db
cleanup_expired db now = (
  length (retain (is_long_expired now) db.access_tokens),
  delete_access_tokens (is_long_expired now) db,
)
