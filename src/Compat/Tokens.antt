-- ===== src/Compat/Tokens.antt =====
-- The tokens of a session, and its end, crates/storage/src/compat.rs. `now` is the start of the
-- query's transaction, and a duration a number of microseconds.
use turnkey_triumph_326606_m.Prelude.{
  ℕ, ◌+◌, Bool, ◌&&◌, not, Option, none, some, List, [], ◌∷◌, ◌++◌, map, Result, ok, err, ensure,
  Text, text_eq, any, retain, length, ◌==◌, if◌then◌else◌,
}
use turnkey_triumph_326606_m.Prelude.ResultMonad.{◌>>=◌}
use turnkey_triumph_326606_m.Time.{Timestamp}
use turnkey_triumph_326606_m.Storage.Rows.{
  StorageError, database, no_row_affected, unique_violation, exactly_one,
}
use turnkey_triumph_326606_m.Storage.Lookups.{is_null}
use turnkey_triumph_326606_m.Compat.Session.{CompatSession, CompatAccessToken, CompatRefreshToken}
use turnkey_triumph_326606_m.Compat.Rows.{
  CompatSessionRow, CompatAccessTokenRow, CompatRefreshTokenRow, CompatDb,
}
use turnkey_triumph_326606_m.Compat.Lookup.{access_token_of_row, refresh_token_of_row}

abbrev pub has_access_token : Text → CompatDb → Bool
has_access_token token db =
    any (λ (r : CompatAccessTokenRow). text_eq r.token token) db.access_tokens

abbrev pub expiry : Timestamp → Option ℕ → Option Timestamp
expiry now none = none
expiry now (some expires_after) = some (now + expires_after)

abbrev pub new_access_row :
    CompatDb → Timestamp → CompatSession → Text → Option ℕ → CompatAccessTokenRow
new_access_row db now session token expires_after = record {
  id = db.next_access_token_id;
  compat_session_id = session.id;
  token = token;
  created_at = now;
  expires_at = expiry now expires_after;
}

abbrev pub with_access_token : CompatDb → CompatAccessTokenRow → CompatDb
with_access_token db row = record db {
  access_tokens = db.access_tokens ++ row ∷ [];
  next_access_token_id = db.next_access_token_id + 1;
}

unfoldable pub add_compat_access_token :
    CompatDb
    → Timestamp
    → CompatSession
    → Text
    → Option ℕ
    → Result StorageError (CompatAccessToken × CompatDb)
add_compat_access_token db now session token expires_after = do
  _ ← ensure (not (has_access_token token db)) (database unique_violation)
  ok (
    access_token_of_row (new_access_row db now session token expires_after),
    with_access_token db (new_access_row db now session token expires_after),
  )

-- Where the source tests for one row, and has one error for any other number.
abbrev pub one_row : {A : Type 0} → ℕ → A → Result StorageError A
one_row n a = if n == 1 then ok a else err no_row_affected

abbrev pub expire : Timestamp → ℕ → CompatAccessTokenRow → CompatAccessTokenRow
expire now id ct = if ct.id == id then record ct { expires_at = some now } else ct

unfoldable pub expire_compat_access_token :
    CompatDb → Timestamp → CompatAccessToken → Result StorageError CompatDb
expire_compat_access_token db now access_token =
    one_row
      (length (retain (λ (ct : CompatAccessTokenRow). ct.id == access_token.id) db.access_tokens))
      (record db { access_tokens = map (expire now access_token.id) db.access_tokens })

abbrev pub has_refresh_token : Text → CompatDb → Bool
has_refresh_token token db =
    any (λ (r : CompatRefreshTokenRow). text_eq r.token token) db.refresh_tokens

abbrev pub new_refresh_row :
    CompatDb → Timestamp → CompatSession → CompatAccessToken → Text → CompatRefreshTokenRow
new_refresh_row db now session access_token token = record {
  id = db.next_refresh_token_id;
  compat_session_id = session.id;
  compat_access_token_id = some access_token.id;
  token = token;
  next_token_id = none;
  created_at = now;
}

abbrev pub with_refresh_token : CompatDb → CompatRefreshTokenRow → CompatDb
with_refresh_token db row = record db {
  refresh_tokens = db.refresh_tokens ++ row ∷ [];
  next_refresh_token_id = db.next_refresh_token_id + 1;
}

unfoldable pub add_compat_refresh_token :
    CompatDb
    → Timestamp
    → CompatSession
    → CompatAccessToken
    → Text
    → Result StorageError (CompatRefreshToken × CompatDb)
add_compat_refresh_token db now session access_token token = do
  _ ← ensure (not (has_refresh_token token db)) (database unique_violation)
  ok (
    refresh_token_of_row (new_refresh_row db now session access_token token),
    with_refresh_token db (new_refresh_row db now session access_token token),
  )

abbrev pub set_next : ℕ → ℕ → CompatRefreshTokenRow → CompatRefreshTokenRow
set_next old next cr = if cr.id == old then record cr { next_token_id = some next } else cr

unfoldable pub replace_compat_refresh_token :
    CompatDb → CompatRefreshToken → CompatRefreshToken → Result StorageError CompatDb
replace_compat_refresh_token db refresh_token next_refresh_token =
    one_row
      (length
        (retain (λ (cr : CompatRefreshTokenRow). cr.id == refresh_token.id) db.refresh_tokens))
      (record db {
        refresh_tokens = map (set_next refresh_token.id next_refresh_token.id) db.refresh_tokens;
      })

-- The rows of the `UPDATE … FROM`: those whose id is the id of an access token with this text.
abbrev pub is_joined : List CompatAccessTokenRow → Text → CompatSessionRow → Bool
is_joined cts token cs =
    any (λ (ct : CompatAccessTokenRow). text_eq ct.token token && cs.id == ct.id) cts
    && is_null cs.deleted_at

abbrev pub delete_joined :
    List CompatAccessTokenRow → Timestamp → Text → CompatSessionRow → CompatSessionRow
delete_joined cts now token cs =
    if is_joined cts token cs then record cs { deleted_at = some now } else cs

unfoldable pub compat_logout : CompatDb → Timestamp → Text → Result StorageError CompatDb
compat_logout db now token =
    exactly_one (length (retain (is_joined db.access_tokens token) db.sessions))
      (record db { sessions = map (delete_joined db.access_tokens now token) db.sessions })
