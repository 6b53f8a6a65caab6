-- ===== src/Storage/RefreshToken/Laws.antt =====
-- What a lookup of a refresh token answers, crates/storage/src/oauth2/refresh_token.rs.
use mathlib.Core.List.{Memᴰ}
use turnkey_triumph_326606_m.Prelude.{
  ◌≡◌, ◌≢◌, refl, sym, ◌∙◌, false, Option, none, some, [], ◌∷◌, ◌++◌, Result, ok, err, Text,
  text_eq, text_eq_iff, text_eq_refl, find, inl, inr, Option-cases, arith,
}
use turnkey_triumph_326606_m.Prelude.ResultMonad.{◌>>=◌}
use turnkey_triumph_326606_m.Prelude.Finding.{find-append_none, find-none_of_any, find_sound}
use turnkey_triumph_326606_m.Time.{Timestamp}
use turnkey_triumph_326606_m.Model.Session.{Session, AccessToken, RefreshToken}
use turnkey_triumph_326606_m.Storage.Rows.{
  Db, AccessTokenRow, RefreshTokenRow, StorageError, database, row_not_found,
}
use turnkey_triumph_326606_m.Storage.Lookups.{column}
use turnkey_triumph_326606_m.Storage.Sessions.{stored_session}
use turnkey_triumph_326606_m.Storage.Table.{IsTable}
use turnkey_triumph_326606_m.Storage.AccessToken.{token_of_row}
use turnkey_triumph_326606_m.Storage.RefreshToken.{
  has_refresh_token, new_row, with_refresh_token, is_unused, add_refresh_token, joined_access_token,
  access_token_of, select_active_refresh_token, lookup_active_refresh_token,
}

abbrev pub RefreshTokensValid : Db → Type 0
RefreshTokensValid db =
    IsTable (λ (r : RefreshTokenRow). r.id) (λ r. r.token) db.next_refresh_token_id
      db.refresh_tokens

-- The refresh token of a row and of the access token's row that it is joined with.
abbrev pub refresh_token_of : RefreshTokenRow → Option AccessTokenRow → RefreshToken
refresh_token_of rt at = record {
  id = rt.id;
  token = rt.token;
  created_at = rt.created_at;
  access_token = column token_of_row at;
}

module _ (db : Db) where
  -- A lookup is a search of the table, a join, and a read of the session of the row that it finds.
  unfoldable pub answer : Option RefreshTokenRow → Result StorageError (RefreshToken × Session)
  answer none = err (database row_not_found)
  answer (some rt) = do
    session ← stored_session db rt.oauth2_session_id
    ok (refresh_token_of rt (joined_access_token db rt), session)

  access_token_of-columns :
      (at : Option AccessTokenRow)
      → access_token_of
          (column (λ a. a.id) at)
          (column (λ a. a.token) at)
          (column (λ a. a.created_at) at)
          (column (λ a. a.expires_after) at)
        ≡ ok (column token_of_row at)
  unfolding access_token_of
  access_token_of-columns none = refl
  access_token_of-columns (some at) = refl

  pub lookup_active_refresh_token_lem :
      (token : Text)
      → lookup_active_refresh_token db token ≡ answer (find (is_unused token) db.refresh_tokens)
  unfolding lookup_active_refresh_token select_active_refresh_token answer stored_session
  lookup_active_refresh_token_lem token =
      elim (Option-cases (find (is_unused token) db.refresh_tokens)) [
        | inl e ↦ ground arith
        | inr (rt, e) ↦ ground (arith, access_token_of-columns (joined_access_token db rt))
      ]

pub answer_ok :
    (db : Db) (rt : RefreshTokenRow) (r : RefreshToken) (s : Session)
    → answer db (some rt) ≡ ok (r, s)
    → (r ≡ refresh_token_of rt (joined_access_token db rt))
      × (stored_session db rt.oauth2_session_id ≡ ok s)
unfolding answer
answer_ok db rt r s h = ground arith

answer-none : (db : Db) (r : RefreshToken) (s : Session) → answer db none ≢ ok (r, s)
unfolding answer
answer-none db r s = cc

-- A refresh token is found only if its row has not been used and the session is active; the answer
-- holds the access token that it was issued with, while the table has it.
pub found_row :
    (db : Db) (token : Text) (r : RefreshToken) (s : Session)
    → lookup_active_refresh_token db token ≡ ok (r, s)
    → (rt : RefreshTokenRow) × Memᴰ rt db.refresh_tokens
      × (rt.token ≡ token)
      × (rt.next_token_id ≡ none)
      × (r ≡ refresh_token_of rt (joined_access_token db rt))
      × (stored_session db rt.oauth2_session_id ≡ ok s)
found_row db token r s h =
    go (find (is_unused token) db.refresh_tokens) refl
      (sym (lookup_active_refresh_token_lem db token) ∙ h)
  where
    go :
        (o : Option RefreshTokenRow)
        → find (is_unused token) db.refresh_tokens ≡ o
        → answer db o ≡ ok (r, s)
        → (rt : RefreshTokenRow) × Memᴰ rt db.refresh_tokens
          × (rt.token ≡ token)
          × (rt.next_token_id ≡ none)
          × (r ≡ refresh_token_of rt (joined_access_token db rt))
          × (stored_session db rt.oauth2_session_id ≡ ok s)
    go none e k = absurd (answer-none db r s k)
    go (some rt) e k =
        let (m, unused) = find_sound (is_unused token) db.refresh_tokens rt e in
        let (same, stored) = answer_ok db rt r s k in
        (rt, m, ground (arith, text_eq_iff rt.token token), ground arith, same, stored)

pub add_refresh_token_ok :
    (db : Db) (now : Timestamp) (s : Session) (a : AccessToken) (token : Text) (r : RefreshToken)
    (db' : Db)
    → add_refresh_token db now s a token ≡ ok (r, db')
    → (has_refresh_token token db ≡ false)
      × (r ≡ record {
        id = db.next_refresh_token_id;
        token = token;
        access_token = some a;
        created_at = now;
      })
      × (db' ≡ with_refresh_token db (new_row db now s a token))
unfolding add_refresh_token
add_refresh_token_ok db now s a token r db' h = ground arith

-- The new row is the one that is found for its token.
pub find-new_row :
    (db : Db) (now : Timestamp) (s : Session) (a : AccessToken) (token : Text)
    → has_refresh_token token db ≡ false
    → find (is_unused token) (db.refresh_tokens ++ new_row db now s a token ∷ [])
      ≡ some (new_row db now s a token)
find-new_row db now s a token fresh =
    find-append_none (is_unused token) db.refresh_tokens (new_row db now s a token ∷ []) (
      find-none_of_any (is_unused token) (λ r. text_eq r.token token) db.refresh_tokens
        (λ r h. ground arith) fresh)
    ∙ ground (arith, text_eq_refl token)
