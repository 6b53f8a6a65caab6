-- ===== src/Storage/AccessToken/Laws.antt =====
-- What the lookup of an active access token promises after each change of the table.
use Prim.Native.Nat.{min}
use mathlib.Core.List.{Memᴰ}
use turnkey_triumph_326606_m.Prelude.{
  ℕ, ◌+◌, ◌/◌, ◌≤◌, ◌≡◌, ◌≢◌, refl, sym, ap, ◌∙◌, false, Option, none, some, List, [], ◌∷◌, ◌++◌,
  Result, ok, err, Text, text_eq, text_eq_iff, text_eq_refl, find, arith,
}
use turnkey_triumph_326606_m.Prelude.Finding.{
  find-append_none, find-append_miss, find-none_of_any, find_sound,
}
use turnkey_triumph_326606_m.Prelude.ResultMonad.{◌>>=◌}
use turnkey_triumph_326606_m.Time.{Timestamp, seconds}
use turnkey_triumph_326606_m.Model.Session.{Session, AccessToken}
use turnkey_triumph_326606_m.Storage.Rows.{
  Db, AccessTokenRow, RefreshTokenRow, StorageError, database, row_not_found,
}
use turnkey_triumph_326606_m.Storage.Sessions.{stored_session, stored_session-tokens}
use turnkey_triumph_326606_m.Storage.Table.{IsTable}
use turnkey_triumph_326606_m.Storage.AccessToken.{
  i32_max, has_access_token, is_live, token_of_row, new_row, with_access_token, add_access_token,
  select_active_access_token, lookup_active_access_token,
}

abbrev pub AccessTokensValid : Db → Type 0
AccessTokensValid db =
    IsTable (λ (r : AccessTokenRow). r.id) (λ r. r.token) db.next_access_token_id db.access_tokens

module _ (db : Db) (t : Timestamp) (token : Text) where
  -- A lookup is a search of the table and a read of the session of the row that it finds.
  unfoldable pub answer : Option AccessTokenRow → Result StorageError (AccessToken × Session)
  answer none = err (database row_not_found)
  answer (some at) = do
    session ← stored_session db at.oauth2_session_id
    ok (token_of_row at, session)

  pub lookup_active_access_token_lem :
      lookup_active_access_token db t token ≡ answer (find (is_live t token) db.access_tokens)
  unfolding lookup_active_access_token select_active_access_token answer stored_session
  lookup_active_access_token_lem = ground arith

pub answer-tokens :
    (db : Db) (t : Timestamp) (token : Text) (ats : List AccessTokenRow)
    (rts : List RefreshTokenRow) (n m : ℕ) (o : Option AccessTokenRow)
    → answer
        (record db {
          access_tokens = ats;
          refresh_tokens = rts;
          next_access_token_id = n;
          next_refresh_token_id = m;
        })
        t
        token
        o
      ≡ answer db t token o
unfolding answer
answer-tokens db t token ats rts n m none = refl
answer-tokens db t token ats rts n m (some at) =
    rw (stored_session-tokens db ats rts n m at.oauth2_session_id) refl

answer-found :
    (db : Db) (t : Timestamp) (token : Text) (at : AccessTokenRow) (s : Session)
    → stored_session db at.oauth2_session_id ≡ ok s
    → answer db t token (some at) ≡ ok (token_of_row at, s)
unfolding answer
answer-found db t token at s found = rw found refl

answer_ok :
    (db : Db) (t : Timestamp) (token : Text) (at : AccessTokenRow) (a : AccessToken) (s : Session)
    → answer db t token (some at) ≡ ok (a, s)
    → (a ≡ token_of_row at) × (stored_session db at.oauth2_session_id ≡ ok s)
unfolding answer
answer_ok db t token at a s h = ground arith

answer-none :
    (db : Db) (t : Timestamp) (token : Text) (a : AccessToken) (s : Session)
    → answer db t token none ≢ ok (a, s)
unfolding answer
answer-none db t token a s = cc

pub add_access_token_ok :
    (db : Db) (now : Timestamp) (s : Session) (token : Text) (ttl : ℕ) (a : AccessToken) (db' : Db)
    → add_access_token db now s token ttl ≡ ok (a, db')
    → (has_access_token token db ≡ false)
      × (a ≡ record (token_of_row (new_row db now s token ttl)) { expires_after = ttl })
      × (db' ≡ with_access_token db (new_row db now s token ttl))
unfolding add_access_token
add_access_token_ok db now s token ttl a db' h = ground arith

-- A search of the table with the new row at its end.
find-new_row :
    (db : Db) (now t : Timestamp) (s : Session) (token : Text) (ttl : ℕ)
    → has_access_token token db ≡ false
    → t ≤ now + seconds (min (ttl / 1000000) i32_max)
    → find (is_live t token) (db.access_tokens ++ new_row db now s token ttl ∷ [])
      ≡ some (new_row db now s token ttl)
find-new_row db now t s token ttl fresh early =
    find-append_none (is_live t token) db.access_tokens (new_row db now s token ttl ∷ []) (
      find-none_of_any (is_live t token) (λ r. text_eq r.token token) db.access_tokens
        (λ r h. ground arith) fresh)
    ∙ ground (arith, text_eq_refl token)

-- A token that was added for an active session, with a whole number of seconds to live that fits an
-- `i32`, is found until it expires, with the answer of the insertion and that session.
pub lookup-add_access_token :
    (db : Db) (now : Timestamp) (s : Session) (token : Text) (n : ℕ) (a : AccessToken) (db' : Db)
    → n ≤ i32_max
    → add_access_token db now s token (seconds n) ≡ ok (a, db')
    → stored_session db s.id ≡ ok s
    → (t : Timestamp) → t ≤ now + seconds n
    → lookup_active_access_token db' t token ≡ ok (a, s)
lookup-add_access_token db now s token n a db' small added found t early =
    let (fresh, ea, edb) = add_access_token_ok db now s token (seconds n) a db' added in
    let whole : min (seconds n / 1000000) i32_max ≡ n = omega arith in
    let row : AccessTokenRow = new_row db now s token (seconds n) in
    let hit : find (is_live t token) (db.access_tokens ++ row ∷ []) ≡ some row =
      find-new_row db now t s token (seconds n) fresh (omega arith) in
    rw (edb, ea)
      (lookup_active_access_token_lem (with_access_token db row) t token
        ∙ ap (answer (with_access_token db row) t token) hit
        ∙ answer-tokens db t token (db.access_tokens ++ row ∷ []) db.refresh_tokens
            (db.next_access_token_id + 1) db.next_refresh_token_id (some row)
        ∙ answer-found db t token row s found
        ∙ ap (λ e. ok (record (token_of_row row) { expires_after = seconds e }, s)) whole)

-- Adding a token changes the lookup of no other token.
pub lookup-add_access_token_ne :
    (db : Db) (now : Timestamp) (s : Session) (token : Text) (ttl : ℕ) (a : AccessToken) (db' : Db)
    → add_access_token db now s token ttl ≡ ok (a, db')
    → (t : Timestamp) (u : Text) → u ≢ token
    → lookup_active_access_token db' t u ≡ lookup_active_access_token db t u
lookup-add_access_token_ne db now s token ttl a db' added t u ne =
    let (fresh, ea, edb) = add_access_token_ok db now s token ttl a db' added in
    let row : AccessTokenRow = new_row db now s token ttl in
    rw edb (
      lookup_active_access_token_lem (with_access_token db row) t u
      ∙ ap (answer (with_access_token db row) t u) (
          find-append_miss (is_live t u) db.access_tokens row (ground (arith, text_eq_iff token u)))
      ∙ answer-tokens db t u (db.access_tokens ++ row ∷ []) db.refresh_tokens
          (db.next_access_token_id + 1) db.next_refresh_token_id
          (find (is_live t u) db.access_tokens)
      ∙ sym (lookup_active_access_token_lem db t u))

-- What a lookup finds is a row of the table with this token that has not expired, and the active
-- session of this row.
pub lookup_sound :
    (db : Db) (t : Timestamp) (token : Text) (a : AccessToken) (s : Session)
    → lookup_active_access_token db t token ≡ ok (a, s)
    → (at : AccessTokenRow) × Memᴰ at db.access_tokens
      × (at.token ≡ token)
      × (t ≤ at.created_at + seconds at.expires_after)
      × (a ≡ token_of_row at)
      × (stored_session db at.oauth2_session_id ≡ ok s)
lookup_sound db t token a s h =
    go (find (is_live t token) db.access_tokens) refl
      (sym (lookup_active_access_token_lem db t token) ∙ h)
  where
    go :
        (o : Option AccessTokenRow)
        → find (is_live t token) db.access_tokens ≡ o
        → answer db t token o ≡ ok (a, s)
        → (at : AccessTokenRow) × Memᴰ at db.access_tokens
          × (at.token ≡ token)
          × (t ≤ at.created_at + seconds at.expires_after)
          × (a ≡ token_of_row at)
          × (stored_session db at.oauth2_session_id ≡ ok s)
    go none e k = absurd (answer-none db t token a s k)
    go (some at) e k =
        let (m, live) = find_sound (is_live t token) db.access_tokens at e in
        let (same, stored) = answer_ok db t token at a s k in
        (at, m, ground (arith, text_eq_iff at.token token), ground arith, same, stored)
