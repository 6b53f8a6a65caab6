-- ===== src/Compat/Rotation.antt =====
-- What a refresh leaves, crates/handlers/src/compat/refresh.rs.

use turnkey_triumph_326606_m.Prelude.{
  ℕ, ◌+◌, ◌≡◌, refl, sym, ap, subst, ◌∙◌, false, Option, some, [], ◌∷◌, ◌++◌, map, ok, Text, arith,
  Result,
}
use turnkey_triumph_326606_m.Prelude.ResultMonad.{>>=-eq-ok}
use turnkey_triumph_326606_m.Time.{Timestamp}
use turnkey_triumph_326606_m.Storage.Rows.{StorageError}
use turnkey_triumph_326606_m.Storage.Table.{IsTable}
use turnkey_triumph_326606_m.Compat.Session.{CompatSession, CompatAccessToken, CompatRefreshToken}
use turnkey_triumph_326606_m.Compat.Rows.{CompatDb, CompatAccessTokenRow, CompatRefreshTokenRow}
use turnkey_triumph_326606_m.Compat.Lookup.{
  access_token_of_row, refresh_token_of_row, active_compat_session,
}
use turnkey_triumph_326606_m.Compat.Tokens.{
  has_access_token, has_refresh_token, new_access_row, with_access_token, new_refresh_row,
  with_refresh_token, add_compat_access_token, add_compat_refresh_token, expire, set_next,
  expire_compat_access_token, replace_compat_refresh_token,
}
use turnkey_triumph_326606_m.Compat.Endpoint.{CompatEnv, CompatMoment}
use turnkey_triumph_326606_m.Compat.RefreshPost.{
  ttl, RefreshResponse, new_access_token, new_refresh_token, rotate,
}

-- Ids are below the next value of their sequence, and no two tokens share an id or a text.
abbrev pub CompatTokensValid : CompatDb → Type 0
CompatTokensValid db =
    IsTable (λ (r : CompatAccessTokenRow). r.id) (λ r. r.token) db.next_access_token_id
      db.access_tokens
    × IsTable (λ (r : CompatRefreshTokenRow). r.id) (λ r. r.token) db.next_refresh_token_id
        db.refresh_tokens

pub add_access_ok :
    (db : CompatDb) (now : Timestamp) (s : CompatSession) (token : Text) (after : Option ℕ)
    (a : CompatAccessToken) (db' : CompatDb)
    → add_compat_access_token db now s token after ≡ ok (a, db')
    → (has_access_token token db ≡ false)
      × (a ≡ access_token_of_row (new_access_row db now s token after))
      × (db' ≡ with_access_token db (new_access_row db now s token after))
unfolding add_compat_access_token
add_access_ok db now s token after a db' h = (ground arith, ground arith, ground arith)

pub add_refresh_ok :
    (db : CompatDb) (now : Timestamp) (s : CompatSession) (access : CompatAccessToken)
    (token : Text) (a : CompatRefreshToken) (db' : CompatDb)
    → add_compat_refresh_token db now s access token ≡ ok (a, db')
    → (has_refresh_token token db ≡ false)
      × (a ≡ refresh_token_of_row (new_refresh_row db now s access token))
      × (db' ≡ with_refresh_token db (new_refresh_row db now s access token))
unfolding add_compat_refresh_token
add_refresh_ok db now s access token a db' h = (ground arith, ground arith, ground arith)

replace_ok :
    (db : CompatDb) (old next : CompatRefreshToken) (db' : CompatDb)
    → replace_compat_refresh_token db old next ≡ ok db'
    → db' ≡ record db { refresh_tokens = map (set_next old.id next.id) db.refresh_tokens }
unfolding replace_compat_refresh_token
replace_ok db old next db' h = ground arith

expire_ok :
    (db : CompatDb) (now : Timestamp) (a : CompatAccessToken) (db' : CompatDb)
    → expire_compat_access_token db now a ≡ ok db'
    → db' ≡ record db { access_tokens = map (expire now a.id) db.access_tokens }
unfolding expire_compat_access_token
expire_ok db now a db' h = ground arith

-- The tables after the steps of a rotation.
module _ (db : CompatDb) (now : Timestamp) (old : CompatRefreshToken)
    (old_access : CompatAccessToken) (s : CompatSession) (access_text refresh_text : Text) where
  abbrev pub access_row : CompatAccessTokenRow
  access_row = new_access_row db now s access_text (some ttl)

  abbrev pub refresh_row : CompatRefreshTokenRow
  refresh_row = new_refresh_row db now s (access_token_of_row access_row) refresh_text

  abbrev pub rotated : CompatDb
  rotated = record db {
    access_tokens = map (expire now old_access.id) (db.access_tokens ++ access_row ∷ []);
    next_access_token_id = db.next_access_token_id + 1;
    refresh_tokens = map (set_next old.id refresh_row.id) (db.refresh_tokens ++ refresh_row ∷ []);
    next_refresh_token_id = db.next_refresh_token_id + 1;
  }

  pub session_kept : (i : ℕ) → active_compat_session rotated i ≡ active_compat_session db i
  unfolding active_compat_session
  session_kept i = refl

rotated_of :
    (db db1 db2 db3 db4 : CompatDb) (now : Timestamp) (old : CompatRefreshToken)
    (old_access : CompatAccessToken) (s : CompatSession) (a b : Text) (access : CompatAccessToken)
    (fresh : CompatRefreshToken)
    → access ≡ access_token_of_row (new_access_row db now s a (some ttl))
    → db1 ≡ with_access_token db (new_access_row db now s a (some ttl))
    → fresh ≡ refresh_token_of_row (new_refresh_row db1 now s access b)
    → db2 ≡ with_refresh_token db1 (new_refresh_row db1 now s access b)
    → db3 ≡ record db2 { refresh_tokens = map (set_next old.id fresh.id) db2.refresh_tokens }
    → db4 ≡ record db3 { access_tokens = map (expire now old_access.id) db3.access_tokens }
    → db4 ≡ rotated db now old old_access s a b
rotated_of db db1 db2 db3 db4 now old old_access s a b access fresh ea e1 er e2 e3 e4 =
    rw (e4, e3, e2, er, ea, e1) refl

response_access :
    {a b : Text} {n : ℕ} {d d' : CompatDb} {r : RefreshResponse}
    → ◌≡◌ {A = Result StorageError (RefreshResponse × CompatDb)}
        (ok (record { access_token = a; refresh_token = b; expires_in = n }, d))
        (ok (r, d'))
    → r.access_token ≡ a
response_access h = ground arith

response_refresh :
    {a b : Text} {n : ℕ} {d d' : CompatDb} {r : RefreshResponse}
    → ◌≡◌ {A = Result StorageError (RefreshResponse × CompatDb)}
        (ok (record { access_token = a; refresh_token = b; expires_in = n }, d))
        (ok (r, d'))
    → r.refresh_token ≡ b
response_refresh h = ground arith

pub rotate_ok :
    (env : CompatEnv) (moment : CompatMoment) (db : CompatDb) (old : CompatRefreshToken)
    (old_access : CompatAccessToken) (s : CompatSession) (r : RefreshResponse) (db' : CompatDb)
    → rotate env moment db old old_access s ≡ ok (r, db')
    → (has_access_token (new_access_token env moment) db ≡ false)
      × (has_refresh_token (new_refresh_token env moment) db ≡ false)
      × (r.access_token ≡ new_access_token env moment)
      × (r.refresh_token ≡ new_refresh_token env moment)
      × (db'
          ≡ rotated db moment.db_now old old_access s
              (new_access_token env moment)
              (new_refresh_token env moment))
unfolding rotate
rotate_ok env moment db old old_access s r db' h =
    let ((access, db1), e1, h1) =
      >>=-eq-ok
        (add_compat_access_token db moment.db_now s (new_access_token env moment) (some ttl)) _ h in
    let ((fresh, db2), e2, h2) =
      >>=-eq-ok (add_compat_refresh_token db1 moment.db_now s access (new_refresh_token env moment))
        _ h1 in
    let (db3, e3, h3) = >>=-eq-ok (replace_compat_refresh_token db2 old fresh) _ h2 in
    let (db4, e4, h4) = >>=-eq-ok (expire_compat_access_token db3 moment.db_now old_access) _ h3 in
    let (new_a, same_a, at1) =
      add_access_ok db moment.db_now s (new_access_token env moment) (some ttl) access db1 e1 in
    let (new_r, same_r, at2) =
      add_refresh_ok db1 moment.db_now s access (new_refresh_token env moment) fresh db2 e2 in
    let at3 = replace_ok db2 old fresh db3 e3 in
    let at4 = expire_ok db3 moment.db_now old_access db4 e4 in
    let same_db : db4 ≡ db' = ground arith in
    (
      new_a,
      subst (λ d. has_refresh_token (new_refresh_token env moment) d ≡ false) at1 new_r,
      response_access h4 ∙ ap (λ (q : CompatAccessToken). q.token) same_a,
      response_refresh h4 ∙ ap (λ (q : CompatRefreshToken). q.token) same_r,
      sym same_db
          ∙ rotated_of db db1 db2 db3 db4 moment.db_now old old_access s
              (new_access_token env moment) (new_refresh_token env moment) access fresh same_a at1
              same_r at2 at3 at4,
    )
