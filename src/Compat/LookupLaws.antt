-- ===== src/Compat/LookupLaws.antt =====
-- When the lookups of active tokens succeed, crates/storage/src/compat.rs.

use turnkey_triumph_326606_m.Prelude.{
  ℕ, ◌≡◌, refl, ap, ◌∙◌, Option, none, some, ok, err, ok_or, ensure, Nothing, map_err, Text, find,
  ◌==◌, arith,
}
use turnkey_triumph_326606_m.Prelude.ResultMonad.{>>=-eq-ok}
use turnkey_triumph_326606_m.Prelude.Finding.{find_sound}
use turnkey_triumph_326606_m.Time.{Timestamp}
use turnkey_triumph_326606_m.Storage.Rows.{Db, UserRow, database, row_not_found, panicked}
use turnkey_triumph_326606_m.Storage.Lookups.{is_null}
use turnkey_triumph_326606_m.Storage.User.{user_of_row}
use turnkey_triumph_326606_m.Compat.Device.{device_try_from}
use turnkey_triumph_326606_m.Compat.Session.{CompatSession, CompatAccessToken, CompatRefreshToken}
use turnkey_triumph_326606_m.Compat.Rows.{
  CompatDb, CompatAccessTokenRow, CompatRefreshTokenRow, CompatSessionRow,
}
use turnkey_triumph_326606_m.Compat.Lookup.{
  session_of_row, is_live, is_unused, access_token_of_row, refresh_token_of_row,
  joined_access_token, active_compat_session, lookup_active_compat_access_token,
  lookup_active_compat_refresh_token,
}

pub access_missing :
    (db : CompatDb) (t : Timestamp) (u : Text)
    → find (is_live t u) db.access_tokens ≡ none
    → lookup_active_compat_access_token db t u ≡ err (database row_not_found)
unfolding lookup_active_compat_access_token
access_missing db t u e = rw e refl

pub access_found :
    (db : CompatDb) (t : Timestamp) (u : Text) (ct : CompatAccessTokenRow) (s : CompatSession)
    → find (is_live t u) db.access_tokens ≡ some ct
    → active_compat_session db ct.compat_session_id ≡ ok s
    → lookup_active_compat_access_token db t u ≡ ok (access_token_of_row ct, s)
unfolding lookup_active_compat_access_token
access_found db t u ct s e k = rw (e, k) refl

pub access_sound :
    (db : CompatDb) (t : Timestamp) (u : Text) (a : CompatAccessToken) (s : CompatSession)
    → lookup_active_compat_access_token db t u ≡ ok (a, s)
    → (ct : CompatAccessTokenRow) × (find (is_live t u) db.access_tokens ≡ some ct)
      × (active_compat_session db ct.compat_session_id ≡ ok s)
      × (a ≡ access_token_of_row ct)
unfolding lookup_active_compat_access_token
access_sound db t u a s h =
    let (ct, e1, h1) =
      >>=-eq-ok (ok_or (find (is_live t u) db.access_tokens) (database row_not_found)) _ h in
    let (s', e2, h2) = >>=-eq-ok (active_compat_session db ct.compat_session_id) _ h1 in
    (ct, ground arith, e2 ∙ ap ok (ground arith), ground arith)

pub refresh_missing :
    (db : CompatDb) (u : Text)
    → find (is_unused u) db.refresh_tokens ≡ none
    → lookup_active_compat_refresh_token db u ≡ err (database row_not_found)
unfolding lookup_active_compat_refresh_token
refresh_missing db u e = rw e refl

pub refresh_found :
    (db : CompatDb) (u : Text) (cr : CompatRefreshTokenRow) (ct : CompatAccessTokenRow)
    (s : CompatSession)
    → find (is_unused u) db.refresh_tokens ≡ some cr
    → joined_access_token db cr.compat_access_token_id ≡ some ct
    → active_compat_session db cr.compat_session_id ≡ ok s
    → lookup_active_compat_refresh_token db u
      ≡ ok (refresh_token_of_row cr, access_token_of_row ct, s)
unfolding lookup_active_compat_refresh_token
refresh_found db u cr ct s e j k = rw (e, j, k) refl

pub refresh_sound :
    (db : CompatDb) (u : Text) (r : CompatRefreshToken) (a : CompatAccessToken) (s : CompatSession)
    → lookup_active_compat_refresh_token db u ≡ ok (r, a, s)
    → (cr : CompatRefreshTokenRow) × (ct : CompatAccessTokenRow) × (find
          (is_unused u)
          db.refresh_tokens
        ≡ some cr)
      × (joined_access_token db cr.compat_access_token_id ≡ some ct)
      × (active_compat_session db cr.compat_session_id ≡ ok s)
      × (r ≡ refresh_token_of_row cr)
      × (a ≡ access_token_of_row ct)
unfolding lookup_active_compat_refresh_token
refresh_sound db u r a s h =
    let (cr, e1, h1) =
      >>=-eq-ok (ok_or (find (is_unused u) db.refresh_tokens) (database row_not_found)) _ h in
    let (ct, e2, h2) =
      >>=-eq-ok (ok_or (joined_access_token db cr.compat_access_token_id) (database row_not_found))
        _ h1 in
    let (s', e3, h3) = >>=-eq-ok (active_compat_session db cr.compat_session_id) _ h2 in
    (cr, ct, ground arith, ground arith, e3 ∙ ap ok (ground arith), ground arith, ground arith)

pub session_of_row-id :
    (main : Db) (cs : CompatSessionRow) (u : UserRow) (s : CompatSession)
    → session_of_row main cs u ≡ ok s
    → (s.id ≡ cs.id) × (s.deleted_at ≡ cs.deleted_at)
unfolding session_of_row
session_of_row-id main cs u s h =
    let (user, e1, h1) = >>=-eq-ok (user_of_row main u) _ h in
    let (device, e2, h2) =
      >>=-eq-ok (map_err (λ _. panicked) (device_try_from cs.device_id)) _ h1 in
    (ground arith, ground arith)

pub active_compat_session_ok :
    (db : CompatDb) (i : ℕ) (s : CompatSession)
    → active_compat_session db i ≡ ok s
    → (cs : CompatSessionRow) × (u : UserRow) × (find
          (λ (r : CompatSessionRow). r.id == i)
          db.sessions
        ≡ some cs)
      × (cs.deleted_at ≡ none)
      × (s.id ≡ i)
      × (session_of_row db.main cs u ≡ ok s)
unfolding active_compat_session
active_compat_session_ok db i s h =
    let (cs, e1, h1) =
      >>=-eq-ok
        (ok_or (find (λ (r : CompatSessionRow). r.id == i) db.sessions) (database row_not_found)) _
        h in
    let (u, e2, h2) =
      >>=-eq-ok
        (ok_or (find (λ (r : UserRow). r.id == cs.user_id) db.main.users) (database row_not_found))
        _ h1 in
    let (x, e3, h3) = >>=-eq-ok (ensure (is_null cs.deleted_at) (database row_not_found)) _ h2 in
    let found : find (λ (r : CompatSessionRow). r.id == i) db.sessions ≡ some cs = ground arith in
    let (m, is) = find_sound (λ (r : CompatSessionRow). r.id == i) db.sessions cs found in
    (
      cs,
      u,
      found,
      alive cs.deleted_at e3,
      (session_of_row-id db.main cs u s h3).0 ∙ ground arith,
      h3,
    )
  where
    alive :
        (o : Option Timestamp) {x : Nothing}
        → ensure (is_null o) (database row_not_found) ≡ ok x
        → o ≡ none
    alive none k = refl
    alive (some t) k = cc
