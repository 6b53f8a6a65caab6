-- ===== src/Compat/Refreshed.antt =====
-- The refresh endpoint exchanges a refresh token once, crates/handlers/src/compat/refresh.rs.
use mathlib.Core.List.{Memᴰ}
use turnkey_triumph_326606_m.Prelude.{
  ℕ, ◌+◌, ◌≤◌, ◌<◌, ◌≡◌, refl, ap, subst, ◌∙◌, some, ok, err, ensure, Nothing, map_err, Text,
  text_eq_iff, Option, none, arith, ◌==◌,
}
use turnkey_triumph_326606_m.Prelude.ResultMonad.{>>=-eq-ok, >>=-elim-ok, map_err_ok}
use turnkey_triumph_326606_m.Prelude.Finding.{find_sound}
use turnkey_triumph_326606_m.Time.{Timestamp, minutes}
use turnkey_triumph_326606_m.Token.{
  TokenType, access_token, refresh_token, compat_access_token, compat_refresh_token, check,
}
use turnkey_triumph_326606_m.Storage.Rows.{database, row_not_found}
use turnkey_triumph_326606_m.Compat.Session.{CompatSession, CompatAccessToken, CompatRefreshToken}
use turnkey_triumph_326606_m.Compat.Rows.{CompatDb, CompatAccessTokenRow}
use turnkey_triumph_326606_m.Compat.Lookup.{
  is_unused, joined_access_token, access_token_of_row, refresh_token_of_row, active_compat_session,
  lookup_active_compat_access_token, lookup_active_compat_refresh_token,
}
use turnkey_triumph_326606_m.Compat.LookupLaws.{refresh_sound, active_compat_session_ok}
use turnkey_triumph_326606_m.Compat.Endpoint.{CompatEnv, CompatMoment}
use turnkey_triumph_326606_m.Compat.RefreshPost.{
  of_lookup, anyhow, invalid_token, is_compat_refresh_token, RefreshResponse, new_access_token,
  new_refresh_token, rotate, refresh_steps, post_refresh,
}
use turnkey_triumph_326606_m.TokenEndpoint.Redeemed.{commit_ok}
use turnkey_triumph_326606_m.Compat.Rotation.{CompatTokensValid, rotate_ok}
use turnkey_triumph_326606_m.Compat.Rotated.{
  after, used, expired, fresh_access, fresh_refresh, new_access, new_refresh,
}

refresh_steps_ok :
    (env : CompatEnv) (moment : CompatMoment) (db : CompatDb) (input : Text) (r : RefreshResponse)
    (db' : CompatDb)
    → refresh_steps env moment db input ≡ ok (r, db')
    → (old : CompatRefreshToken) × (access : CompatAccessToken) × (s : CompatSession)
      × (lookup_active_compat_refresh_token db input ≡ ok (old, access, s))
      × (rotate env moment db old access s ≡ ok (r, db'))
unfolding refresh_steps
refresh_steps_ok env moment db input r db' h =
    >>=-elim-ok (map_err (λ _. invalid_token) (check env.crc32 input)) _ h (λ token_type h1.
      >>=-elim-ok (ensure (is_compat_refresh_token token_type) invalid_token) _ h1 (λ x h2.
        let ((old, access, s), e, h3) =
          >>=-eq-ok (map_err of_lookup (lookup_active_compat_refresh_token db input)) _ h2 in
        (old, access, s, map_err_ok of_lookup _ e, map_err_ok anyhow _ h3)))

is_refresh_type :
    (t : TokenType) {x : Nothing}
    → ensure (is_compat_refresh_token t) invalid_token ≡ ok x
    → t ≡ compat_refresh_token
is_refresh_type compat_refresh_token h = refl
is_refresh_type access_token h = cc
is_refresh_type refresh_token h = cc
is_refresh_type compat_access_token h = cc

-- The format of a token that has been exchanged.
pub checked_type :
    (env : CompatEnv) (moment : CompatMoment) (db : CompatDb) (input : Text) (r : RefreshResponse)
    (db' : CompatDb)
    → post_refresh env moment db input ≡ (ok r, db')
    → check env.crc32 input ≡ ok compat_refresh_token
unfolding post_refresh refresh_steps
checked_type env moment db input r db' h =
    let (t, e1, h1) =
      >>=-eq-ok (map_err (λ _. invalid_token) (check env.crc32 input)) _ (commit_ok db _ r db' h) in
    let (x, e2, h2) = >>=-eq-ok (ensure (is_compat_refresh_token t) invalid_token) _ h1 in
    map_err_ok (λ _. invalid_token) _ e1 ∙ ap ok (is_refresh_type t e2)

joined_mem :
    (db : CompatDb) (o : Option ℕ) (ct : CompatAccessTokenRow)
    → joined_access_token db o ≡ some ct
    → Memᴰ ct db.access_tokens
unfolding joined_access_token
joined_mem db none ct h = cc
joined_mem db (some i) ct h =
    (find_sound (λ (r : CompatAccessTokenRow). r.id == i) db.access_tokens ct h).0

-- In tables that meet their constraints, a refresh that succeeds has found the refresh token with an
-- access token and a session; the refresh token is not accepted again, the access token not from the
-- start of the transaction on, and the new access token for five minutes, and the new refresh token, are
-- accepted for the same session.
pub post_refresh-rotates :
    (env : CompatEnv) (moment : CompatMoment) (db : CompatDb) (input : Text) (r : RefreshResponse)
    (db' : CompatDb) (t u : Timestamp)
    → CompatTokensValid db
    → post_refresh env moment db input ≡ (ok r, db')
    → moment.db_now ≤ t
    → u < moment.db_now + minutes 5
    → (old : CompatRefreshToken) × (access : CompatAccessToken) × (s : CompatSession)
      × (lookup_active_compat_refresh_token db input ≡ ok (old, access, s))
      × (lookup_active_compat_refresh_token db' input ≡ err (database row_not_found))
      × (lookup_active_compat_access_token db' t access.token ≡ err (database row_not_found))
      × (fresh : CompatAccessToken) × (next : CompatRefreshToken)
      × (lookup_active_compat_access_token db' u r.access_token ≡ ok (fresh, s))
      × (lookup_active_compat_refresh_token db' r.refresh_token ≡ ok (next, fresh, s))
unfolding post_refresh
post_refresh-rotates env moment db input r db' t u v h late early =
    let (old, access, s, found, done) =
      refresh_steps_ok env moment db input r db' (commit_ok db _ r db' h) in
    let (cr, ct, e, j, stored, same_r, same_a) = refresh_sound db input old access s found in
    let (m, unused) = find_sound (is_unused input) db.refresh_tokens cr e in
    let (new_a, new_r, text_a, text_r, edb) = rotate_ok env moment db old access s r db' done in
    let a : Text = new_access_token env moment in
    let b : Text = new_refresh_token env moment in
    let at : db' ≡ after db moment.db_now cr ct s a b = edb ∙ rw (same_r, same_a) refl in
    let (cs, user, f, alive, same_id, row) =
      active_compat_session_ok db cr.compat_session_id s stored in
    let here : active_compat_session db s.id ≡ ok s =
      ap (active_compat_session db) same_id ∙ stored in
    let am = joined_mem db cr.compat_access_token_id ct j in
    let text : cr.token ≡ input = (text_eq_iff cr.token input).0 (ground arith) in
    (
      old,
      access,
      s,
      found,
      rw at (
          subst
            (λ i.
              lookup_active_compat_refresh_token (after db moment.db_now cr ct s a b) i
              ≡ err (database row_not_found))
            text (used db moment.db_now cr ct s a b v new_r m)),
      rw (at, same_a) (expired db moment.db_now cr ct s a b v new_a am t late),
      access_token_of_row (new_access db moment.db_now cr ct s a b),
      refresh_token_of_row (new_refresh db moment.db_now cr ct s a b),
      rw (at, text_a) (fresh_access db moment.db_now cr ct s a b v new_a am here u early),
      rw (at, text_r) (fresh_refresh db moment.db_now cr ct s a b v new_r m am here),
    )

pub exchanged_gone :
    (env : CompatEnv) (moment : CompatMoment) (db : CompatDb) (input : Text) (r : RefreshResponse)
    (db' : CompatDb)
    → CompatTokensValid db
    → post_refresh env moment db input ≡ (ok r, db')
    → lookup_active_compat_refresh_token db' input ≡ err (database row_not_found)
exchanged_gone env moment db input r db' v h =
    let (old, access, s, found, gone, e1, fresh, next, e2, e3) =
      post_refresh-rotates env moment db input r db' moment.db_now moment.db_now v h (omega arith)
        (omega arith) in
    gone
