-- ===== src/Storage/AccessToken/Delete.antt =====
-- Deleting access tokens: the clean-up of expired ones, and revocation.

use mathlib.Core.List.{Memᴰ}
use turnkey_triumph_326606_m.Prelude.{
  ◌≤◌, ◌≡◌, ◌≢◌, refl, sym, ap, subst, ◌∙◌, Bool, true, not, none, List, [], ◌∷◌, ok, err, Text,
  text_eq_iff, All, find, retain, arith, ◌==◌,
}
use turnkey_triumph_326606_m.Prelude.Finding.{find-map, find-retain-All, find-retain-none, All-mono}
use turnkey_triumph_326606_m.Time.{Timestamp}
use turnkey_triumph_326606_m.Model.Session.{Session, AccessToken}
use turnkey_triumph_326606_m.Storage.Rows.{Db, AccessTokenRow, database, row_not_found}
use turnkey_triumph_326606_m.Storage.Table.{id_of_token, token_of_id}
use turnkey_triumph_326606_m.Storage.AccessToken.Laws.{
  AccessTokensValid, answer, answer-tokens, lookup_active_access_token_lem, lookup_sound,
}
use turnkey_triumph_326606_m.Storage.AccessToken.{
  is_live, lookup_active_access_token, unlink, delete_access_tokens, revoke_access_token,
  is_long_expired, cleanup_expired,
}
use turnkey_triumph_326606_m.Storage.RefreshToken.{is_unused}

-- A lookup after a deletion, by what is then found.
lookup-delete_access_tokens :
    (db : Db) (picked : AccessTokenRow → Bool) (t : Timestamp) (u : Text)
    → lookup_active_access_token (delete_access_tokens picked db) t u
      ≡ answer db t u (find (is_live t u) (retain (λ r. not (picked r)) db.access_tokens))
unfolding delete_access_tokens
lookup-delete_access_tokens db picked t u =
    lookup_active_access_token_lem (delete_access_tokens picked db) t u
    ∙ answer-tokens db t u _ _ db.next_access_token_id db.next_refresh_token_id _

-- Deleting rows that the query would not pick changes no lookup.
lookup-delete_access_tokens_spare :
    (db : Db) (picked : AccessTokenRow → Bool) (t : Timestamp) (u : Text)
    → All (λ r. is_live t u r ≡ true → not (picked r) ≡ true) db.access_tokens
    → lookup_active_access_token (delete_access_tokens picked db) t u
      ≡ lookup_active_access_token db t u
lookup-delete_access_tokens_spare db picked t u spare =
    lookup-delete_access_tokens db picked t u
    ∙ ap (answer db t u)
        (find-retain-All (is_live t u) (λ r. not (picked r)) db.access_tokens spare)
    ∙ sym (lookup_active_access_token_lem db t u)

-- The clean-up of expired tokens changes no lookup, at its own time or later.
pub lookup-cleanup_expired :
    (db : Db) (now t : Timestamp) (u : Text)
    → now ≤ t
    → lookup_active_access_token (cleanup_expired db now).1 t u ≡ lookup_active_access_token db t u
unfolding cleanup_expired
lookup-cleanup_expired db now t u later =
    lookup-delete_access_tokens_spare db (is_long_expired now) t u (spare db.access_tokens)
  where
    spare :
        (rs : List AccessTokenRow)
        → All (λ r. is_live t u r ≡ true → not (is_long_expired now r) ≡ true) rs
    spare [] = tt
    spare (r ∷ rs) = (λ h. ground arith, spare rs)

abbrev same_id : AccessToken → AccessTokenRow → Bool
same_id a at = at.id == a.id

revoke_access_token_ok :
    (db : Db) (a : AccessToken) (db' : Db)
    → revoke_access_token db a ≡ ok db'
    → db' ≡ delete_access_tokens (same_id a) db
unfolding revoke_access_token
revoke_access_token_ok db a db' h = ground arith

pub lookup-revoked :
    (db : Db) (at : AccessTokenRow) (a : AccessToken) (db' : Db)
    → AccessTokensValid db
    → Memᴰ at db.access_tokens
    → a.id ≡ at.id
    → revoke_access_token db a ≡ ok db'
    → (t : Timestamp) → lookup_active_access_token db' t at.token ≡ err (database row_not_found)
lookup-revoked db at a db' valid m same revoked t = rw (revoke_access_token_ok db a db' revoked) (
    lookup-delete_access_tokens db (same_id a) t at.token
    ∙ ap (answer db t at.token) (
        find-retain-none (is_live t at.token) (λ r. not (same_id a r)) db.access_tokens
          (All-mono _ _ db.access_tokens (λ r h k. ground (arith, h, text_eq_iff r.token at.token))
            (id_of_token _ _ db.next_access_token_id db.access_tokens at valid m)))
    ∙ unfold answer in refl)

-- Deleting an access token leaves a refresh token used that was.
pub unused-revoked :
    (db : Db) (a : AccessToken) (u : Text) (db' : Db)
    → find (is_unused u) db.refresh_tokens ≡ none
    → revoke_access_token db a ≡ ok db'
    → find (is_unused u) db'.refresh_tokens ≡ none
unfolding delete_access_tokens
unused-revoked db a u db' e revoked =
    rw (revoke_access_token_ok db a db' revoked)
      (find-map (is_unused u) (unlink _) db.refresh_tokens (λ r. refl) ∙ rw e refl)

-- In a table that meets its constraints, an access token that was found and is then revoked is not
-- found again, at any time; and no other token's lookup changes.
pub lookup-revoke_access_token :
    (db : Db) (now : Timestamp) (token : Text) (a : AccessToken) (s : Session) (db' : Db)
    → AccessTokensValid db
    → lookup_active_access_token db now token ≡ ok (a, s)
    → revoke_access_token db a ≡ ok db'
    → (t : Timestamp)
    → (lookup_active_access_token db' t token ≡ err (database row_not_found))
      × ((u : Text)
          → u ≢ token
          → lookup_active_access_token db' t u ≡ lookup_active_access_token db t u)
lookup-revoke_access_token db now token a s db' valid found revoked t =
    let (at, m, same_token, live, ea, stored) = lookup_sound db now token a s found in
    let e : db' ≡ delete_access_tokens (same_id a) db = revoke_access_token_ok db a db' revoked in
    (
      subst (λ u. lookup_active_access_token db' t u ≡ err (database row_not_found)) same_token
          (lookup-revoked db at a db' valid m (ap (λ q. q.id) ea) revoked t),
      λ u ne. rw e (
          lookup-delete_access_tokens_spare db (same_id a) t u (
            All-mono _ _ db.access_tokens (λ r h k. ground (arith, h, text_eq_iff r.token u))
              (token_of_id _ _ db.next_access_token_id db.access_tokens at valid m))),
    )
