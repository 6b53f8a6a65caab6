-- ===== src/Storage/RefreshToken/Rotation.antt =====
-- The rotation of a refresh token: `replace_refresh_token` after a lookup,
-- crates/storage/src/oauth2/refresh_token.rs.
use mathlib.Core.List.{Memᴰ}
use turnkey_triumph_326606_m.Prelude.{
  ◌≡◌, ◌≢◌, refl, sym, ap, subst, ◌∙◌, Option, none, some, map, ok, err, Text, text_eq_iff, find,
  arith,
}
use turnkey_triumph_326606_m.Prelude.Finding.{All-mono, find-map-none, find-map-All}
use turnkey_triumph_326606_m.Model.Session.{Session, RefreshToken}
use turnkey_triumph_326606_m.Storage.Rows.{Db, RefreshTokenRow, database, row_not_found}
use turnkey_triumph_326606_m.Storage.Sessions.{stored_session-tokens}
use turnkey_triumph_326606_m.Storage.Table.{id_of_token, token_of_id}
use turnkey_triumph_326606_m.Storage.RefreshToken.{
  joined_access_token, is_unused, set_next, replace_refresh_token, lookup_active_refresh_token,
}
use turnkey_triumph_326606_m.Storage.RefreshToken.Laws.{
  RefreshTokensValid, answer, lookup_active_refresh_token_lem, found_row,
}

with_next : RefreshToken → RefreshToken → Db → Db
with_next old next db = record db { refresh_tokens = map (set_next old next) db.refresh_tokens }

replace_refresh_token_ok :
    (db : Db) (old next : RefreshToken) (db' : Db)
    → replace_refresh_token db old next ≡ ok db'
    → db' ≡ with_next old next db
unfolding replace_refresh_token with_next
replace_refresh_token_ok db old next db' h = ground arith

answer-with_next :
    (db : Db) (old next : RefreshToken) (o : Option RefreshTokenRow)
    → answer (with_next old next db) o ≡ answer db o
unfolding answer with_next joined_access_token
answer-with_next db old next none = refl
answer-with_next db old next (some rt) =
    rw
      (stored_session-tokens db db.access_tokens (map (set_next old next) db.refresh_tokens)
        db.next_access_token_id db.next_refresh_token_id rt.oauth2_session_id)
      refl

lookup-with_next :
    (db : Db) (old next : RefreshToken) (u : Text)
    → lookup_active_refresh_token (with_next old next db) u
      ≡ answer db (find (is_unused u) (map (set_next old next) db.refresh_tokens))
unfolding with_next
lookup-with_next db old next u =
    lookup_active_refresh_token_lem (with_next old next db) u
    ∙ answer-with_next db old next (find (is_unused u) (map (set_next old next) db.refresh_tokens))

find-with_next :
    (db : Db) (old next : RefreshToken) (rt : RefreshTokenRow)
    → RefreshTokensValid db
    → Memᴰ rt db.refresh_tokens
    → old.id ≡ rt.id
    → find (is_unused rt.token) (map (set_next old next) db.refresh_tokens) ≡ none
find-with_next db old next rt valid m same =
    find-map-none (is_unused rt.token) (set_next old next) db.refresh_tokens (
      All-mono _ _ db.refresh_tokens (λ q h. ground (arith, h, text_eq_iff q.token rt.token))
        (id_of_token _ _ db.next_refresh_token_id db.refresh_tokens rt valid m))

-- Once its row is replaced, no row with its token is unused.
pub find-replaced :
    (db : Db) (old next : RefreshToken) (rt : RefreshTokenRow) (db' : Db)
    → RefreshTokensValid db
    → Memᴰ rt db.refresh_tokens
    → old.id ≡ rt.id
    → replace_refresh_token db old next ≡ ok db'
    → (find (is_unused rt.token) db'.refresh_tokens ≡ none)
      × (db'.access_tokens ≡ db.access_tokens)
      × (db'.next_access_token_id ≡ db.next_access_token_id)
unfolding with_next
find-replaced db old next rt db' valid m same replaced =
    rw (replace_refresh_token_ok db old next db' replaced)
      (find-with_next db old next rt valid m same, refl, refl)

pub lookup-unused_none :
    (db : Db) (u : Text)
    → find (is_unused u) db.refresh_tokens ≡ none
    → lookup_active_refresh_token db u ≡ err (database row_not_found)
unfolding answer
lookup-unused_none db u e = lookup_active_refresh_token_lem db u ∙ ap (answer db) e

-- In a table that meets its constraints, a refresh token that was found and is then replaced is
-- not found again; and no other token's lookup changes.
pub lookup-replace_refresh_token :
    (db : Db) (token : Text) (r next : RefreshToken) (s : Session) (db' : Db)
    → RefreshTokensValid db
    → lookup_active_refresh_token db token ≡ ok (r, s)
    → replace_refresh_token db r next ≡ ok db'
    → (lookup_active_refresh_token db' token ≡ err (database row_not_found))
      × ((u : Text)
          → u ≢ token
          → lookup_active_refresh_token db' u ≡ lookup_active_refresh_token db u)
lookup-replace_refresh_token db token r next s db' valid found replaced =
    let (rt, m, same_token, unused, er, stored) = found_row db token r s found in
    let e : db' ≡ with_next r next db = replace_refresh_token_ok db r next db' replaced in
    (
      rw e (
          lookup-with_next db r next token
          ∙ ap (answer db) (
              subst (λ u. find (is_unused u) (map (set_next r next) db.refresh_tokens) ≡ none)
                same_token (find-with_next db r next rt valid m (ap (λ q. q.id) er)))
          ∙ unfold answer in refl),
      λ u ne. rw e (
          lookup-with_next db r next u
          ∙ ap (answer db) (
              find-map-All (is_unused u) (set_next r next) db.refresh_tokens (
                All-mono _ _ db.refresh_tokens (λ q h. ground (arith, h, text_eq_iff q.token u))
                  (token_of_id _ _ db.next_refresh_token_id db.refresh_tokens rt valid m)))
          ∙ sym (lookup_active_refresh_token_lem db u)),
    )
