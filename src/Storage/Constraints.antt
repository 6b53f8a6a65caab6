-- ===== src/Storage/Constraints.antt =====
-- The constraints of the token tables, which every query keeps,
-- crates/storage/src/oauth2/access_token.rs, refresh_token.rs and mod.rs.
use turnkey_triumph_326606_m.Prelude.{
  ℕ, ◌≡◌, refl, sym, subst, ok, Text, not, map, Bool, arith, ◌==◌,
}
use turnkey_triumph_326606_m.Time.{Timestamp}
use turnkey_triumph_326606_m.Model.Session.{Session, AccessToken, RefreshToken}
use turnkey_triumph_326606_m.Model.Grant.{AuthorizationGrant}
use turnkey_triumph_326606_m.Storage.Rows.{Db, AccessTokenRow}
use turnkey_triumph_326606_m.Storage.Table.{IsTable-append, IsTable-retain, IsTable-map}
use turnkey_triumph_326606_m.Storage.AccessToken.{
  add_access_token, unlink, delete_access_tokens, revoke_access_token, cleanup_expired,
  is_long_expired,
}
use turnkey_triumph_326606_m.Storage.AccessToken.Laws.{AccessTokensValid, add_access_token_ok}
use turnkey_triumph_326606_m.Storage.RefreshToken.{
  set_next, add_refresh_token, replace_refresh_token,
}
use turnkey_triumph_326606_m.Storage.RefreshToken.Laws.{RefreshTokensValid, add_refresh_token_ok}
use turnkey_triumph_326606_m.Storage.GrantStage.{exchange_grant, end_oauth_session}

-- Ids are below the next value of their sequence, and no two rows of a table share an id or a token.
abbrev pub TokensValid : Db → Type 0
TokensValid db = AccessTokensValid db × RefreshTokensValid db

pub add_access_token-Valid :
    (db : Db) (now : Timestamp) (s : Session) (token : Text) (ttl : ℕ) (a : AccessToken) (db' : Db)
    → TokensValid db
    → add_access_token db now s token ttl ≡ ok (a, db')
    → TokensValid db'
add_access_token-Valid db now s token ttl a db' v h =
    let (fresh, ea, edb) = add_access_token_ok db now s token ttl a db' h in
    subst TokensValid (sym edb) (
      IsTable-append (λ r. r.id) (λ r. r.token) db.next_access_token_id _ db.access_tokens refl
          fresh v.0,
      v.1,
    )

pub add_refresh_token-Valid :
    (db : Db) (now : Timestamp) (s : Session) (a : AccessToken) (token : Text) (r : RefreshToken)
    (db' : Db)
    → TokensValid db
    → add_refresh_token db now s a token ≡ ok (r, db')
    → TokensValid db'
add_refresh_token-Valid db now s a token r db' v h =
    let (fresh, er, edb) = add_refresh_token_ok db now s a token r db' h in
    subst TokensValid (sym edb) (
      v.0,
      IsTable-append (λ r. r.id) (λ r. r.token) db.next_refresh_token_id _ db.refresh_tokens refl
          fresh v.1,
    )

pub replace_refresh_token_same :
    (db : Db) (old next : RefreshToken) (db' : Db)
    → replace_refresh_token db old next ≡ ok db'
    → db' ≡ record db { refresh_tokens = map (set_next old next) db.refresh_tokens }
unfolding replace_refresh_token
replace_refresh_token_same db old next db' h = ground arith

pub replace_refresh_token-Valid :
    (db : Db) (old next : RefreshToken) (db' : Db)
    → TokensValid db
    → replace_refresh_token db old next ≡ ok db'
    → TokensValid db'
replace_refresh_token-Valid db old next db' v h =
    subst TokensValid (sym (replace_refresh_token_same db old next db' h)) (
      v.0,
      IsTable-map (λ r. r.id) (λ r. r.token) db.next_refresh_token_id (set_next old next)
          db.refresh_tokens (λ r. (ground arith, ground arith)) v.1,
    )

pub delete_access_tokens-Valid :
    (picked : AccessTokenRow → Bool) (db : Db)
    → TokensValid db
    → TokensValid (delete_access_tokens picked db)
unfolding delete_access_tokens
delete_access_tokens-Valid picked db v = (
  IsTable-retain (λ r. r.id) (λ r. r.token) db.next_access_token_id (λ r. not (picked r))
      db.access_tokens v.0,
  IsTable-map (λ r. r.id) (λ r. r.token) db.next_refresh_token_id (unlink _) db.refresh_tokens
      (λ r. (refl, refl)) v.1,
)

pub revoke_access_token_deletes :
    (db : Db) (a : AccessToken) (db' : Db)
    → revoke_access_token db a ≡ ok db'
    → db' ≡ delete_access_tokens (λ (at : AccessTokenRow). at.id == a.id) db
unfolding revoke_access_token
revoke_access_token_deletes db a db' h = ground arith

pub revoke_access_token-Valid :
    (db : Db) (a : AccessToken) (db' : Db)
    → TokensValid db
    → revoke_access_token db a ≡ ok db'
    → TokensValid db'
revoke_access_token-Valid db a db' v h =
    subst TokensValid (sym (revoke_access_token_deletes db a db' h))
      (delete_access_tokens-Valid _ db v)

-- The clean-up keeps the constraints of the token tables.
pub cleanup_expired-Valid :
    (db : Db) (now : Timestamp) → TokensValid db → TokensValid (cleanup_expired db now).1
unfolding cleanup_expired
cleanup_expired-Valid db now v = delete_access_tokens-Valid (is_long_expired now) db v

pub end_oauth_session-Valid :
    (db : Db) (now : Timestamp) (s : Session) (db' : Db)
    → TokensValid db
    → end_oauth_session db now s ≡ ok db'
    → TokensValid db'
unfolding end_oauth_session
end_oauth_session-Valid db now s db' v h = subst TokensValid (sym same) v
  where
    same : db' ≡ record db { sessions = db'.sessions }
    same = ground arith

pub exchange_grant-Valid :
    (db : Db) (now : Timestamp) (a a' : AuthorizationGrant) (db' : Db)
    → TokensValid db
    → exchange_grant db now a ≡ ok (a', db')
    → TokensValid db'
unfolding exchange_grant
exchange_grant-Valid db now a a' db' v h = subst TokensValid (sym same) v
  where
    same : db' ≡ record db { grants = db'.grants }
    same = ground arith
