-- ===== src/TokenEndpoint/Rotation.antt =====
-- What a rotation of a refresh token leaves, crates/handlers/src/oauth2/token.rs.
use mathlib.Core.List.{Memᴰ}
use turnkey_triumph_326606_m.Prelude.{
  ℕ, ◌≡◌, refl, sym, ap, subst, ◌∙◌, Option, none, some, find, ok, err, inl, inr, Option-cases,
  arith, ◌==◌,
}
use turnkey_triumph_326606_m.Prelude.Finding.{Mem-append, find_sound}
use turnkey_triumph_326606_m.Time.{Timestamp}
use turnkey_triumph_326606_m.Model.Client.{Client}
use turnkey_triumph_326606_m.Model.Session.{Session, AccessToken, RefreshToken}
use turnkey_triumph_326606_m.Storage.Rows.{
  Db, AccessTokenRow, RefreshTokenRow, database, row_not_found,
}
use turnkey_triumph_326606_m.Storage.Lookups.{column}
use turnkey_triumph_326606_m.Storage.Constraints.{
  TokensValid, add_access_token-Valid, add_refresh_token-Valid, replace_refresh_token-Valid,
}
use turnkey_triumph_326606_m.Storage.AccessToken.{token_of_row, lookup_active_access_token}
use turnkey_triumph_326606_m.Storage.AccessToken.Laws.{add_access_token_ok}
use turnkey_triumph_326606_m.Storage.AccessToken.Delete.{lookup-revoked, unused-revoked}
use turnkey_triumph_326606_m.Storage.RefreshToken.{
  is_unused, lookup_active_refresh_token, joined_access_token,
}
use turnkey_triumph_326606_m.Storage.RefreshToken.Laws.{add_refresh_token_ok, found_row}
use turnkey_triumph_326606_m.Storage.RefreshToken.Rotation.{find-replaced, lookup-unused_none}
use turnkey_triumph_326606_m.TokenEndpoint.{AccessTokenResponse, Env, Moment, RefreshTokenGrant}
use turnkey_triumph_326606_m.TokenEndpoint.Refresh.{revoke_optional, refresh_token_grant}
use turnkey_triumph_326606_m.TokenEndpoint.Rotated.{Rotated, refreshed}

-- The row of an access token that a refresh token was found with.
joined_row :
    (db : Db) (rt : RefreshTokenRow) (a : AccessToken)
    → column token_of_row (joined_access_token db rt) ≡ some a
    → (at : AccessTokenRow) × Memᴰ at db.access_tokens × (a ≡ token_of_row at)
unfolding joined_access_token
joined_row db rt a h = go rt.oauth2_access_token_id h
  where
    go :
        (o : Option ℕ)
        → column token_of_row (elim o [
          | none ↦ none
          | some i ↦ find (λ (at : AccessTokenRow). at.id == i) db.access_tokens
        ])
          ≡ some a
        → (at : AccessTokenRow) × Memᴰ at db.access_tokens × (a ≡ token_of_row at)
    go none k = cc
    go (some i) k =
        elim (Option-cases (find (λ (at : AccessTokenRow). at.id == i) db.access_tokens)) [
          | inl e ↦ ground arith
          | inr (at, e) ↦ (
            at,
            (find_sound (λ (q : AccessTokenRow). q.id == i) db.access_tokens at e).0,
            ground arith,
          )
        ]

module _ (env : Env) (moment : Moment) (db : Db) (rt : RefreshTokenRow) (s : Session)
    (r : AccessTokenResponse) (db' : Db) (old : RefreshToken) (valid : TokensValid db)
    (i : Rotated env moment db old s r db') where
  valid_access : TokensValid i.with_access
  valid_access = add_access_token-Valid _ _ _ _ _ _ _ valid i.access_added

  valid_refresh : TokensValid i.with_refresh
  valid_refresh = add_refresh_token-Valid _ _ _ _ _ _ _ valid_access i.refresh_added

  valid_next : TokensValid i.with_next
  valid_next = replace_refresh_token-Valid _ _ _ _ valid_refresh i.replaced

  used_row :
      Memᴰ rt db.refresh_tokens
      → old.id ≡ rt.id
      → (find (is_unused rt.token) i.with_next.refresh_tokens ≡ none)
        × (i.with_next.access_tokens ≡ i.with_refresh.access_tokens)
        × (i.with_next.next_access_token_id ≡ i.with_refresh.next_access_token_id)
  used_row m same =
      find-replaced i.with_refresh old i.fresh rt i.with_next valid_refresh.1
        (subst (λ d. Memᴰ rt d.refresh_tokens)
          (sym (add_refresh_token_ok _ _ _ _ _ _ _ i.refresh_added).2)
          (Mem-append i.with_access.refresh_tokens _ (
            subst (λ d. Memᴰ rt d.refresh_tokens)
              (sym (add_access_token_ok _ _ _ _ _ _ _ i.access_added).2) m)))
        same i.replaced

  old_refresh_token :
      Memᴰ rt db.refresh_tokens
      → old.id ≡ rt.id
      → lookup_active_refresh_token db' rt.token ≡ err (database row_not_found)
  old_refresh_token m same = lookup-unused_none db' rt.token (go old.access_token i.revoked)
    where
      go :
          (o : Option AccessToken)
          → revoke_optional i.with_next o ≡ ok db'
          → find (is_unused rt.token) db'.refresh_tokens ≡ none
      go none e =
          let same_db : i.with_next ≡ db' = ground arith in
          subst (λ (d : Db). find (is_unused rt.token) d.refresh_tokens ≡ none) same_db
            (used_row m same).0
      go (some a) e = unused-revoked i.with_next a rt.token db' (used_row m same).0 e

  old_access_token :
      (at : AccessTokenRow)
      → Memᴰ rt db.refresh_tokens
      → old.id ≡ rt.id
      → Memᴰ at db.access_tokens
      → old.access_token ≡ some (token_of_row at)
      → (t : Timestamp) → lookup_active_access_token db' t at.token ≡ err (database row_not_found)
  old_access_token at m same here is_old t =
      lookup-revoked i.with_next at (token_of_row at) db' valid_next.0
        (subst (λ ats. Memᴰ at ats) (sym (used_row m same).1)
          (subst (λ d. Memᴰ at d.access_tokens)
            (sym (add_refresh_token_ok _ _ _ _ _ _ _ i.refresh_added).2)
            (subst (λ d. Memᴰ at d.access_tokens)
              (sym (add_access_token_ok _ _ _ _ _ _ _ i.access_added).2)
              (Mem-append db.access_tokens _ here))))
        refl (subst (λ o. revoke_optional i.with_next o ≡ ok db') is_old i.revoked) t

-- In tables that meet their constraints, a refresh token that has been exchanged for new tokens is not
-- accepted again, and neither is, at any time, the access token that it was found with.
pub refresh_token_grant-once :
    (env : Env) (moment : Moment) (db : Db) (grant : RefreshTokenGrant) (client : Client)
    (r : AccessTokenResponse) (db' : Db)
    → TokensValid db
    → refresh_token_grant env moment db grant client ≡ (ok r, db')
    → (old : RefreshToken) × (s : Session) × (lookup_active_refresh_token db grant.refresh_token
        ≡ ok (old, s))
      × (lookup_active_refresh_token db' grant.refresh_token ≡ err (database row_not_found))
      × ((a : AccessToken)
          → old.access_token ≡ some a
          → (t : Timestamp)
          → lookup_active_access_token db' t a.token ≡ err (database row_not_found))
refresh_token_grant-once env moment db grant client r db' valid h =
    let (old, s, found, own, i) = refreshed env moment db grant client r db' h in
    let (rt, m, same_token, unused, er, stored) = found_row db grant.refresh_token old s found in
    let same : old.id ≡ rt.id = ap (λ q. q.id) er in
    (
      old,
      s,
      found,
      subst (λ u. lookup_active_refresh_token db' u ≡ err (database row_not_found)) same_token
          (old_refresh_token env moment db rt s r db' old valid i m same),
      λ a is_old t.
          let (at, here, ea) = joined_row db rt a (ap (λ q. q.access_token) (sym er) ∙ is_old) in
          subst
            (λ (q : AccessToken).
              lookup_active_access_token db' t q.token ≡ err (database row_not_found))
            (sym ea)
            (old_access_token env moment db rt s r db' old valid i at m same here
              (is_old ∙ ap some ea) t),
    )
