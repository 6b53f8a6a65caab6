-- ===== src/Storage/AccessToken/Cleaned.antt =====
-- What the clean-up of expired access tokens leaves, crates/storage/src/oauth2/access_token.rs.
use mathlib.Core.List.{Memᴰ}
use turnkey_triumph_326606_m.Prelude.{
  ◌+◌, ◌≤◌, ◌≡◌, ◌↔◌, refl, sym, ap, ◌∙◌, not, Option, none, some, Result, ok, err, Text, find, any,
  ◌&&◌, ◌==◌, ℕ, Bool, inl, inr, Result-cases, arith,
}
use turnkey_triumph_326606_m.Prelude.Finding.{find-map, Mem-retain}
use turnkey_triumph_326606_m.Time.{Timestamp, seconds, minutes}
use turnkey_triumph_326606_m.Model.Session.{Session, RefreshToken}
use turnkey_triumph_326606_m.Storage.Rows.{Db, StorageError, AccessTokenRow, RefreshTokenRow}
use turnkey_triumph_326606_m.Storage.AccessToken.{
  lookup_active_access_token, unlink, delete_access_tokens, is_long_expired, cleanup_expired,
}
use turnkey_triumph_326606_m.Storage.Sessions.{stored_session, stored_session-tokens}
use turnkey_triumph_326606_m.Storage.AccessToken.Delete.{lookup-cleanup_expired}
use turnkey_triumph_326606_m.Storage.RefreshToken.{is_unused, lookup_active_refresh_token}
use turnkey_triumph_326606_m.Storage.RefreshToken.Laws.{answer, lookup_active_refresh_token_lem}

-- What was found, without the access token of the refresh token.
abbrev pub without_access :
    Result StorageError (RefreshToken × Session) → Result StorageError (RefreshToken × Session)
without_access (ok (r, s)) = ok (record r { access_token = none }, s)
without_access (err e) = err e

without_access-answer :
    (db db' : Db) (rt : RefreshTokenRow) (gone : ℕ → Bool)
    → stored_session db' rt.oauth2_session_id ≡ stored_session db rt.oauth2_session_id
    → without_access (answer db' (some (unlink gone rt))) ≡ without_access (answer db (some rt))
unfolding answer
without_access-answer db db' rt gone e =
    elim (Result-cases (stored_session db rt.oauth2_session_id)) [
      | inl (x, k) ↦ rw (e, k) refl
      | inr (s, k) ↦ rw (e, k) refl
    ]

-- The deletion of access tokens changes no more of a refresh token's lookup than its access token.
without_access-delete :
    (db : Db) (picked : AccessTokenRow → Bool) (u : Text)
    → without_access (lookup_active_refresh_token (delete_access_tokens picked db) u)
      ≡ without_access (lookup_active_refresh_token db u)
without_access-delete db picked u =
    ap without_access (lookup_active_refresh_token_lem (delete_access_tokens picked db) u)
    ∙ ap (λ o. without_access (answer (delete_access_tokens picked db) o)) unlinked
    ∙ same (find (is_unused u) db.refresh_tokens)
    ∙ sym (ap without_access (lookup_active_refresh_token_lem db u))
  where
    gone : ℕ → Bool
    gone i = any (λ (at : AccessTokenRow). at.id == i && picked at) db.access_tokens

    unlinked :
        find (is_unused u) (delete_access_tokens picked db).refresh_tokens
        ≡ elim (find (is_unused u) db.refresh_tokens) [
          | none ↦ none
          | some rt ↦ some (unlink gone rt)
        ]
    unlinked =
        unfold delete_access_tokens in
        find-map (is_unused u) (unlink gone) db.refresh_tokens (λ r. refl)

    same :
        (o : Option RefreshTokenRow)
        → without_access (
            answer
              (delete_access_tokens picked db)
              (elim o [ none ↦ none | some rt ↦ some (unlink gone rt) ]))
          ≡ without_access (answer db o)
    same none = unfold answer in refl
    same (some rt) =
        without_access-answer db (delete_access_tokens picked db) rt gone
          (unfold delete_access_tokens in stored_session-tokens db _ _ _ _ rt.oauth2_session_id)

-- The clean-up of expired access tokens, at its own time or later, changes no lookup of an access token;
-- of a refresh token's lookup it changes no more than the access token that is found with it; and it
-- leaves exactly the rows that have not been expired for more than 15 minutes.
pub cleanup_expired-kept :
    (db : Db) (now t : Timestamp) (u : Text) (at : AccessTokenRow)
    → now ≤ t
    → (lookup_active_access_token (cleanup_expired db now).1 t u
        ≡ lookup_active_access_token db t u)
      × (without_access (lookup_active_refresh_token (cleanup_expired db now).1 u)
          ≡ without_access (lookup_active_refresh_token db u))
      × (Memᴰ at (cleanup_expired db now).1.access_tokens ↔ (
          Memᴰ at db.access_tokens × (now ≤ at.created_at + seconds at.expires_after + minutes 15)))
cleanup_expired-kept db now t u at later = (
  lookup-cleanup_expired db now t u later,
  unfold cleanup_expired in without_access-delete db (is_long_expired now) u,
  unfold cleanup_expired in
      unfold delete_access_tokens in
      (
        λ m.
            let (n, h) = (Mem-retain (λ r. not (is_long_expired now r)) db.access_tokens).0 m in
            (n, ground arith),
        λ (m, early).
            (Mem-retain (λ r. not (is_long_expired now r)) db.access_tokens).1 (m, ground arith),
      ),
)
