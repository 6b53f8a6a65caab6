-- ===== src/Compat/Rotated.antt =====
-- The lookups after a refresh, crates/handlers/src/compat/refresh.rs.
use mathlib.Core.List.{Memᴰ}
use turnkey_triumph_326606_m.Prelude.{
  ◌+◌, ◌≤◌, ◌<◌, ◌≡◌, refl, ◌∙◌, false, List, [], ◌∷◌, ◌++◌, ok, err, Text, text_eq, text_eq_iff,
  text_eq_refl, any, ◌==◌, arith, All,
}
use turnkey_triumph_326606_m.Prelude.Finding.{
  All-append, All-mono, All-Mem, Mem-append, find-map, find-map-none, find-map-All,
  find-append_none, find-none_of_any, find-next_append,
}
use turnkey_triumph_326606_m.Time.{Timestamp}
use turnkey_triumph_326606_m.Storage.Rows.{database, row_not_found}
use turnkey_triumph_326606_m.Storage.Table.{IsTable-append, IsTable-below, id_of_token}
use turnkey_triumph_326606_m.Compat.Session.{CompatSession}
use turnkey_triumph_326606_m.Compat.Rows.{CompatDb, CompatAccessTokenRow, CompatRefreshTokenRow}
use turnkey_triumph_326606_m.Compat.Lookup.{
  is_live, is_unused, access_token_of_row, refresh_token_of_row, joined_access_token,
  active_compat_session, lookup_active_compat_access_token, lookup_active_compat_refresh_token,
}
use turnkey_triumph_326606_m.Compat.LookupLaws.{
  access_missing, access_found, refresh_missing, refresh_found,
}
use turnkey_triumph_326606_m.Compat.Tokens.{has_access_token, has_refresh_token, expire, set_next}
use turnkey_triumph_326606_m.Compat.RefreshPost.{ttl}
use turnkey_triumph_326606_m.Compat.Rotation.{
  CompatTokensValid, access_row, refresh_row, rotated, session_kept,
}

module _ (db : CompatDb) (now : Timestamp) (cr : CompatRefreshTokenRow) (ct : CompatAccessTokenRow)
    (s : CompatSession) (a b : Text) where
  abbrev pub after : CompatDb
  after = rotated db now (refresh_token_of_row cr) (access_token_of_row ct) s a b

  -- The used refresh token.
  pub used :
      CompatTokensValid db
      → has_refresh_token b db ≡ false
      → Memᴰ cr db.refresh_tokens
      → lookup_active_compat_refresh_token after cr.token ≡ err (database row_not_found)
  used v fresh m = refresh_missing after cr.token (
      find-map-none (is_unused cr.token) (set_next cr.id db.next_refresh_token_id)
        (db.refresh_tokens
          ++ refresh_row db now (refresh_token_of_row cr) (access_token_of_row ct) s a b ∷ [])
        (All-mono _ _ _ (λ q same. ground (arith, same, text_eq_iff q.token cr.token))
          (id_of_token (λ r. r.id) (λ r. r.token) (db.next_refresh_token_id + 1) _ cr
            (IsTable-append (λ r. r.id) (λ r. r.token) db.next_refresh_token_id _ db.refresh_tokens
              refl fresh v.1)
            (Mem-append db.refresh_tokens _ m))))

  -- The access token that it came with.
  pub expired :
      CompatTokensValid db
      → has_access_token a db ≡ false
      → Memᴰ ct db.access_tokens
      → (t : Timestamp) → now ≤ t
      → lookup_active_compat_access_token after t ct.token ≡ err (database row_not_found)
  expired v fresh m t late = access_missing after t ct.token (
      find-map-none (is_live t ct.token) (expire now ct.id)
        (db.access_tokens
          ++ access_row db now (refresh_token_of_row cr) (access_token_of_row ct) s a b ∷ [])
        (All-mono _ _ _ (λ q same. ground (arith, same, text_eq_iff q.token ct.token))
          (id_of_token (λ r. r.id) (λ r. r.token) (db.next_access_token_id + 1) _ ct
            (IsTable-append (λ r. r.id) (λ r. r.token) db.next_access_token_id _ db.access_tokens
              refl fresh v.0)
            (Mem-append db.access_tokens _ m))))

  abbrev pub new_access : CompatAccessTokenRow
  new_access = access_row db now (refresh_token_of_row cr) (access_token_of_row ct) s a b

  abbrev pub new_refresh : CompatRefreshTokenRow
  new_refresh = refresh_row db now (refresh_token_of_row cr) (access_token_of_row ct) s a b

  -- The new tokens' rows are not the old ones'.
  access_id : CompatTokensValid db → Memᴰ ct db.access_tokens → ct.id < db.next_access_token_id
  access_id v m =
      All-Mem _ db.access_tokens
        (IsTable-below (λ r. r.id) (λ r. r.token) db.next_access_token_id db.access_tokens v.0) m

  refresh_id : CompatTokensValid db → Memᴰ cr db.refresh_tokens → cr.id < db.next_refresh_token_id
  refresh_id v m =
      All-Mem _ db.refresh_tokens
        (IsTable-below (λ r. r.id) (λ r. r.token) db.next_refresh_token_id db.refresh_tokens v.1) m

  no_text :
      (ats : List CompatAccessTokenRow)
      → any (λ (r : CompatAccessTokenRow). text_eq r.token a) ats ≡ false
      → All (λ (q : CompatAccessTokenRow). text_eq q.token a ≡ false) ats
  no_text [] h = tt
  no_text (q ∷ ats) h = (ground arith, no_text ats (ground arith))

  no_refresh_text :
      (rts : List CompatRefreshTokenRow)
      → any (λ (r : CompatRefreshTokenRow). text_eq r.token b) rts ≡ false
      → All (λ (q : CompatRefreshTokenRow). text_eq q.token b ≡ false) rts
  no_refresh_text [] h = tt
  no_refresh_text (q ∷ rts) h = (ground arith, no_refresh_text rts (ground arith))

  pub fresh_access :
      CompatTokensValid db
      → has_access_token a db ≡ false
      → Memᴰ ct db.access_tokens
      → active_compat_session db s.id ≡ ok s
      → (t : Timestamp) → t < now + ttl
      → lookup_active_compat_access_token after t a ≡ ok (access_token_of_row new_access, s)
  fresh_access v fresh m stored t early =
      let below = access_id v m in
      access_found after t a new_access s
        (find-map-All (is_live t a) (expire now ct.id) (db.access_tokens ++ new_access ∷ []) (
            All-append _ db.access_tokens (new_access ∷ [])
              (All-mono _ _ db.access_tokens (λ q e. (ground arith, ground arith))
                (no_text db.access_tokens fresh))
              ((ground arith, λ e. ground arith), tt))
          ∙ find-append_none (is_live t a) db.access_tokens (new_access ∷ []) (
              find-none_of_any (is_live t a) (λ r. text_eq r.token a) db.access_tokens
                (λ r h. ground arith) fresh)
          ∙ ground (arith, text_eq_refl a))
        (session_kept db now (refresh_token_of_row cr) (access_token_of_row ct) s a b s.id ∙ stored)

  pub fresh_refresh :
      CompatTokensValid db
      → has_refresh_token b db ≡ false
      → Memᴰ cr db.refresh_tokens
      → Memᴰ ct db.access_tokens
      → active_compat_session db s.id ≡ ok s
      → lookup_active_compat_refresh_token after b
        ≡ ok (refresh_token_of_row new_refresh, access_token_of_row new_access, s)
  unfolding joined_access_token
  fresh_refresh v fresh m am stored =
      let below = refresh_id v m in
      let below' = access_id v am in
      refresh_found after b new_refresh new_access s
        (find-map-All (is_unused b) (set_next cr.id db.next_refresh_token_id)
            (db.refresh_tokens ++ new_refresh ∷ [])
            (All-append _ db.refresh_tokens (new_refresh ∷ [])
              (All-mono _ _ db.refresh_tokens (λ q e. (ground arith, ground arith))
                (no_refresh_text db.refresh_tokens fresh))
              ((ground arith, λ e. ground arith), tt))
          ∙ find-append_none (is_unused b) db.refresh_tokens (new_refresh ∷ []) (
              find-none_of_any (is_unused b) (λ r. text_eq r.token b) db.refresh_tokens
                (λ r h. ground arith) fresh)
          ∙ ground (arith, text_eq_refl b))
        (find-map (λ (r : CompatAccessTokenRow). r.id == db.next_access_token_id) (expire now ct.id)
            (db.access_tokens ++ new_access ∷ []) (λ r. ground arith)
          ∙ rw
              (find-next_append (λ (r : CompatAccessTokenRow). r.id) db.next_access_token_id
                db.access_tokens new_access
                (IsTable-below (λ r. r.id) (λ r. r.token) db.next_access_token_id db.access_tokens
                  v.0)
                refl)
              (ground arith))
        (session_kept db now (refresh_token_of_row cr) (access_token_of_row ct) s a b s.id ∙ stored)
