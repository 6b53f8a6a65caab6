-- ===== src/Storage/Links.antt =====
-- The links of refresh tokens to access tokens, `oauth2_access_token_id`,
-- crates/storage/src/oauth2/refresh_token.rs and access_token.rs.

use turnkey_triumph_326606_m.Prelude.{
  ℕ, ◌≡◌, inl, inr, refl, sym, ap, ◌∙◌, Bool, true, false, not, ◌&&◌, ◌||◌, Option, none, some,
  List, [], ◌∷◌, ◌++◌, ok, Text, find, any, retain, All, Bool-cases, arith, ◌==◌,
}
use turnkey_triumph_326606_m.Prelude.Finding.{
  All-append, All-mono, any-append, any-last, any-of, find-of_any, find_sound,
}
use turnkey_triumph_326606_m.Time.{Timestamp}
use turnkey_triumph_326606_m.Model.Session.{Session, AccessToken, RefreshToken}
use turnkey_triumph_326606_m.Storage.Rows.{Db, AccessTokenRow, RefreshTokenRow}
use turnkey_triumph_326606_m.Storage.Lookups.{is_null, column}
use turnkey_triumph_326606_m.Storage.AccessToken.{
  token_of_row, add_access_token, unlink, unlink_id, delete_access_tokens,
}
use turnkey_triumph_326606_m.Storage.AccessToken.Laws.{add_access_token_ok}
use turnkey_triumph_326606_m.Storage.AccessToken
use turnkey_triumph_326606_m.Storage.RefreshToken.{
  new_row, set_next, joined_access_token, add_refresh_token,
}
use turnkey_triumph_326606_m.Storage.RefreshToken.Laws.{add_refresh_token_ok}

abbrev pub is_of : ℕ → ℕ → AccessTokenRow → Bool
is_of i session at = at.id == i && at.oauth2_session_id == session

-- A link is to a row of the same session.
abbrev pub links_to : List AccessTokenRow → ℕ → Option ℕ → Bool
links_to ats session none = true
links_to ats session (some i) = any (is_of i session) ats

abbrev pub IsLinked : List AccessTokenRow → RefreshTokenRow → Type 0
IsLinked ats rt = links_to ats rt.oauth2_session_id rt.oauth2_access_token_id ≡ true

-- A refresh token that has been used has no access token.
abbrev pub IsRetired : RefreshTokenRow → Type 0
IsRetired rt = (is_null rt.next_token_id || is_null rt.oauth2_access_token_id) ≡ true

-- Each access token that a refresh token refers to is there and is of the same session, and a refresh
-- token that has been used refers to none.
abbrev pub LinksValid : Db → Type 0
LinksValid db = All (λ rt. IsLinked db.access_tokens rt × IsRetired rt) db.refresh_tokens

links_to-append :
    (ats new : List AccessTokenRow) (session : ℕ) (link : Option ℕ)
    → links_to ats session link ≡ true
    → links_to (ats ++ new) session link ≡ true
links_to-append ats new session none h = refl
links_to-append ats new session (some i) h = any-append (is_of i session) ats new h

-- Of rows whose link has been cut where it goes to a deleted row, each is linked as before.
any-kept :
    (picked : AccessTokenRow → Bool) (i session : ℕ) (ats : List AccessTokenRow)
    → any (λ (at : AccessTokenRow). at.id == i && picked at) ats ≡ false
    → any (is_of i session) ats ≡ true
    → any (is_of i session) (retain (λ at. not (picked at)) ats) ≡ true
any-kept picked i session [] e h = cc
any-kept picked i session (at ∷ ats) e h = elim (Bool-cases (picked at)) [
  | inl k ↦
      let other : is_of i session at ≡ false = ground arith in
      ground (arith, any-kept picked i session ats (ground arith) (ground arith))
  | inr k ↦ elim (Bool-cases (is_of i session at)) [
    | inl here ↦ rw (k, here) refl
    | inr other ↦ rw (k, other) (any-kept picked i session ats (ground arith) (ground arith))
  ]
]

abbrev pub is_gone : (AccessTokenRow → Bool) → List AccessTokenRow → ℕ → Bool
is_gone picked ats i = any (λ (at : AccessTokenRow). at.id == i && picked at) ats

links_to-delete :
    (picked : AccessTokenRow → Bool) (ats : List AccessTokenRow) (session : ℕ) (link : Option ℕ)
    → links_to ats session link ≡ true
    → links_to (retain (λ at. not (picked at)) ats) session (unlink_id (is_gone picked ats) link)
      ≡ true
links_to-delete picked ats session none h = refl
links_to-delete picked ats session (some i) h = elim (Bool-cases (is_gone picked ats i)) [
  | inl e ↦ rw e refl
  | inr e ↦ rw e (any-kept picked i session ats e h)
]

null-unlink_id :
    (gone : ℕ → Bool) (link : Option ℕ) → is_null link ≡ true → is_null (unlink_id gone link) ≡ true
null-unlink_id gone none h = refl
null-unlink_id gone (some i) h = absurd (ground arith)

-- A row's part of the invariant, once access tokens have been deleted.
IsLinked-delete :
    (picked : AccessTokenRow → Bool) (ats : List AccessTokenRow) (rt : RefreshTokenRow)
    → IsLinked ats rt
    → IsLinked (retain (λ at. not (picked at)) ats) (unlink (is_gone picked ats) rt)
IsLinked-delete picked ats rt h =
    links_to-delete picked ats rt.oauth2_session_id rt.oauth2_access_token_id h

-- Adding an access token and a refresh token for the same session keeps the links.
pub with_tokens-LinksValid :
    (db : Db) (now : Timestamp) (s : Session) (token next_token : Text) (ttl : ℕ) (a : AccessToken)
    (r : RefreshToken) (db1 db2 : Db)
    → LinksValid db
    → add_access_token db now s token ttl ≡ ok (a, db1)
    → add_refresh_token db1 now s a next_token ≡ ok (r, db2)
    → LinksValid db2
      × (db2.refresh_tokens ≡ db.refresh_tokens ++ new_row db1 now s a next_token ∷ [])
      × (db1.next_refresh_token_id ≡ db.next_refresh_token_id)
with_tokens-LinksValid db now s token next_token ttl a r db1 db2 v h k =
    let (free, ea, edb1) = add_access_token_ok db now s token ttl a db1 h in
    let (unused, er, edb2) = add_refresh_token_ok db1 now s a next_token r db2 k in
    let row = AccessToken.new_row db now s token ttl in
    let ats : db2.access_tokens ≡ db.access_tokens ++ row ∷ [] =
      ap (λ (d : Db). d.access_tokens) edb2 ∙ ap (λ (d : Db). d.access_tokens) edb1 in
    let rts : db2.refresh_tokens ≡ db.refresh_tokens ++ new_row db1 now s a next_token ∷ [] =
      ap (λ (d : Db). d.refresh_tokens) edb2
      ∙ ap (λ (d : Db). d.refresh_tokens ++ new_row db1 now s a next_token ∷ []) edb1 in
    let id : row.id ≡ a.id = ap (λ (q : AccessToken). q.id) (sym ea) in
    let here : is_of a.id s.id row ≡ true = ground (arith, id) in
    (
      rw (ats, rts)
          (All-append (λ rt. IsLinked (db.access_tokens ++ row ∷ []) rt × IsRetired rt)
            db.refresh_tokens (new_row db1 now s a next_token ∷ [])
            (All-mono _ _ db.refresh_tokens
              (λ rt (linked, retired). (
                links_to-append db.access_tokens (row ∷ []) rt.oauth2_session_id
                    rt.oauth2_access_token_id linked,
                retired,
              ))
              v)
            ((any-last (is_of a.id s.id) db.access_tokens row here, refl), tt)),
      rts,
      ap (λ (d : Db). d.next_refresh_token_id) edb1,
    )

-- What a row refers to is the access token that it is found with.
pub IsLinked-found :
    (db : Db) (rt : RefreshTokenRow)
    → IsLinked db.access_tokens rt
    → rt.oauth2_access_token_id
      ≡ column (λ (a : AccessToken). a.id) (column token_of_row (joined_access_token db rt))
unfolding joined_access_token
IsLinked-found db rt h = go rt.oauth2_access_token_id refl h
  where
    go :
        (link : Option ℕ)
        → rt.oauth2_access_token_id ≡ link
        → links_to db.access_tokens rt.oauth2_session_id link ≡ true
        → link
          ≡ column
              (λ (a : AccessToken). a.id)
              (column token_of_row (elim link [
                | none ↦ none
                | some i ↦ find (λ (at : AccessTokenRow). at.id == i) db.access_tokens
              ]))
    go none e k = refl
    go (some i) e k =
        let (at, f) =
          find-of_any (is_of i rt.oauth2_session_id) (λ (at : AccessTokenRow). at.id == i)
            db.access_tokens (λ at l. ground arith) k in
        let (m, is) = find_sound (λ (at : AccessTokenRow). at.id == i) db.access_tokens at f in
        let same : at.id ≡ i = ground arith in rw f (ap some (sym same))

-- A rotation's last steps, for one row: the rows with the id of the used token are linked to its access
-- token, they are marked as used, and the access token is deleted.
module _ (ats : List AccessTokenRow) (old next : RefreshToken) where
  abbrev pub IsOld : RefreshTokenRow → Type 0
  IsOld rt =
      rt.id ≡ old.id
      → rt.oauth2_access_token_id ≡ column (λ (a : AccessToken). a.id) old.access_token

  pub used_without :
      (rt : RefreshTokenRow)
      → old.access_token ≡ none
      → IsLinked ats rt × IsRetired rt
      → IsOld rt
      → IsLinked ats (set_next old next rt) × IsRetired (set_next old next rt)
  used_without rt bare (linked, retired) own = elim (Bool-cases (rt.id == old.id)) [
    | inl e ↦
        let cut : rt.oauth2_access_token_id ≡ none =
          own (ground arith) ∙ ap (column (λ (a : AccessToken). a.id)) bare in
        rw e (linked, ap is_null cut)
    | inr e ↦ rw e (linked, retired)
  ]

  pub used_and_deleted :
      (rt : RefreshTokenRow) (a : AccessToken)
      → old.access_token ≡ some a
      → IsLinked ats rt × IsRetired rt
      → IsOld rt
      → IsLinked
          (retain (λ at. not (at.id == a.id)) ats)
          (unlink (is_gone (λ at. at.id == a.id) ats) (set_next old next rt))
        × IsRetired (unlink (is_gone (λ at. at.id == a.id) ats) (set_next old next rt))
  used_and_deleted rt a with_a (linked, retired) own = elim (Bool-cases (rt.id == old.id)) [
    | inl e ↦
        let link : rt.oauth2_access_token_id ≡ some a.id =
          own (ground arith) ∙ ap (column (λ (q : AccessToken). q.id)) with_a in
        let there : any (is_of a.id rt.oauth2_session_id) ats ≡ true =
          ap (links_to ats rt.oauth2_session_id) (sym link) ∙ linked in
        let gone : is_gone (λ at. at.id == a.id) ats a.id ≡ true =
          any-of (is_of a.id rt.oauth2_session_id) (λ at. at.id == a.id && at.id == a.id) ats
            (λ at l. ground arith) there in
        rw e (
          IsLinked-delete (λ at. at.id == a.id) ats rt linked,
          ap (λ l. is_null (unlink_id (is_gone (λ at. at.id == a.id) ats) l)) link ∙ rw gone refl,
        )
    | inr e ↦ rw e (
      IsLinked-delete (λ at. at.id == a.id) ats rt linked,
      retired_still rt.next_token_id rt.oauth2_access_token_id retired,
    )
  ]
    where
      retired_still :
          (n link : Option ℕ)
          → (is_null n || is_null link) ≡ true
          → (is_null n || is_null (unlink_id (is_gone (λ at. at.id == a.id) ats) link)) ≡ true
      retired_still none link h = refl
      retired_still (some n) link h = null-unlink_id _ link h
