-- ===== src/Storage/User/Ended.antt =====
-- What `end_session` does, crates/storage/src/user.rs, to the session and to the OAuth 2.0 sessions
-- that were granted in it.
use turnkey_triumph_326606_m.Prelude.{
  ℕ, zero, suc, ◌≡◌, ◌≢◌, refl, sym, ap, ◌∙◌, Bool, true, false, Option, none, some, map, ok, err,
  ok_or, map_err, Result-cases, Text, find, inl, inr, Option-cases, ◌==◌, arith,
}
use turnkey_triumph_326606_m.Prelude.ResultMonad.{>>=-eq-ok, >>=-elim-ok}
use turnkey_triumph_326606_m.Prelude.Finding.{find-map, find_sound}
use turnkey_triumph_326606_m.Time.{Timestamp}
use turnkey_triumph_326606_m.Model.User.{BrowserSession}
use turnkey_triumph_326606_m.Model.Session.{Session, AccessToken, RefreshToken}
use turnkey_triumph_326606_m.Storage.Rows.{
  Db, UserRow, UserSessionRow, SessionRow, database, row_not_found, exactly_one, inconsistency,
}
use turnkey_triumph_326606_m.Storage.Lookups.{
  email_of, authentication_of, lookup_client, UserColumns, SessionColumns, user_columns,
  active_session, browser_session_of,
}
use turnkey_triumph_326606_m.Scope.{from_str}
use turnkey_triumph_326606_m.Storage.Sessions.{stored_session, session_of}
use turnkey_triumph_326606_m.Storage.AccessToken.{lookup_active_access_token}
use turnkey_triumph_326606_m.Storage.AccessToken.Laws.{lookup_sound}
use turnkey_triumph_326606_m.Storage.RefreshToken.{lookup_active_refresh_token}
use turnkey_triumph_326606_m.Storage.RefreshToken.Laws.{found_row}
use turnkey_triumph_326606_m.Storage.User.{deactivate, end_session, lookup_active_session}

pub exactly_one_ok : {A : Type 0} (n : ℕ) (a b : A) → exactly_one n a ≡ ok b → (n ≡ 1) × (b ≡ a)
exactly_one_ok zero a b h = cc
exactly_one_ok (suc zero) a b h = (refl, ground arith)
exactly_one_ok (suc (suc n)) a b h = cc

abbrev ended : ℕ → Db → Db
ended i db = record db { user_sessions = map (deactivate i) db.user_sessions }

end_session_ok :
    (db : Db) (s : BrowserSession) (db' : Db) → end_session db s ≡ ok db' → db' ≡ ended s.id db
unfolding end_session
end_session_ok db s db' h = (exactly_one_ok _ _ _ h).1

user_columns_ok :
    (db : Db) (i : ℕ) (active : Bool) (c : UserColumns)
    → user_columns db i ≡ some (active, c)
    → (us : UserSessionRow) × (find (λ (r : UserSessionRow). r.id == i) db.user_sessions ≡ some us)
      × (active ≡ us.active)
      × (c.user_session_id ≡ us.id)
unfolding user_columns
user_columns_ok db i active c h =
    elim (Option-cases (find (λ (r : UserSessionRow). r.id == i) db.user_sessions)) [
      | inl e ↦ absurd (ground arith)
      | inr (us, e) ↦ elim (Option-cases (find (λ (r : UserRow). r.id == us.user_id) db.users)) [
        | inl k ↦ absurd (ground arith)
        | inr (u, k) ↦ (us, e, ground arith, ground arith)
      ]
    ]

-- The columns of an ended session say that it is not active.
user_columns-ended :
    (db : Db) (i : ℕ) (active : Bool) (c : UserColumns)
    → user_columns (ended i db) i ≡ some (active, c)
    → active ≡ false
user_columns-ended db i active c h =
    let (us, e, same, id) = user_columns_ok (ended i db) i active c h in
    same ∙ gone us (find (λ (r : UserSessionRow). r.id == i) db.user_sessions) refl (sym moved ∙ e)
  where
    moved :
        find (λ (r : UserSessionRow). r.id == i) (map (deactivate i) db.user_sessions)
        ≡ elim (find (λ (r : UserSessionRow). r.id == i) db.user_sessions) [
          | none ↦ none
          | some x ↦ some (deactivate i x)
        ]
    moved =
        find-map (λ (r : UserSessionRow). r.id == i) (deactivate i) db.user_sessions
          (λ r. ground arith)

    gone :
        (us : UserSessionRow) (o : Option UserSessionRow)
        → find (λ (r : UserSessionRow). r.id == i) db.user_sessions ≡ o
        → elim o [ none ↦ none | some x ↦ some (deactivate i x) ] ≡ some us
        → us.active ≡ false
    gone us none f k = cc
    gone us (some r) f k =
        let (m, is) = find_sound (λ (r : UserSessionRow). r.id == i) db.user_sessions r f in
        let equal : deactivate i r ≡ us = ground arith in
        ap (λ (q : UserSessionRow). q.active) (sym equal) ∙ ground arith

not_found_of :
    (db : Db) (i : ℕ)
    → ((active : Bool) (c : UserColumns) → user_columns db i ≡ some (active, c) → active ≡ false)
    → lookup_active_session db i ≡ err (database row_not_found)
unfolding lookup_active_session
not_found_of db i gone = elim (Option-cases (user_columns db i)) [
  | inl e ↦ rw e refl
  | inr ((active, c), e) ↦ rw (e, gone active c e) refl
]

browser_session_of-id :
    (c : UserColumns) (b : BrowserSession) → browser_session_of c ≡ ok b → b.id ≡ c.user_session_id
unfolding browser_session_of
browser_session_of-id c b h =
    elim (Result-cases
      (email_of c.user_email_id c.user_email c.user_email_created_at c.user_email_confirmed_at)) [
        | inr (x, e) ↦ absurd (ground arith)
        | inl (m, e) ↦
            elim (Result-cases
              (authentication_of c.last_authentication_id c.last_authentication_created_at)) [
                | inr (x, k) ↦ absurd (ground arith)
                | inl (a, k) ↦ ground arith
              ]
      ]

session_of-browser_session :
    (db : Db) (c : SessionColumns) (s : Session)
    → session_of db c ≡ ok s
    → browser_session_of c.user ≡ ok s.browser_session
unfolding session_of
session_of-browser_session db c s h =
    >>=-elim-ok (lookup_client db c.oauth2_client_id) _ h (λ client h1.
      let (b, e, h2) = >>=-eq-ok (browser_session_of c.user) _ h1 in
      >>=-elim-ok (map_err (λ _. inconsistency) (from_str c.scope)) _ h2
        (λ scope h3. e ∙ ap ok (ground arith)))

active_session-active :
    (db : Db) (i : ℕ) (c : SessionColumns)
    → active_session db i ≡ some c
    → (os : SessionRow) × (user_columns db os.user_session_id ≡ some (true, c.user))
unfolding active_session
active_session-active db i c h =
    elim (Option-cases (find (λ (r : SessionRow). r.id == i) db.sessions)) [
      | inl e ↦ absurd (ground arith)
      | inr (os, e) ↦ elim (Option-cases (user_columns db os.user_session_id)) [
        | inl k ↦ absurd (ground arith)
        | inr ((active, u), k) ↦ (os, k ∙ ground arith)
      ]
    ]

user_columns-id :
    (db : Db) (i : ℕ) (active : Bool) (c : UserColumns)
    → user_columns db i ≡ some (active, c)
    → c.user_session_id ≡ i
user_columns-id db i active c h =
    let (us, e, same, id) = user_columns_ok db i active c h in
    let (m, is) = find_sound (λ (r : UserSessionRow). r.id == i) db.user_sessions us e in
    id ∙ ground arith

-- The browser session of a stored session is active.
stored_session-active :
    (db : Db) (i : ℕ) (s : Session)
    → stored_session db i ≡ ok s
    → (c : UserColumns) × (user_columns db s.browser_session.id ≡ some (true, c))
unfolding stored_session
stored_session-active db i s h =
    let (c, e, k) = >>=-eq-ok (ok_or (active_session db i) (database row_not_found)) _ h in
    let (os, columns) = active_session-active db i c (ground arith) in
    let same : s.browser_session.id ≡ os.user_session_id =
      browser_session_of-id c.user s.browser_session (session_of-browser_session db c s k)
      ∙ user_columns-id db os.user_session_id true c.user columns in
    (c.user, ap (user_columns db) same ∙ columns)

-- Once a browser session has been ended, it is not found as an active one, and no access token and no
-- refresh token of an OAuth 2.0 session that was granted in it is accepted.
pub end_session-tokens :
    (db : Db) (b : BrowserSession) (db' : Db)
    → end_session db b ≡ ok db'
    → (lookup_active_session db' b.id ≡ err (database row_not_found))
      × ((t : Timestamp) (u : Text) (a : AccessToken) (s : Session)
          → lookup_active_access_token db' t u ≡ ok (a, s)
          → s.browser_session.id ≢ b.id)
      × ((u : Text) (r : RefreshToken) (s : Session)
          → lookup_active_refresh_token db' u ≡ ok (r, s)
          → s.browser_session.id ≢ b.id)
end_session-tokens db b db' h = (
  not_found_of db' b.id inactive,
  λ t u a s found same.
      let (at, m, e1, e2, e3, stored) = lookup_sound db' t u a s found in
      gone at.oauth2_session_id s stored same,
  λ u r s found same.
      let (rt, m, e1, e2, e3, stored) = found_row db' u r s found in
      gone rt.oauth2_session_id s stored same,
)
  where
    inactive :
        (active : Bool) (c : UserColumns)
        → user_columns db' b.id ≡ some (active, c)
        → active ≡ false
    inactive active c k =
        user_columns-ended db b.id active c
          (ap (λ d. user_columns d b.id) (sym (end_session_ok db b db' h)) ∙ k)

    gone : (i : ℕ) (s : Session) → stored_session db' i ≡ ok s → s.browser_session.id ≢ b.id
    gone i s stored same =
        let (c, columns) = stored_session-active db' i s stored in
        let no = inactive true c (ap (user_columns db') (sym same) ∙ columns) in cc
