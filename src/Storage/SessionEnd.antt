-- ===== src/Storage/SessionEnd.antt =====
-- What `end_oauth_session` does to a session's tokens, crates/storage/src/oauth2/mod.rs.

use turnkey_triumph_326606_m.Prelude.{
  ℕ, ◌≡◌, ◌≢◌, refl, sym, ap, ◌∙◌, none, some, map, ok, ok_or, map_err, Text, find, inl, inr,
  Option-cases, arith, ◌==◌,
}
use turnkey_triumph_326606_m.Prelude.ResultMonad.{>>=-eq-ok, >>=-elim-ok}
use turnkey_triumph_326606_m.Prelude.Finding.{find-map, find_sound}
use turnkey_triumph_326606_m.Time.{Timestamp}
use turnkey_triumph_326606_m.Scope.{from_str}
use turnkey_triumph_326606_m.Model.Session.{Session, AccessToken, RefreshToken}
use turnkey_triumph_326606_m.Storage.Rows.{Db, SessionRow, database, row_not_found, inconsistency}
use turnkey_triumph_326606_m.Storage.Lookups.{
  SessionColumns, user_columns, active_session, lookup_client, browser_session_of,
}
use turnkey_triumph_326606_m.Storage.Sessions.{session_of, stored_session}
use turnkey_triumph_326606_m.Storage.AccessToken.{lookup_active_access_token}
use turnkey_triumph_326606_m.Storage.AccessToken.Laws.{lookup_sound}
use turnkey_triumph_326606_m.Storage.RefreshToken.{lookup_active_refresh_token}
use turnkey_triumph_326606_m.Storage.RefreshToken.Laws.{found_row}
use turnkey_triumph_326606_m.Storage.GrantStage.{end_session, end_oauth_session}

end_oauth_session_ok :
    (db : Db) (now : Timestamp) (s : Session) (db' : Db)
    → end_oauth_session db now s ≡ ok db'
    → db' ≡ record db { sessions = map (end_session now s.id) db.sessions }
unfolding end_oauth_session
end_oauth_session_ok db now s db' h = ground arith

active_session-none :
    (db : Db) (i : ℕ)
    → find (λ (r : SessionRow). r.id == i) db.sessions ≡ none
    → active_session db i ≡ none
unfolding active_session
active_session-none db i e = rw e refl

active_session-ended :
    (db : Db) (i : ℕ) (os : SessionRow) (t : Timestamp)
    → find (λ (r : SessionRow). r.id == i) db.sessions ≡ some os
    → os.ended_at ≡ some t
    → active_session db i ≡ none
unfolding active_session
active_session-ended db i os t e h = elim (Option-cases (user_columns db os.user_session_id)) [
  | inl k ↦ rw (e, k) refl
  | inr ((a, u), k) ↦ rw (e, k, h) (ground arith)
]

-- The session that has been ended is not active.
active_session-end :
    (db : Db) (now : Timestamp) (i : ℕ)
    → active_session (record db { sessions = map (end_session now i) db.sessions }) i ≡ none
active_session-end db now i =
    elim (Option-cases (find (λ (r : SessionRow). r.id == i) db.sessions)) [
      | inl e ↦ active_session-none _ i (moved ∙ rw e refl)
      | inr (os, e) ↦
          active_session-ended _ i (record os { ended_at = some now }) now
            (moved
              ∙ rw e
                  (ground (arith, (find_sound (λ (r : SessionRow). r.id == i) db.sessions os e).1)))
            refl
    ]
  where
    moved :
        find (λ (r : SessionRow). r.id == i) (map (end_session now i) db.sessions)
        ≡ elim (find (λ (r : SessionRow). r.id == i) db.sessions) [
          | none ↦ none
          | some x ↦ some (end_session now i x)
        ]
    moved =
        find-map (λ (r : SessionRow). r.id == i) (end_session now i) db.sessions (λ r. ground arith)

stored_session-inactive :
    (db : Db) (i : ℕ) (s : Session) → active_session db i ≡ none → stored_session db i ≢ ok s
unfolding stored_session
stored_session-inactive db i s e h = ground arith

session_of-id :
    (db : Db) (c : SessionColumns) (s : Session) → session_of db c ≡ ok s → s.id ≡ c.session_id
unfolding session_of
session_of-id db c s h = >>=-elim-ok (lookup_client db c.oauth2_client_id) _ h (λ client h1.
    >>=-elim-ok (browser_session_of c.user) _ h1 (λ b h2.
      >>=-elim-ok (map_err (λ _. inconsistency) (from_str c.scope)) _ h2
        (λ scope h3. ground arith)))

active_session-id :
    (db : Db) (i : ℕ) (c : SessionColumns) → active_session db i ≡ some c → c.session_id ≡ i
unfolding active_session
active_session-id db i c h =
    elim (Option-cases (find (λ (r : SessionRow). r.id == i) db.sessions)) [
      | inl e ↦ ground arith
      | inr (os, e) ↦ elim (Option-cases (user_columns db os.user_session_id)) [
        | inl k ↦ ground arith
        | inr ((a, u), k) ↦
            let here = (find_sound (λ (r : SessionRow). r.id == i) db.sessions os e).1 in
            ground arith
      ]
    ]

pub stored_session-id : (db : Db) (i : ℕ) (s : Session) → stored_session db i ≡ ok s → s.id ≡ i
unfolding stored_session
stored_session-id db i s h =
    let (c, e, k) = >>=-eq-ok (ok_or (active_session db i) (database row_not_found)) _ h in
    session_of-id db c s k ∙ active_session-id db i c (ground arith)

-- Once a session has been ended, no access token and no refresh token is accepted for it.
pub end_oauth_session-tokens :
    (db : Db) (now : Timestamp) (s : Session) (db' : Db)
    → end_oauth_session db now s ≡ ok db'
    → ((t : Timestamp) (u : Text) (a : AccessToken) (s' : Session)
        → lookup_active_access_token db' t u ≡ ok (a, s')
        → s'.id ≢ s.id)
      × ((u : Text) (r : RefreshToken) (s' : Session)
          → lookup_active_refresh_token db' u ≡ ok (r, s')
          → s'.id ≢ s.id)
end_oauth_session-tokens db now s db' h = (
  λ t u a s' found same.
      let (at, m, e1, e2, e3, stored) = lookup_sound db' t u a s' found in
      gone at.oauth2_session_id s' stored same,
  λ u r s' found same.
      let (rt, m, e1, e2, e3, stored) = found_row db' u r s' found in
      gone rt.oauth2_session_id s' stored same,
)
  where
    gone : (i : ℕ) (s' : Session) → stored_session db' i ≡ ok s' → s'.id ≢ s.id
    gone i s' stored same =
        stored_session-inactive db' i s'
          (ap (active_session db') (sym (stored_session-id db' i s' stored) ∙ same)
            ∙ rw (end_oauth_session_ok db now s db' h) (active_session-end db now s.id))
          stored
