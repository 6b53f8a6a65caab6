-- ===== src/Storage/GrantStage.antt =====
-- The queries that move a grant from stage to stage and start or end its session,
-- crates/storage/src/oauth2/authorization_grant.rs and mod.rs.
pub mod Laws
use turnkey_triumph_326606_m.Prelude.{
  ℕ, ◌+◌, Bool, true, false, Option, none, some, List, [], ◌∷◌, ◌++◌, Result, ok, err, ok_or,
  map_err, find, any, retain, length, map, if◌then◌else◌, ◌==◌,
}
use turnkey_triumph_326606_m.Prelude.ResultMonad.{◌>>=◌}
use turnkey_triumph_326606_m.Time.{Timestamp}
use turnkey_triumph_326606_m.Model.User.{BrowserSession}
use turnkey_triumph_326606_m.Model.Session.{Session}
use turnkey_triumph_326606_m.Model.Grant.{AuthorizationGrant, fulfill, exchange}
use turnkey_triumph_326606_m.Storage.Rows.{
  Db, GrantRow, SessionRow, StorageError, database, no_row_affected, row_not_found,
  invalid_transition,
}

abbrev pub grant_row : Db → ℕ → Option GrantRow
grant_row db id = find (λ (r : GrantRow). r.id == id) db.grants

abbrev pub session_row : Db → ℕ → Option SessionRow
session_row db id = find (λ (r : SessionRow). r.id == id) db.sessions

-- The client and the scope of the new session are those of the grant's row.
unfoldable pub derive_session :
    Db → Timestamp → AuthorizationGrant → BrowserSession → Result StorageError (Session × Db)
derive_session db now grant browser_session = do
  og ← ok_or (grant_row db grant.id) (database row_not_found)
  ok (
    record {
      id = db.next_session_id;
      browser_session = browser_session;
      client = grant.client;
      scope = grant.scope;
    },
    record db {
      sessions =
          db.sessions
          ++ record {
            id = db.next_session_id;
            user_session_id = browser_session.id;
            oauth2_client_id = og.oauth2_client_id;
            scope = og.scope;
            created_at = now;
            ended_at = none;
          }
            ∷ [];
      next_session_id = db.next_session_id + 1;
    },
  )

-- An update of the grants' rows with one id.
abbrev pub update_grant : ℕ → (GrantRow → GrantRow) → Db → Db
update_grant id f db = record db {
  grants = map (λ (g : GrantRow). if g.id == id then f g else g) db.grants;
}

abbrev pub set_fulfilled : SessionRow → GrantRow → GrantRow
set_fulfilled os g = record g { oauth2_session_id = some os.id; fulfilled_at = some os.created_at }

unfoldable pub fulfill_grant :
    Db → AuthorizationGrant → Session → Result StorageError (AuthorizationGrant × Db)
fulfill_grant db grant session = do
  og ← ok_or (grant_row db grant.id) (database row_not_found)
  os ← ok_or (session_row db session.id) (database row_not_found)
  stage ← map_err (λ _. invalid_transition) (fulfill grant.stage os.created_at session)
  ok (record grant { stage = stage }, update_grant grant.id (set_fulfilled os) db)

abbrev pub clear_consent : GrantRow → GrantRow
clear_consent g = record g { requires_consent = false }

unfoldable pub give_consent_to_grant : Db → AuthorizationGrant → AuthorizationGrant × Db
give_consent_to_grant db grant =
    (record grant { requires_consent = false }, update_grant grant.id clear_consent db)

abbrev pub set_exchanged : Timestamp → GrantRow → GrantRow
set_exchanged now g = record g { exchanged_at = some now }

unfoldable pub exchange_grant :
    Db → Timestamp → AuthorizationGrant → Result StorageError (AuthorizationGrant × Db)
exchange_grant db now grant = do
  og ← ok_or (grant_row db grant.id) (database row_not_found)
  stage ← map_err (λ _. invalid_transition) (exchange grant.stage now)
  ok (record grant { stage = stage }, update_grant grant.id (set_exchanged now) db)

abbrev pub end_session : Timestamp → ℕ → SessionRow → SessionRow
end_session now id os = if os.id == id then record os { ended_at = some now } else os

unfoldable pub end_oauth_session : Db → Timestamp → Session → Result StorageError Db
end_oauth_session db now session =
    if length (retain (λ (os : SessionRow). os.id == session.id) db.sessions) == 1
    then ok (record db { sessions = map (end_session now session.id) db.sessions })
    else err no_row_affected
