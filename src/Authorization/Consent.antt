-- ===== src/Authorization/Consent.antt =====
-- The `post` of the consent page, crates/handlers/src/oauth2/consent.rs, for a user who is logged in and
-- a form whose token is the cookie's.
use turnkey_triumph_326606_m.Prelude.{not, retain}
use turnkey_triumph_326606_m.Time.{Timestamp}
use turnkey_triumph_326606_m.Scope.{Scope, from_iter}
use turnkey_triumph_326606_m.Model.User.{BrowserSession}
use turnkey_triumph_326606_m.Model.Grant.{AuthorizationGrant}
use turnkey_triumph_326606_m.Storage.Rows.{Db}
use turnkey_triumph_326606_m.Storage.Consent.{insert_client_consent}
use turnkey_triumph_326606_m.Storage.GrantStage.{give_consent_to_grant}
use turnkey_triumph_326606_m.Authorization.Complete.{is_device_token}

-- `.filter(…).cloned().collect()`
abbrev pub scope_without_device : Scope → Scope
scope_without_device scope = from_iter (retain (λ t. not (is_device_token t)) scope)

-- From the session on: the grant with the consent given, and the database.
unfoldable pub give_consent :
    Db → Timestamp → AuthorizationGrant → BrowserSession → AuthorizationGrant × Db
unfolding insert_client_consent give_consent_to_grant
give_consent db now grant session =
    give_consent_to_grant
      (insert_client_consent db now session.user grant.client (scope_without_device grant.scope))
      grant
